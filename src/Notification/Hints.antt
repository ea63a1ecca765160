-- ===== src/Notification/Hints.antt =====
-- crates/notification/src/hints.rs: the fields of a notification that its hints give, and the
-- action list of server.rs. D-Bus values are a parameter: the tests that the code makes on one.
pub mod Actions
use Prim.Native.String.{String}
use de.Prelude.{
  ℕ, Bool, true, false, not, List, [], ◌∷◌, Option, none, some, ◌==◌, ltb, if◌then◌else◌, ◌>>=◌, ℤ,
  pos, pos_part, ltb_ℤ, length, get_elem?,
}
use de.Notification.{Urgency, low, normal, critical, NotificationImage, path, image_data}

-- `zvariant::Value`: which of the variants that the code matches on a value is.
pub record Zvariant : Type 1 where
  pub Value : Type 0
  pub as_str : Value → Option String
  pub as_u8 : Value → Option ℕ
  pub as_bool : Value → Option Bool
  pub as_i32 : Value → Option ℤ
  pub as_structure : Value → Option (List Value)
  pub as_array : Value → Option (List Value)

pub record ParsedHints : Type 0 where
  pub urgency : Urgency
  pub image : Option NotificationImage
  pub category : Option String
  pub desktop_entry : Option String
  pub transient : Bool
  pub resident : Bool

-- `or_else`
abbrev pub or_else {ℓ} : {A : Type ℓ} → Option A → Option A → Option A
or_else none b = b
or_else (some a) b = some a

abbrev pub unwrap_or {ℓ} : {A : Type ℓ} → Option A → A → A
unwrap_or none a = a
unwrap_or (some b) a = b

abbrev pub urgency_of : Option ℕ → Urgency
urgency_of none = normal
urgency_of (some u) = if u == 0 then low else if u == 2 then critical else normal

module _ ⦃zv : Zvariant⦄ where
  open zv use {Value, as_str, as_u8, as_bool, as_i32, as_structure, as_array}

  unfoldable pub get_str : (String → Option Value) → String → Option String
  get_str hints name = hints name >>= as_str

  unfoldable pub get_u8 : (String → Option Value) → String → Option ℕ
  get_u8 hints name = hints name >>= as_u8

  abbrev bool_of_u8 : Option ℕ → Option Bool
  bool_of_u8 none = none
  bool_of_u8 (some b) = some (not (b == 0))

  unfoldable pub get_bool : (String → Option Value) → String → Option Bool
  get_bool hints name = hints name >>= λ v. or_else (as_bool v) (bool_of_u8 (as_u8 v))

  abbrev cons_u8 : Option ℕ → List ℕ → List ℕ
  cons_u8 none bs = bs
  cons_u8 (some b) bs = b ∷ bs

  -- The `filter_map` over the pixel array.
  abbrev pub bytes : List Value → List ℕ
  bytes [] = []
  bytes (v ∷ vs) = cons_u8 (as_u8 v) (bytes vs)

  abbrev image_of_fields : List Value → Option NotificationImage
  image_of_fields fields = get_elem? fields 0 >>= as_i32 >>= λ width.
      get_elem? fields 1 >>= as_i32 >>= λ height.
      get_elem? fields 6 >>= as_array >>= λ arr. some (image_data width height (bytes arr))

  unfoldable pub parse_image_data : Value → Option NotificationImage
  parse_image_data v =
      as_structure v >>= λ fields. if ltb (length fields) 7 then none else image_of_fields fields

  abbrev path_of : Option String → Option NotificationImage
  path_of none = none
  path_of (some p) = some (path p)

  unfoldable pub parse_hints : (String → Option Value) → ℤ → ParsedHints × Option ℕ
  unfolding get_str get_u8 get_bool parse_image_data
  parse_hints hints expire_timeout = (
    record {
      urgency = urgency_of (get_u8 hints "urgency");
      image =
          or_else (or_else (hints "image-data") (hints "icon_data") >>= parse_image_data)
            (path_of (or_else (get_str hints "image-path") (get_str hints "image_path")));
      category = get_str hints "category";
      desktop_entry = get_str hints "desktop-entry";
      transient = unwrap_or (get_bool hints "transient") false;
      resident = unwrap_or (get_bool hints "resident") false;
    },
    if ltb_ℤ (pos 0) expire_timeout then some (pos_part expire_timeout) else none,
  )

-- `actions.chunks(2)`: keys and labels in turn; a last key without a label is dropped.
unfoldable pub parse_actions : List String → List (String × String)
parse_actions (k ∷ l ∷ rest) = (k, l) ∷ parse_actions rest
parse_actions _ = []

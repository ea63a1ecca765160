-- ===== src/Tray/Vanish.antt =====
-- What a vanished bus name takes with it.
use de.Prelude.{
  ◌≡◌, refl, Bool, false, not, ◌&&◌, Bool-cases, inl, inr, List, [], ◌∷◌, some, arith, retain, ◌∙◌,
  ap,
}
use de.Tray.{
  WatcherState, remove_item, remove_items, keys_for_bus, name_vanished, refresh_store, get_item,
  StatusNotifierItem,
}
use de.Tray.Bytes.{
  Text, same, same_iff, contains_text, lookup, lookup-put, lookup-delete, same_refl,
  contains-without_text, starts_with,
}

contains-remove_item :
    (s : WatcherState) (key k : Text)
    → contains_text k (remove_item s key).1.keys ≡ (contains_text k s.keys && not (same k key))
unfolding remove_item
contains-remove_item s key k = elim (Bool-cases (contains_text key s.keys)) [
  | inl e ↦ rw e (contains-without_text k key s.keys)
  | inr e ↦ elim (Bool-cases (same k key)) [
    | inl f ↦
        let g : contains_text k s.keys ≡ contains_text key s.keys =
          ap (λ t. contains_text t s.keys) ((same_iff k key).0 f) in
        rw (e, f, g, e) refl
    | inr f ↦ rw (e, f) (ground arith)
  ]
]

-- A key is left by the removal of several exactly if it is none of them.
contains-remove_items :
    (affected : List Text) (s : WatcherState) (k : Text)
    → contains_text k (remove_items s affected).1.keys
      ≡ (contains_text k s.keys && not (contains_text k affected))
unfolding remove_items
contains-remove_items [] s k = ground arith
contains-remove_items (key ∷ affected) s k = ground (
  arith,
  contains-remove_items affected (remove_item s key).1 k,
  contains-remove_item s key k,
  same_iff key k,
  same_iff k key,
)

contains-retain_text :
    (p : Text → Bool) (k : Text) (js : List Text)
    → contains_text k (retain p js) ≡ (contains_text k js && p k)
contains-retain_text p k [] = refl
contains-retain_text p k (j ∷ js) = elim (Bool-cases (same j k)) [
  | inl e ↦
      let f : j ≡ k = (same_iff j k).0 e in ground (arith, contains-retain_text p k js, ap p f)
  | inr e ↦ ground (arith, contains-retain_text p k js)
]

-- The keys that are left are those that do not begin with the name.
pub name_vanished-keys :
    (s : WatcherState) (vanished k : Text)
    → contains_text k (name_vanished s vanished).1.keys
      ≡ (contains_text k s.keys && not (starts_with vanished k))
unfolding name_vanished keys_for_bus
name_vanished-keys s vanished k = ground (
  arith,
  contains-remove_items (retain (starts_with vanished) s.keys) s k,
  contains-retain_text (starts_with vanished) k s.keys,
)

remove_item-keeps :
    (s : WatcherState) (k key : Text)
    → contains_text key s.keys ≡ false
    → lookup key (remove_item s k).1.items ≡ lookup key s.items
unfolding remove_item
remove_item-keeps s k key h = elim (Bool-cases (contains_text k s.keys)) [
  | inr e ↦ rw e refl
  | inl e ↦ elim (Bool-cases (same k key)) [
    | inl f ↦
        let g : contains_text k s.keys ≡ contains_text key s.keys =
          ap (λ t. contains_text t s.keys) ((same_iff k key).0 f) in
        ground arith
    | inr f ↦ rw e (lookup-delete key k s.items ∙ rw f refl)
  ]
]

remove_items-keeps :
    (affected : List Text) (s : WatcherState) (key : Text)
    → contains_text key s.keys ≡ false
    → (lookup key (remove_items s affected).1.items ≡ lookup key s.items)
unfolding remove_items
remove_items-keeps [] s key h = refl
remove_items-keeps (k ∷ affected) s key h =
    let still : contains_text key (remove_item s k).1.keys ≡ false =
      ground (arith, contains-remove_item s k key) in
    remove_items-keeps affected (remove_item s k).1 key still ∙ remove_item-keeps s k key h

-- An item whose key is unregistered while it is read again stays, even when its bus name vanishes.
pub get_item-name_vanished :
    (s : WatcherState) (key vanished : Text) (item : StatusNotifierItem)
    → contains_text key s.keys ≡ false
    → get_item (name_vanished (refresh_store s key item) vanished).1 key ≡ some item
unfolding name_vanished refresh_store get_item
get_item-name_vanished s key vanished item h =
    remove_items-keeps (keys_for_bus (refresh_store s key item) vanished) (refresh_store s key item)
      key h
    ∙ lookup-put key key item s.items
    ∙ rw (same_refl key) refl

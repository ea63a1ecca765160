-- ===== src/Tray/Service.antt =====
-- The service argument of a registration and the key that it leads to.
use de.Prelude.{
  ℕ, ◌≡◌, refl, Bool, true, false, not, ◌&&◌, [], ◌∷◌, ◌++◌, Option, some, ◌==◌, arith,
}
use de.Tray.{parse_service, item_key}
use de.Tray.Bytes.{Text, split_slash}

abbrev pub no_slash : Text → Bool
no_slash [] = true
no_slash (c ∷ s) = not (c == 47) && no_slash s

split_slash-append :
    (bus path : Text) → no_slash bus ≡ true → split_slash (bus ++ 47 ∷ path) ≡ some (bus, 47 ∷ path)
split_slash-append [] path h = refl
split_slash-append (c ∷ bus) path h =
    let first : (c == 47) ≡ false = ground arith in
    rw (first, split_slash-append bus path (ground arith)) refl

-- A service that names a bus and an object path is taken apart into them, and its key is itself.
item_key-parse_service :
    (path_of : Text → Option Text) (sender : Text) (c : ℕ) (bus path : Text)
    → no_slash (c ∷ bus) ≡ true
    → path_of (47 ∷ path) ≡ some (47 ∷ path)
    → let service = (c ∷ bus) ++ 47 ∷ path in
      let (bus_name, obj_path) = parse_service path_of sender service in
      (bus_name ≡ c ∷ bus) × (obj_path ≡ 47 ∷ path) × (item_key bus_name obj_path ≡ service)
unfolding parse_service item_key
item_key-parse_service path_of sender c bus path h e =
    let first : (c == 47) ≡ false = ground arith in
    rw (first, split_slash-append bus path (ground arith), e) (refl, refl, refl)

-- ===== src/HashMap.antt =====
-- `std::collections::HashMap<usize, V>` and `HashMap<u32, V>`: an association list with one entry
-- for each key. The order of the entries stands for the unspecified order of an iteration.
use de.Prelude.{
  ℕ, ◌≡◌, refl, sym, ◌∙◌, Bool, true, false, ◌||◌, List, [], ◌∷◌, Option, none, some, ◌==◌,
  if◌then◌else◌, contains, without, Distinct, arith, without-Distinct,
}

module _ {ℓ} {V : Type ℓ} where
  abbrev pub keys : List (ℕ × V) → List ℕ
  keys [] = []
  keys ((j, v) ∷ m) = j ∷ keys m

  abbrev pub get : ℕ → List (ℕ × V) → Option V
  get k [] = none
  get k ((j, v) ∷ m) = if j == k then some v else get k m

  abbrev pub contains_key : ℕ → List (ℕ × V) → Bool
  contains_key k m = contains k (keys m)

  -- A new key goes to the end; the value of a key that is there is replaced.
  abbrev pub insert : ℕ → V → List (ℕ × V) → List (ℕ × V)
  insert k v [] = (k, v) ∷ []
  insert k v ((j, u) ∷ m) = if j == k then (j, v) ∷ m else (j, u) ∷ insert k v m

  abbrev pub remove : ℕ → List (ℕ × V) → List (ℕ × V)
  remove k [] = []
  remove k ((j, v) ∷ m) = if j == k then remove k m else (j, v) ∷ remove k m

  -- A loop over `iter_mut()`.
  abbrev pub map_values : (ℕ → V → V) → List (ℕ × V) → List (ℕ × V)
  map_values f [] = []
  map_values f ((j, v) ∷ m) = (j, f j v) ∷ map_values f m

  -- A change through `get_mut`.
  abbrev pub modify : ℕ → (V → V) → List (ℕ × V) → List (ℕ × V)
  modify k f = map_values (λ j v. if j == k then f v else v)

  abbrev pub on_some : (V → V) → Option V → Option V
  on_some f none = none
  on_some f (some v) = some (f v)

  pub get-insert :
      (j k : ℕ) (v : V) (m : List (ℕ × V))
      → get j (insert k v m) ≡ (if k == j then some v else get j m)
  get-insert j k v [] = refl
  get-insert j k v ((i, u) ∷ m) = ground (arith, get-insert j k v m)

  pub get-remove :
      (j k : ℕ) (m : List (ℕ × V)) → get j (remove k m) ≡ (if k == j then none else get j m)
  get-remove j k [] = ground arith
  get-remove j k ((i, u) ∷ m) = ground (arith, get-remove j k m)

  pub get-map_values :
      (j : ℕ) (f : ℕ → V → V) (m : List (ℕ × V)) → get j (map_values f m) ≡ on_some (f j) (get j m)
  get-map_values j f [] = refl
  get-map_values j f ((i, u) ∷ m) = ground (arith, get-map_values j f m)

  pub keys-map_values : (f : ℕ → V → V) (m : List (ℕ × V)) → keys (map_values f m) ≡ keys m
  keys-map_values f [] = refl
  keys-map_values f ((i, u) ∷ m) = ground (arith, keys-map_values f m)

  pub keys-remove : (k : ℕ) (m : List (ℕ × V)) → keys (remove k m) ≡ without k (keys m)
  keys-remove k [] = refl
  keys-remove k ((i, u) ∷ m) = ground (arith, keys-remove k m)

  pub contains-insert :
      (j k : ℕ) (v : V) (m : List (ℕ × V))
      → contains j (keys (insert k v m)) ≡ (contains j (keys m) || k == j)
  contains-insert j k v [] = ground arith
  contains-insert j k v ((i, u) ∷ m) = ground (arith, contains-insert j k v m)

  pub insert-Distinct :
      (k : ℕ) (v : V) (m : List (ℕ × V)) → Distinct (keys m) → Distinct (keys (insert k v m))
  insert-Distinct k v [] d = (refl, tt)
  insert-Distinct k v ((i, u) ∷ m) d =
      ground (arith, insert-Distinct k v m d.1, contains-insert i k v m)

  pub remove-Distinct :
      (k : ℕ) (m : List (ℕ × V)) → Distinct (keys m) → Distinct (keys (remove k m))
  remove-Distinct k m d = rw (keys-remove k m) (without-Distinct k (keys m) d)

  pub get-eq-none : (k : ℕ) (m : List (ℕ × V)) → contains k (keys m) ≡ false → get k m ≡ none
  get-eq-none k [] h = refl
  get-eq-none k ((i, u) ∷ m) h = ground (arith, get-eq-none k m)

  pub contains_of_get :
      (k : ℕ) (m : List (ℕ × V)) (v : V) → get k m ≡ some v → contains k (keys m) ≡ true
  contains_of_get k [] v h = cc
  contains_of_get k ((i, u) ∷ m) v h = ground (arith, contains_of_get k m v)

  -- The first entry that passes a test, by `iter().find(..)`.
  abbrev pub find_entry : (V → Bool) → List (ℕ × V) → Option (ℕ × V)
  find_entry p [] = none
  find_entry p ((j, v) ∷ m) = if p v then some (j, v) else find_entry p m

  pub find_entry-get :
      (p : V → Bool) (m : List (ℕ × V)) (k : ℕ) (v : V)
      → Distinct (keys m)
      → find_entry p m ≡ some (k, v)
      → (get k m ≡ some v) × (p v ≡ true)
  find_entry-get p [] k v d h = cc
  find_entry-get p ((i, u) ∷ m) k v d h =
      ground (arith, find_entry-get p m k v d.1, contains_of_get k m v)

  pub find_entry-none :
      (p : V → Bool) (m : List (ℕ × V)) (k : ℕ) (v : V)
      → find_entry p m ≡ none
      → get k m ≡ some v
      → p v ≡ false
  find_entry-none p [] k v h g = cc
  find_entry-none p ((i, u) ∷ m) k v h g = ground (arith, find_entry-none p m k v)

  pub get-map_values_inv :
      (k : ℕ) (f : ℕ → V → V) (m : List (ℕ × V)) (v' : V)
      → get k (map_values f m) ≡ some v'
      → (v : V) × (get k m ≡ some v) × (v' ≡ f k v)
  get-map_values_inv k f m v' e = on_some_inv (get k m) (sym (get-map_values k f m) ∙ e)
    where
      on_some_inv :
          (o : Option V) → on_some (f k) o ≡ some v' → (v : V) × (o ≡ some v) × (v' ≡ f k v)
      on_some_inv none e = cc
      on_some_inv (some v) e = (v, refl, cc)

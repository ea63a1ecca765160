-- ===== src/Tray/Bytes.antt =====
-- Texts as lists of bytes: equality, prefixes, the first slash, and maps with texts as keys.
use de.Prelude.{
  ℕ, ◌≡◌, refl, ◌↔◌, Bool, true, false, not, ◌&&◌, ◌||◌, List, [], ◌∷◌, ◌++◌, Option, none, some,
  ◌==◌, if◌then◌else◌, retain, arith, subst,
}

abbrev pub Text : Type 0
Text = List ℕ

abbrev pub same : Text → Text → Bool
same [] [] = true
same [] (d ∷ t) = false
same (c ∷ s) [] = false
same (c ∷ s) (d ∷ t) = c == d && same s t

pub same-eq : (a b : Text) → same a b ≡ true → a ≡ b
same-eq [] [] h = refl
same-eq [] (d ∷ t) h = cc
same-eq (c ∷ s) [] h = cc
same-eq (c ∷ s) (d ∷ t) h = let e : c ≡ d = ground arith in let f = same-eq s t (ground arith) in cc

pub same_refl : (a : Text) → same a a ≡ true
same_refl [] = refl
same_refl (c ∷ s) = ground (arith, same_refl s)

pub same_iff : (a b : Text) → (same a b ≡ true) ↔ (a ≡ b)
same_iff a b = (same-eq a b, λ e. subst (λ t. same a t ≡ true) e (same_refl a))

-- `text.starts_with(prefix)`
abbrev pub starts_with : (prefix : Text) → Text → Bool
starts_with [] t = true
starts_with (c ∷ s) [] = false
starts_with (c ∷ s) (d ∷ t) = c == d && starts_with s t

abbrev pub contains_text : Text → List Text → Bool
contains_text k [] = false
contains_text k (j ∷ js) = same j k || contains_text k js

abbrev pub DistinctTexts : List Text → Type 0
DistinctTexts [] = Unit {0}
DistinctTexts (j ∷ js) = (contains_text j js ≡ false) × DistinctTexts js

abbrev cons_first : ℕ → Option (Text × Text) → Option (Text × Text)
cons_first c none = none
cons_first c (some (s, t)) = some (c ∷ s, t)

-- The parts before and from the first slash, byte 47.
abbrev pub split_slash : Text → Option (Text × Text)
split_slash [] = none
split_slash (c ∷ s) =
    let rest = split_slash s in if c == 47 then some ([], c ∷ s) else cons_first c rest

module _ {V : Type 0} where
  abbrev pub lookup : Text → List (Text × V) → Option V
  lookup k [] = none
  lookup k ((j, v) ∷ m) = if same j k then some v else lookup k m

  abbrev pub put : Text → V → List (Text × V) → List (Text × V)
  put k v [] = (k, v) ∷ []
  put k v ((j, u) ∷ m) = if same j k then (j, v) ∷ m else (j, u) ∷ put k v m

  abbrev pub delete : Text → List (Text × V) → List (Text × V)
  delete k [] = []
  delete k ((j, v) ∷ m) = if same j k then delete k m else (j, v) ∷ delete k m

  pub lookup-put :
      (j k : Text) (v : V) (m : List (Text × V))
      → lookup j (put k v m) ≡ (if same k j then some v else lookup j m)
  lookup-put j k v [] = refl
  lookup-put j k v ((i, u) ∷ m) =
      ground (arith, same_iff k j, same_iff i k, same_iff i j, lookup-put j k v m)

  pub lookup-delete :
      (j k : Text) (m : List (Text × V))
      → lookup j (delete k m) ≡ (if same k j then none else lookup j m)
  lookup-delete j k [] = ground arith
  lookup-delete j k ((i, u) ∷ m) =
      ground (arith, same_iff k j, same_iff i k, same_iff i j, lookup-delete j k m)

abbrev pub without_text : Text → List Text → List Text
without_text key = retain (λ k. not (same k key))

pub contains-without_text :
    (i k : Text) (js : List Text)
    → contains_text i (without_text k js) ≡ (contains_text i js && not (same i k))
contains-without_text i k [] = refl
contains-without_text i k (j ∷ js) =
    ground (arith, same_iff j k, same_iff j i, same_iff i k, contains-without_text i k js)

pub contains-append_text :
    (i k : Text) (js : List Text)
    → contains_text i (js ++ k ∷ []) ≡ (contains_text i js || same k i)
contains-append_text i k [] = ground arith
contains-append_text i k (j ∷ js) = ground (arith, contains-append_text i k js)

pub without_text-DistinctTexts :
    (k : Text) (js : List Text) → DistinctTexts js → DistinctTexts (without_text k js)
without_text-DistinctTexts k [] d = tt
without_text-DistinctTexts k (j ∷ js) d =
    ground (arith, without_text-DistinctTexts k js d.1, contains-without_text j k js)

pub append-DistinctTexts :
    (k : Text) (js : List Text)
    → DistinctTexts js
    → contains_text k js ≡ false
    → DistinctTexts (js ++ k ∷ [])
append-DistinctTexts k [] d h = (refl, tt)
append-DistinctTexts k (j ∷ js) d h =
    ground (
      arith,
      append-DistinctTexts k js d.1,
      contains-append_text j k js,
      same_iff j k,
      same_iff k j,
    )

pub starts_with-append : (p s : Text) → starts_with p (p ++ s) ≡ true
starts_with-append [] s = refl
starts_with-append (c ∷ p) s = ground (arith, starts_with-append p s)

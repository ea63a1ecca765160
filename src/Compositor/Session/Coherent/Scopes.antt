-- ===== src/Compositor/Session/Coherent/Scopes.antt =====
-- Outputs, their scopes and lock surfaces as lists: what registering, removing and committing keep.
use de.Prelude.{
  ℕ, ◌≡◌, refl, Bool, true, false, ◌&&◌, Bool-cases, inl, inr, List, [], ◌∷◌, ◌++◌, Option, none,
  some, ◌==◌, if◌then◌else◌, is_none, is_some_and, contains, without, push, Distinct, arith,
  push-Distinct, contains-without, contains-push,
}
use de.HashMap.{keys, insert, contains_key}
use de.Layer.{ReservedZones, no_zones}
use de.Compositor.{LockSurfaceInfo}
use de.Compositor.Outputs.{first}
use de.Compositor.Lock.{has_surface, import_width}

abbrev pub is_primary : Option ℕ → List ℕ → Bool
is_primary none [] = true
is_primary none (_ ∷ _) = false
is_primary (some o) outputs = contains o outputs

abbrev pub is_empty : List LockSurfaceInfo → Bool
is_empty [] = true
is_empty (_ ∷ _) = false

pub registered-Distinct :
    (o : ℕ) (outputs : List ℕ)
    → Distinct outputs
    → Distinct (if contains o outputs then outputs else push outputs o)
registered-Distinct o outputs d = elim (Bool-cases (contains o outputs)) [
  | inl e ↦ rw e d
  | inr e ↦ rw e (push-Distinct o outputs d e)
]

keys-insert_new :
    (o : ℕ) (z : ReservedZones) (m : List (ℕ × ReservedZones))
    → contains o (keys m) ≡ false
    → keys (insert o z m) ≡ push (keys m) o
keys-insert_new o z [] h = refl
keys-insert_new o z ((j, u) ∷ m) h = ground (arith, keys-insert_new o z m)

pub registered_keys :
    (o : ℕ) (m : List (ℕ × ReservedZones)) (outputs : List ℕ)
    → keys m ≡ outputs
    → keys (if contains_key o m then m else insert o no_zones m)
      ≡ (if contains o outputs then outputs else push outputs o)
registered_keys o m outputs e = elim (Bool-cases (contains o (keys m))) [
  | inl c ↦ rw (← e, c) refl
  | inr c ↦ rw (← e, c) (keys-insert_new o no_zones m c)
]

pub registered_primary :
    (o : ℕ) (p : Option ℕ) (outputs : List ℕ)
    → is_primary p outputs ≡ true
    → is_primary
        (if is_none p then some o else p)
        (if contains o outputs then outputs else push outputs o)
      ≡ true
registered_primary o none [] h = ground arith
registered_primary o none (j ∷ js) h = cc
registered_primary o (some q) outputs h = ground (arith, contains-push q o outputs)

is_primary-first : (outputs : List ℕ) → is_primary (first outputs) outputs ≡ true
is_primary-first [] = refl
is_primary-first (o ∷ os) = ground arith

pub unregistered_primary :
    (o : ℕ) (p : Option ℕ) (outputs : List ℕ)
    → is_primary p outputs ≡ true
    → is_primary
        (if is_some_and p (λ q. q == o) then first (without o outputs) else p)
        (without o outputs)
      ≡ true
unregistered_primary o none [] h = refl
unregistered_primary o none (j ∷ js) h = cc
unregistered_primary o (some q) outputs h =
    ground (arith, is_primary-first (without o outputs), contains-without q o outputs)

pub appended_shown :
    (locks : List LockSurfaceInfo) (l : LockSurfaceInfo) → is_empty (locks ++ l ∷ []) ≡ false
appended_shown [] l = refl
appended_shown (k ∷ ks) l = refl

pub import-is_empty :
    (root width : ℕ) (locks : List LockSurfaceInfo)
    → is_empty (import_width root width locks) ≡ is_empty locks
import-is_empty root width [] = refl
import-is_empty root width (l ∷ ls) = ground arith

pub nonempty :
    (root : ℕ) (locks : List LockSurfaceInfo)
    → has_surface root locks ≡ true
    → is_empty locks ≡ false
nonempty root [] h = cc
nonempty root (l ∷ ls) h = refl

pub keys-insert_old :
    (o : ℕ) (z : ReservedZones) (m : List (ℕ × ReservedZones))
    → contains o (keys m) ≡ true
    → keys (insert o z m) ≡ keys m
keys-insert_old o z [] h = cc
keys-insert_old o z ((j, u) ∷ m) h = ground (arith, keys-insert_old o z m)

abbrev pub all_in : List ℕ → List ℕ → Bool
all_in [] ks = true
all_in (o ∷ os) ks = contains o ks && all_in os ks

all_in_more : (o : ℕ) (os ks : List ℕ) → all_in os ks ≡ true → all_in os (o ∷ ks) ≡ true
all_in_more o [] ks h = refl
all_in_more o (j ∷ js) ks h = ground (arith, all_in_more o js ks)

pub all_in_self : (os : List ℕ) → all_in os os ≡ true
all_in_self [] = refl
all_in_self (o ∷ os) = ground (arith, all_in_more o os os (all_in_self os))

-- ===== src/Prelude/Stack.antt =====
-- A `Vec<usize>` used as a stack, last entry on top: membership, `retain` and `push`.
use Prim.Native.Nat.{ℕ}
use mathlib.Core.Path.{◌≡◌, refl}
use mathlib.Core.List.{List, [], ◌∷◌, ◌++◌}
use mathlib.Core.Option.{Option, none, some}
use mathlib.Core.Bool.{Bool, false, not, ◌&&◌, ◌||◌}
use native.Mathlib.Omega.{arith}
use de.Prelude.Tests.{◌==◌}
use de.Prelude.Lists.{retain}

abbrev pub contains : ℕ → List ℕ → Bool
contains k [] = false
contains k (j ∷ js) = j == k || contains k js

-- No entry stands twice.
abbrev pub Distinct : List ℕ → Type 0
Distinct [] = Unit {0}
Distinct (j ∷ js) = (contains j js ≡ false) × Distinct js

abbrev pub last? : List ℕ → Option ℕ
last? [] = none
last? (j ∷ []) = some j
last? (j ∷ i ∷ js) = last? (i ∷ js)

abbrev pub push : List ℕ → ℕ → List ℕ
push js k = js ++ k ∷ []

-- `retain(|&j| j != k)`
abbrev pub without : ℕ → List ℕ → List ℕ
without k = retain (λ j. not (j == k))

pub contains-without :
    (i k : ℕ) (js : List ℕ) → contains i (without k js) ≡ (contains i js && not (i == k))
contains-without i k [] = refl
contains-without i k (j ∷ js) = ground (arith, contains-without i k js)

pub contains-push : (i k : ℕ) (js : List ℕ) → contains i (push js k) ≡ (contains i js || k == i)
contains-push i k [] = ground arith
contains-push i k (j ∷ js) = ground (arith, contains-push i k js)

pub without-Distinct : (k : ℕ) (js : List ℕ) → Distinct js → Distinct (without k js)
without-Distinct k [] d = tt
without-Distinct k (j ∷ js) d = ground (arith, without-Distinct k js d.1, contains-without j k js)

pub push-Distinct :
    (k : ℕ) (js : List ℕ) → Distinct js → contains k js ≡ false → Distinct (push js k)
push-Distinct k [] d h = (refl, tt)
push-Distinct k (j ∷ js) d h = ground (arith, push-Distinct k js d.1, contains-push j k js)

pub last?-push : (k : ℕ) (js : List ℕ) → last? (push js k) ≡ some k
last?-push k [] = refl
last?-push k (j ∷ []) = refl
last?-push k (j ∷ i ∷ js) = last?-push k (i ∷ js)

pub without-push : (k : ℕ) (js : List ℕ) → contains k js ≡ false → without k (push js k) ≡ js
without-push k [] h = ground arith
without-push k (j ∷ js) h = ground (arith, without-push k js)

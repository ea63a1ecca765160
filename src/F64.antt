-- ===== src/F64.antt =====
-- The machine's floating-point numbers, `f64` and `f32`, which the compositor's geometry is
-- animated with. They are a parameter: a type with the operations that the code calls. A decimal
-- literal is `lit n k`, for n / 10^k. No law is part of the interface; a theorem that needs one of
-- the facts below takes it as a hypothesis.
pub mod Billionths
use de.Prelude.{ℕ, ℤ, Bool, ◌≡◌, ◌<◌, true, ltb_ℤ, max_ℤ}
use de.Prelude.I32.{InRange}

pub record F64 : Type 1 where
  pub Float : Type 0
  pub Single : Type 0
  pub lit : ℕ → ℕ → Float
  pub of_i32 : ℤ → Float
  pub to_i32 : Float → ℤ
  pub fadd : Float → Float → Float
  pub fsub : Float → Float → Float
  pub fmul : Float → Float → Float
  pub fdiv : Float → Float → Float
  pub fmax : Float → Float → Float
  pub fmin : Float → Float → Float
  pub fneg : Float → Float
  pub fabs : Float → Float
  pub sqrt : Float → Float
  pub round : Float → Float
  -- `Duration::as_secs_f64` of a duration in nanoseconds
  pub secs_of_nanos : ℕ → Float
  pub flt : Float → Float → Bool
  pub fle : Float → Float → Bool
  pub to_f32 : Float → Single
  pub lit_f32 : ℕ → ℕ → Single
  pub fle_f32 : Single → Single → Bool

-- An `i32` converts to `f64` exactly, and `as i32` gives it back.
abbrev pub RoundTrips : F64 → Type 0
RoundTrips fl = (z : ℤ) → InRange z → fl.to_i32 (fl.of_i32 z) ≡ z

-- Order and maximum of converted integers are those of the integers.
abbrev pub OrdersAsIntegers : F64 → Type 0
OrdersAsIntegers fl =
    ((a b : ℤ) → InRange a → InRange b → fl.flt (fl.of_i32 a) (fl.of_i32 b) ≡ ltb_ℤ a b)
    × ((a b : ℤ)
        → InRange a
        → InRange b
        → fl.fmax (fl.of_i32 a) (fl.of_i32 b) ≡ fl.of_i32 (max_ℤ a b))

-- ===== src/Spring/Ends.antt =====
-- The `while` loop of `Spring::tick` ends.
use de.Prelude.{ℕ, zero, suc, ◌<◌, ◌≡◌, true, some, Bool-cases, ◌||◌, inl, inr, arith}
use de.F64.{F64}
use de.Spring.{Spring, settle, substep, advance, tick, max_step}

module _ ⦃fl : F64⦄ where
  open fl use {Float, lit, fsub, fmul, fmin, sqrt, flt, fle}

  -- Below `cap`, taking a 1 ms step off what remains makes `measure` smaller. For `f64` this is so
  -- at the cap of 100 ms that `tick_auto` keeps, where a subtraction of 1 ms is never absorbed.
  abbrev pub StepsDown : Float → (Float → ℕ) → Type 0
  StepsDown cap measure =
      (r : Float)
      → flt (lit 0 0) r ≡ true
      → fle r cap ≡ true
      → (measure (fsub r (fmin r max_step)) < measure r)
        × (fle (fsub r (fmin r max_step)) cap ≡ true)

  module _ (cap : Float) (measure : Float → ℕ) (down : StepsDown cap measure) where
    advance_returns :
        (fuel : ℕ) (damping : Float) (s : Spring) (dt : Float)
        → measure dt < fuel
        → fle dt cap ≡ true
        → (s' : Spring) × (advance fuel damping s dt ≡ some s')
    unfolding advance
    advance_returns zero damping s dt h c = absurd (omega arith)
    advance_returns (suc fuel) damping s dt h c = elim (Bool-cases (flt (lit 0 0) dt)) [
      | inl more ↦
          let less = down dt more c in
          rw more (
            advance_returns fuel damping (substep damping s (fmin dt max_step))
              (fsub dt (fmin dt max_step)) (omega (arith, less.0)) less.1)
      | inr over ↦ (s, rw over)
    ]

    -- A frame of at most `cap` seconds ends, where each step of such a frame makes the measure
    -- smaller: fuel above the measure of the frame gives a result.
    pub tick_returns :
        (fuel : ℕ) (s : Spring) (dt : Float)
        → measure dt < fuel
        → fle dt cap ≡ true
        → (s' : Spring) × (tick fuel s dt ≡ some s')
    unfolding tick
    tick_returns fuel s dt h c = elim (Bool-cases (s.done || fle dt (lit 0 0))) [
      | inl idle ↦ (s, rw idle)
      | inr moving ↦
          let (t, e) =
            advance_returns fuel
              (fmul (fmul s.damping_ratio (lit 2 0)) (sqrt (fmul s.stiffness (lit 1 0)))) s dt h
              c in
          (settle t, rw (moving, e))
    ]

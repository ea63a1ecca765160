-- ===== src/Spring/Rest.antt =====
-- A spring that is done stands on its target, and a frame leaves it there.
use de.Prelude.{
  ℕ, zero, suc, ◌≡◌, refl, true, Option, none, some, Bool-cases, subst, ◌||◌, eq_of_some, inl, inr,
  arith,
}
use de.F64.{F64}
use de.Spring.{
  Spring, new, set_instant, set_target, settle, substep, advance, tick, same_target, max_step,
  settle_all,
}

module _ ⦃fl : F64⦄ where
  open fl use {Float, lit, fsub, fabs, flt}

  pub record IsResting (s : Spring) : Type 0 where
    pub on_target : s.done ≡ true → s.pos ≡ s.target
    pub still : s.done ≡ true → s.vel ≡ lit 0 0

  pub new-IsResting : (k d e : Float) → IsResting (new k d e)
  unfolding new
  new-IsResting k d e = ground arith

  pub set_instant-IsResting : (s : Spring) (v : Float) → IsResting (set_instant s v)
  unfolding set_instant
  set_instant-IsResting s v = ground arith

  pub set_target-IsResting : (s : Spring) (t : Float) → IsResting s → IsResting (set_target s t)
  unfolding set_target
  set_target-IsResting s t r = ground arith

  settle-IsResting : (s : Spring) → IsResting s → IsResting (settle s)
  unfolding settle
  settle-IsResting s r = ground arith

  advance-done :
      (fuel : ℕ) (damping : Float) (s : Spring) (dt : Float) (s' : Spring)
      → advance fuel damping s dt ≡ some s'
      → s'.done ≡ s.done
  unfolding advance substep
  advance-done zero damping s dt s' e = ground arith
  advance-done (suc fuel) damping s dt s' e = ground (
    arith,
    advance-done fuel damping (substep damping s (fl.fmin dt max_step))
        (fl.fsub dt (fl.fmin dt max_step)) s',
  )

  settle_all-IsResting :
      (o : Option Spring) (s' : Spring)
      → ((s : Spring) → o ≡ some s → IsResting s)
      → settle_all o ≡ some s'
      → IsResting s'
  settle_all-IsResting none s' h e = cc
  settle_all-IsResting (some s) s' h e =
      subst IsResting (eq_of_some e) (settle-IsResting s (h s refl))

  -- What a frame leaves at rest is on its target with no velocity, if it was so before.
  pub tick-IsResting :
      (fuel : ℕ) (s : Spring) (dt : Float) (s' : Spring)
      → tick fuel s dt ≡ some s'
      → IsResting s
      → IsResting s'
  unfolding tick
  tick-IsResting fuel s dt s' e r = elim (Bool-cases (s.done || fl.fle dt (lit 0 0))) [
    | inl idle ↦ subst IsResting (eq_of_some (rw idle at e)) r
    | inr moving ↦
        settle_all-IsResting _ s' (λ t adv. ground (arith, advance-done fuel _ s dt t adv))
          (rw moving at e)
  ]

  -- Setting the same target again changes nothing, provided that a target is nearer than 1e-9 to
  -- itself, as every finite number is.
  pub set_target_idem :
      (s : Spring) (t : Float)
      → flt (fabs (fsub t t)) same_target ≡ true
      → set_target (set_target s t) t ≡ set_target s t
  unfolding set_target
  set_target_idem s t h = ground arith

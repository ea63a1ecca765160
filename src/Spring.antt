-- ===== src/Spring.antt =====
-- The damped spring of crates/compositor-slint/src/wm/mod.rs (`Spring`), which every animated value
-- of a window follows. `tick` subdivides a frame into 1 ms steps by a `while` loop; the model's loop
-- takes fuel, and `none` says that the fuel ran out.
pub mod Rest
pub mod Ends
use de.Prelude.{
  ℕ, zero, suc, ◌≡◌, Bool, true, false, ◌&&◌, ◌||◌, not, Option, none, some, if◌then◌else◌,
}
use de.F64.{F64}

module _ ⦃fl : F64⦄ where
  open fl use {Float, lit, fadd, fsub, fmul, fmax, fmin, fneg, fabs, sqrt, flt, fle}

  pub record Spring : Type 0 where
    pub stiffness : Float
    pub damping_ratio : Float
    pub min_epsilon : Float
    pub pos : Float
    pub vel : Float
    pub target : Float
    pub start : Float
    pub done : Bool

  abbrev pub spring_settle_fraction : Float
  spring_settle_fraction = lit 4 3

  -- 1e-9
  abbrev pub same_target : Float
  same_target = lit 1 9

  abbrev pub max_step : Float
  max_step = lit 1 3

  unfoldable pub new : Float → Float → Float → Spring
  new stiffness damping_ratio min_epsilon = record {
    stiffness = stiffness;
    damping_ratio = damping_ratio;
    min_epsilon = min_epsilon;
    pos = lit 0 0;
    vel = lit 0 0;
    target = lit 0 0;
    start = lit 0 0;
    done = true;
  }

  unfoldable pub set_instant : Spring → Float → Spring
  set_instant s value = record s {
    pos = value;
    target = value;
    start = value;
    vel = lit 0 0;
    done = true;
  }

  unfoldable pub set_target : Spring → Float → Spring
  set_target s target =
      if flt (fabs (fsub target s.target)) same_target
      then s
      else record s { start = s.pos; target = target; done = false }

  unfoldable pub settle_eps : Spring → Float
  settle_eps s = fmax (fmul (fabs (fsub s.target s.start)) spring_settle_fraction) s.min_epsilon

  -- One step of the integration, over `step` seconds.
  unfoldable pub substep : Float → Spring → Float → Spring
  substep damping s step =
      let spring_force = fmul (fneg s.stiffness) (fsub s.pos s.target) in
      let damp_force = fmul (fneg damping) s.vel in
      let accel = fadd spring_force damp_force in
      let vel = fadd s.vel (fmul accel step) in
      record s { pos = fadd s.pos (fmul vel step); vel = vel }

  -- The `while remaining > 0.0` loop.
  unfoldable pub advance : ℕ → Float → Spring → Float → Option Spring
  advance zero damping s remaining = none
  advance (suc fuel) damping s remaining =
      let step = fmin remaining max_step in
      let rest = advance fuel damping (substep damping s step) (fsub remaining step) in
      if flt (lit 0 0) remaining then rest else some s

  -- The settle test behind the loop.
  unfoldable pub settle : Spring → Spring
  unfolding settle_eps
  settle s =
      let eps = settle_eps s in
      if flt (fabs (fsub s.pos s.target)) eps && flt (fabs s.vel) (fmul eps (lit 64 0))
      then record s { pos = s.target; vel = lit 0 0; done = true }
      else s

  abbrev pub settle_all : Option Spring → Option Spring
  settle_all none = none
  settle_all (some s) = some (settle s)

  unfoldable pub tick : ℕ → Spring → Float → Option Spring
  tick fuel s dt =
      if s.done || fle dt (lit 0 0)
      then some s
      else settle_all (
          advance fuel (fmul (fmul s.damping_ratio (lit 2 0)) (sqrt (fmul s.stiffness (lit 1 0)))) s
            dt)

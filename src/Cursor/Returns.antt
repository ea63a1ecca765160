-- ===== src/Cursor/Returns.antt =====
-- The hit test of the cursor answers.
use de.Prelude.{
  ℕ, zero, suc, ◌≤◌, ◌≡◌, refl, Bool, true, false, not, ◌||◌, ◌&&◌, List, [], ◌∷◌, Option, none,
  some, is_none, Bool-cases, inl, inr, if◌then◌else◌, arith,
}
use de.F64.{F64}
use de.Resize.{HitZone, corner_nw, corner_ne, corner_sw, corner_se}
use de.Cursor.{
  Trigonometry, WindowRect, HitResult, in_outer, lower, lift, corner, corner_angle_offset, zone_in,
  inner_zone, hit_test,
}

abbrev Answers : {A : Type 0} → Option A → Type 0
Answers {A} o = (a : A) × (o ≡ some a)

if_returns :
    {A : Type 0} (b : Bool) (o p : Option A) → Answers o → Answers p → Answers (if b then o else p)
if_returns true o p x y = x
if_returns false o p x y = y

module _ ⦃fl : F64⦄ ⦃tr : Trigonometry⦄ where
  open fl use {Float, lit, fadd, fsub, fmul, fneg, flt, fle}
  open tr use {atan2, pi, fdiv}

  -- An angle of so many degrees, and what is left of a turn by it.
  abbrev pub radians : ℕ → Float
  radians degrees = fdiv (fmul (lit degrees 0) pi) (lit 180 0)

  abbrev pub IsPartOfTurn : ℕ → Type 0
  IsPartOfTurn degrees =
      (fle (fsub pi (radians degrees)) pi ≡ true)
      × (fle (fneg pi) (fadd (fsub (fneg pi) (radians degrees)) (fmul (lit 2 0) pi)) ≡ true)

  -- Laws of `f64`: `atan2` is between -pi and pi, subtraction and addition of a number keep the order,
  -- and the order is transitive; the four angles of the corners are between 0 and a turn. A comparison
  -- with a number that is not a number is false.
  pub record AngleLaws : Type 0 where
    pub at_most : (y x : Float) → flt pi (atan2 y x) ≡ false
    pub at_least : (y x : Float) → flt (atan2 y x) (fneg pi) ≡ false
    pub fsub_keeps : (a b c : Float) → flt a b ≡ false → flt (fsub a c) (fsub b c) ≡ false
    pub fadd_keeps : (a b c : Float) → flt a b ≡ false → flt (fadd a c) (fadd b c) ≡ false
    pub below : (u v d : Float) → fle u v ≡ true → flt u d ≡ false → flt v d ≡ false
    pub above : (u v d : Float) → fle v u ≡ true → flt d u ≡ false → flt d v ≡ false
    pub at_45 : IsPartOfTurn 45
    pub at_135 : IsPartOfTurn 135
    pub at_225 : IsPartOfTurn 225
    pub at_315 : IsPartOfTurn 315

  -- A rectangle of the list, with its margin, has the pointer in it.
  abbrev pub in_any : Float → Float → List WindowRect → Bool
  in_any x y [] = false
  in_any x y (w ∷ ws) = in_outer x y w || in_any x y ws

  module _ (laws : AngleLaws) where
    -- The first loop ends at once, and the second after one round at most.
    lower_ends :
        (fuel degrees : ℕ) (y x : Float)
        → 1 ≤ fuel
        → IsPartOfTurn degrees
        → lower fuel (fsub (atan2 y x) (radians degrees))
          ≡ some (fsub (atan2 y x) (radians degrees))
    unfolding lower
    lower_ends zero degrees y x h t = absurd (omega arith)
    lower_ends (suc fuel) degrees y x h (t, _) =
        let r = radians degrees in
        rw
          (laws.below (fsub pi r) pi (fsub (atan2 y x) r) t
            (laws.fsub_keeps pi (atan2 y x) r (laws.at_most y x)))
          refl

    lift_ends :
        (fuel degrees : ℕ) (y x : Float)
        → 2 ≤ fuel
        → IsPartOfTurn degrees
        → Answers (lift fuel (fsub (atan2 y x) (radians degrees)))
    unfolding lift
    lift_ends zero degrees y x h t = absurd (omega arith)
    lift_ends (suc zero) degrees y x h t = absurd (omega arith)
    lift_ends (suc (suc fuel)) degrees y x h (_, t) =
        let r = radians degrees in
        let turn = fmul (lit 2 0) pi in
        let delta = fsub (atan2 y x) r in
        let end = laws.above (fadd (fsub (fneg pi) r) turn) (fneg pi) (fadd delta turn) t (
          laws.fadd_keeps delta (fsub (fneg pi) r) turn
            (laws.fsub_keeps (atan2 y x) (fneg pi) r (laws.at_least y x))) in
        elim (Bool-cases (flt delta (fneg pi))) [
          | inl far ↦ (fadd delta turn, rw far (rw end refl))
          | inr near ↦ (delta, rw near refl)
        ]

  module _ (laws : AngleLaws) (fuel : ℕ) (enough : 2 ≤ fuel) where
    offset_returns :
        (x y cx cy dx dy : Float) (degrees : ℕ)
        → IsPartOfTurn degrees
        → Answers (corner_angle_offset fuel x y cx cy dx dy (lit degrees 0))
    unfolding corner_angle_offset
    offset_returns x y cx cy dx dy degrees t =
        let ay = fsub y (fadd cy (fmul dy (lit 14 0))) in
        let ax = fsub x (fadd cx (fmul dx (lit 14 0))) in
        let e = lower_ends laws fuel degrees ay ax (omega arith) t in
        let (d', f) = lift_ends laws fuel degrees ay ax enough t in
        (fl.fmin (fl.fmax d' (fl.fneg (fdiv pi (lit 4 0)))) (fdiv pi (lit 4 0)), rw e (rw f refl))

    corner_returns : (c : Float → HitZone) (o : Option Float) → Answers o → Answers (corner c o)
    corner_returns c o (f, e) = (c f, rw e refl)

    zone_in_returns : (x y : Float) (w : WindowRect) → Answers (zone_in fuel x y w)
    unfolding zone_in
    zone_in_returns x y w =
        let east_x = fadd w.x w.w in
        let south_y = fadd w.y w.h in
        let one = lit 1 0 in
        let left = flt x (fadd w.x (lit 14 0)) in
        let right = fle (fsub east_x (lit 14 0)) x in
        let top = flt y (fadd w.y (lit 14 0)) in
        let bottom = fle (fsub south_y (lit 14 0)) y in
        let nw = offset_returns x y w.x w.y one one 225 laws.at_225 in
        let ne = offset_returns x y east_x w.y (fneg one) one 315 laws.at_315 in
        let sw = offset_returns x y w.x south_y one (fneg one) 135 laws.at_135 in
        let se = offset_returns x y east_x south_y (fneg one) (fneg one) 45 laws.at_45 in
        if_returns (top && left) _ _ (corner_returns corner_nw _ nw) (
          if_returns (top && right) _ _ (corner_returns corner_ne _ ne) (
            if_returns (bottom && left) _ _ (corner_returns corner_sw _ sw) (
              if_returns (bottom && right) _ _ (corner_returns corner_se _ se)
                (inner_zone x y w, refl))))

  -- Under the laws of `f64` for angles, and with fuel for two rounds of a loop, the hit test answers,
  -- and its answer is `none` exactly if no rectangle of the list, with its margin, has the pointer in it.
  pub hit_test_returns :
      (laws : AngleLaws) (fuel : ℕ) (x y : Float) (ws : List WindowRect)
      → 2 ≤ fuel
      → (o : Option HitResult) × (hit_test fuel x y ws ≡ some o) × (is_none o ≡ not (in_any x y ws))
  unfolding hit_test
  hit_test_returns laws fuel x y [] enough = (none, refl, refl)
  hit_test_returns laws fuel x y (w ∷ ws) enough = elim (Bool-cases (in_outer x y w)) [
    | inl here ↦
        let (z, e) = zone_in_returns laws fuel enough x y w in
        (some (record { window_id = w.id; zone = z }), rw (here, e) refl, rw here refl)
    | inr beyond ↦
        let (o, e, f) = hit_test_returns laws fuel x y ws enough in
        (o, rw (beyond, e) refl, rw beyond f)
  ]

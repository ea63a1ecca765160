-- ===== src/Layer/Arrange/Zones.antt =====
-- The work area that the layout of an output leaves, and the zones that it reserves.
use de.Prelude.{
  ℕ, suc, ◌+◌, not, ◌≤◌, ◌≡◌, refl, Bool, true, false, Bool-cases, inl, inr, List, [], ◌∷◌, length,
  Option, ◌==◌, ◌&&◌, if◌then◌else◌, ℤ, pos, ◌-ℤ◌, ◌≤ℤ◌, arith, int_laws, eq_of_parts, sym, subst,
}
use de.Layer.{
  Anchor, ExclusiveZone, exclusive, neutral, dont_care, Margins, no_zones, LayerInfo, ReservedZones,
  is_exclusive,
}
use de.Layer.Rect.{Rect, compute_layer_rect, consume, claim_of}
use de.Layer.Arrange.{
  shrink_zone, reserve_for, reserve_zone, reserves, reserve_all, pass, arrange, is_first, is_second,
  compute_reserved_zones_for_output,
}
use de.Layer.Arrange.Axes.{Axis, Axis-same, Related, zone_step, SmallZone, SmallMargins}

-- A surface whose claim is small, and which is on the top or bottom layer if it has one.
pub record IsTame (li : LayerInfo) : Type 0 where
  pub small_zone : SmallZone li.cached.exclusive_zone
  pub small_margins : SmallMargins li.cached.margin
  pub counted : (is_exclusive li.cached.exclusive_zone && not (reserves li.cached.layer)) ≡ false

abbrev pub AllTame : List LayerInfo → Type 0
AllTame [] = Unit {0}
AllTame (li ∷ rest) = IsTame li × AllTame rest

reserve_for_idle :
    (ez : ExclusiveZone) (e : Option Anchor) (m : Margins) (z : ReservedZones)
    → is_exclusive ez ≡ false
    → reserve_for ez e m z ≡ z
reserve_for_idle (exclusive v) e m z h = cc
reserve_for_idle neutral e m z h = refl
reserve_for_idle dont_care e m z h = refl

pub claim_idle :
    (ez : ExclusiveZone) (e : Option Anchor) (m : Margins) (zone : Rect)
    → is_exclusive ez ≡ false
    → shrink_zone zone (claim_of ez e m) ≡ zone
claim_idle (exclusive v) e m zone h = cc
claim_idle neutral e m zone h = refl
claim_idle dont_care e m zone h = refl

same :
    {k : ℕ} {out zone : Rect} {z : ReservedZones}
    → suc k ≤ 1000
    → Related k out zone z
    → Related (suc k) out zone z
same b r = record { across = Axis-same b r.across; down = Axis-same b r.down }

reserve_idle :
    (output : ℕ) (li : LayerInfo) (z : ReservedZones)
    → is_exclusive li.cached.exclusive_zone ≡ false
    → reserve_zone output z li ≡ z
reserve_idle output li z idle =
    elim (Bool-cases (li.output == output && reserves li.cached.layer)) [
      | inl counts ↦ rw counts (reserve_for_idle _ _ _ z idle)
      | inr skipped ↦ rw skipped refl
    ]

turn_step :
    {k : ℕ} {out zone : Rect} {z : ReservedZones} (output : ℕ) (li : LayerInfo)
    → suc k ≤ 1000
    → IsTame li
    → Related k out zone z
    → Related
        (suc k)
        out
        (if is_first output li then shrink_zone zone (consume li) else zone)
        (reserve_zone output z li)
unfolding consume
turn_step {z = z} output li b t r = elim (Bool-cases (li.output == output)) [
  | inr other ↦ rw other (same b r)
  | inl here ↦ elim (Bool-cases (is_exclusive li.cached.exclusive_zone)) [
    | inl claims ↦
        let on : reserves li.cached.layer ≡ true = let c = t.counted in ground arith in
        rw (here, claims, on)
          (zone_step li.cached.exclusive_zone _ li.cached.margin b t.small_zone t.small_margins r)
    | inr idle ↦
        rw idle (subst (Related _ _ _) (sym (reserve_idle output li z idle)) (rw here (same b r)))
  ]
]

first_pass :
    (output : ℕ) (configured : ℕ → Bool) (infos : List LayerInfo) {k : ℕ} {out zone : Rect}
    {z : ReservedZones}
    → k + length infos ≤ 1000
    → AllTame infos
    → Related k out zone z
    → Related
        (k + length infos)
        out
        (pass (is_first output) configured out zone infos).2
        (reserve_all output z infos)
unfolding pass reserve_all compute_layer_rect
first_pass output configured [] {k} {out} {zone} {z} b t r =
    subst (λ n. Related n out zone z) (omega arith) r
first_pass output configured (li ∷ rest) {k} {out} {zone} {z} b t r =
    subst
      (λ n.
        Related n out (pass (is_first output) configured out zone (li ∷ rest)).2
          (reserve_all output z (li ∷ rest)))
      (omega arith)
      (first_pass output configured rest (omega arith) t.1
        (turn_step output li (omega arith) t.0 r))

pub second_pass :
    (output : ℕ) (configured : ℕ → Bool) (out zone : Rect) (infos : List LayerInfo)
    → (pass (is_second output) configured out zone infos).2 ≡ zone
unfolding pass consume compute_layer_rect
second_pass output configured out zone [] = refl
second_pass output configured out zone (li ∷ rest) = elim (Bool-cases (is_second output li)) [
  | inl t ↦
      let idle : is_exclusive li.cached.exclusive_zone ≡ false = ground arith in
      rw (t, claim_idle li.cached.exclusive_zone _ li.cached.margin zone idle)
        (second_pass output configured out zone rest)
  | inr t ↦ rw t (second_pass output configured out zone rest)
]

reserve_all-pass :
    (turn : LayerInfo → Bool) (output : ℕ) (configured : ℕ → Bool) (infos : List LayerInfo)
    (out zone : Rect) (z : ReservedZones)
    → reserve_all output z (pass turn configured out zone infos).0 ≡ reserve_all output z infos
unfolding pass reserve_all
reserve_all-pass turn output configured [] out zone z = refl
reserve_all-pass turn output configured (li ∷ rest) out zone z = elim (Bool-cases (turn li)) [
  | inl t ↦ rw t (reserve_all-pass turn output configured rest out _ _)
  | inr t ↦ rw t (reserve_all-pass turn output configured rest out _ _)
]

-- What the reserved zones leave of an area.
abbrev pub area_left : Rect → ReservedZones → Rect
area_left out z = record {
  left = z.zone_left;
  upper = z.zone_top;
  wide = out.wide -ℤ z.zone_left -ℤ z.zone_right;
  high = out.high -ℤ z.zone_top -ℤ z.zone_bottom;
}

abbrev pub IsScreen : Rect → Type 0
IsScreen out =
    (out.left ≡ pos 0)
    × (out.upper ≡ pos 0)
    × (pos 0 ≤ℤ out.wide)
    × (out.wide ≤ℤ pos 1073741824)
    × (pos 0 ≤ℤ out.high)
    × (out.high ≤ℤ pos 1073741824)

start-Axis :
    (len : ℤ) → pos 0 ≤ℤ len → len ≤ℤ pos 1073741824 → Axis 0 len (pos 0) len (pos 0) (pos 0)
start-Axis len low high = record {
  start_eq = omega int_laws;
  len_eq = omega int_laws;
  near_low = omega arith;
  near_high = omega arith;
  far_low = omega arith;
  far_high = omega arith;
  few = omega arith;
  len_low = low;
  len_high = high;
}

screen_start : {out : Rect} → IsScreen out → Related 0 out out no_zones
screen_start {out} (l, u, w, w', h, h') = record {
  across =
      subst (λ s. Axis 0 out.wide s out.wide (pos 0) (pos 0)) (sym l) (start-Axis out.wide w w');
  down = subst (λ s. Axis 0 out.high s out.high (pos 0) (pos 0)) (sym u) (start-Axis out.high h h');
}

rect_eq :
    {k : ℕ} {out zone : Rect} {z : ReservedZones} → Related k out zone z → zone ≡ area_left out z
rect_eq {k} {out} {zone} {z} r =
    let a : zone.left ≡ z.zone_left = eq_of_parts _ _ r.across.start_eq in
    let b : zone.upper ≡ z.zone_top = eq_of_parts _ _ r.down.start_eq in
    let c : zone.wide ≡ out.wide -ℤ z.zone_left -ℤ z.zone_right = eq_of_parts _ _ r.across.len_eq in
    let d : zone.high ≡ out.high -ℤ z.zone_top -ℤ z.zone_bottom = eq_of_parts _ _ r.down.len_eq in
    cc

-- Each reserved zone is between 0 and 2^30 pixels.
pub record AreSmall (z : ReservedZones) : Type 0 where
  pub top_low : pos 0 ≤ℤ z.zone_top
  pub top_high : z.zone_top ≤ℤ pos 1073741824
  pub bottom_low : pos 0 ≤ℤ z.zone_bottom
  pub bottom_high : z.zone_bottom ≤ℤ pos 1073741824
  pub left_low : pos 0 ≤ℤ z.zone_left
  pub left_high : z.zone_left ≤ℤ pos 1073741824
  pub right_low : pos 0 ≤ℤ z.zone_right
  pub right_high : z.zone_right ≤ℤ pos 1073741824

Related-AreSmall : {k : ℕ} {out zone : Rect} {z : ReservedZones} → Related k out zone z → AreSmall z
Related-AreSmall r = record {
  top_low = r.down.near_low;
  top_high = omega arith;
  bottom_low = r.down.far_low;
  bottom_high = omega arith;
  left_low = r.across.near_low;
  left_high = omega arith;
  right_low = r.across.far_low;
  right_high = omega arith;
}

pub compute_reserved-AreSmall :
    (output : ℕ) (configured : ℕ → Bool) (out : Rect) (infos : List LayerInfo)
    → IsScreen out
    → length infos ≤ 1000
    → AllTame infos
    → AreSmall (compute_reserved_zones_for_output (arrange configured output out infos).0 output)
unfolding arrange compute_reserved_zones_for_output
compute_reserved-AreSmall output configured out infos screen few tame =
    let one = pass (is_first output) configured out out infos in
    let r = first_pass output configured infos (omega arith) tame (screen_start screen) in
    rw
      (
        reserve_all-pass (is_second output) output configured one.0 out one.2 no_zones,
        reserve_all-pass (is_first output) output configured infos out out no_zones,
      )
      (Related-AreSmall r)

-- The layout of up to 1000 tame surfaces leaves the screen less the zones that it reserves.
pub arrange-area_left :
    (output : ℕ) (configured : ℕ → Bool) (out : Rect) (infos : List LayerInfo)
    → IsScreen out
    → length infos ≤ 1000
    → AllTame infos
    → let (infos', sent, zone) = arrange configured output out infos in
      zone ≡ area_left out (compute_reserved_zones_for_output infos' output)
unfolding arrange compute_reserved_zones_for_output
arrange-area_left output configured out infos screen few tame =
    let start : Related 0 out out no_zones = screen_start screen in
    let one = pass (is_first output) configured out out infos in
    let r = first_pass output configured infos (omega arith) tame start in
    rw
      (
        second_pass output configured out one.2 one.0,
        reserve_all-pass (is_second output) output configured one.0 out one.2 no_zones,
        reserve_all-pass (is_first output) output configured infos out out no_zones,
      )
      (rect_eq r)

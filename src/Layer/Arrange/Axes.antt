-- ===== src/Layer/Arrange/Axes.antt =====
-- Each axis of the work area while the layout runs, and what one surface does to it.
use de.Prelude.{
  ℕ, suc, ◌+◌, ◌*◌, pos_part, neg_part, ltb, ◌≤◌, ◌≡◌, true, Option, none, some, ℤ, pos, ◌-ℤ◌, ◌≤ℤ◌,
  arith, int_laws,
}
use de.Prelude.I32
use de.Prelude.I32.{
  bounds-InRange, saturating_sub_lem, saturating_sub, saturating_add, saturating_add_lem,
}
use de.Layer.{
  Anchor, Edge, as_edge, edge_top, edge_bottom, edge_left, edge_right, ExclusiveZone, exclusive,
  neutral, dont_care, Margins, ReservedZones,
}
use de.Layer.Rect.{Rect, margin_at, claim_of}
use de.Layer.Arrange.{shrink_at, shrink_zone, reserve_at, reserve_for}

-- Equality as `omega` reads it.
abbrev pub SameParts : ℤ → ℤ → Type 0
SameParts a b = pos_part a + neg_part b ≡ pos_part b + neg_part a

-- One axis after `k` surfaces: the area starts at what the near edge reserves and ends at what the
-- far edge leaves, and each surface has reserved at most 2^20 pixels.
pub record Axis (k : ℕ) (len start' len' near far : ℤ) : Type 0 where
  pub start_eq : SameParts start' near
  pub len_eq : SameParts len' (len -ℤ near -ℤ far)
  pub near_low : pos 0 ≤ℤ near
  pub near_high : near ≤ℤ pos (k * 1048576)
  pub far_low : pos 0 ≤ℤ far
  pub far_high : far ≤ℤ pos (k * 1048576)
  pub few : k ≤ 1000
  pub len_low : pos 0 ≤ℤ len
  pub len_high : len ≤ℤ pos 1073741824

pub Axis-same :
    {k : ℕ} {len s l n f : ℤ} → suc k ≤ 1000 → Axis k len s l n f → Axis (suc k) len s l n f
Axis-same b a = record {
  start_eq = a.start_eq;
  len_eq = a.len_eq;
  near_low = a.near_low;
  near_high = omega arith;
  far_low = a.far_low;
  far_high = omega arith;
  few = b;
  len_low = a.len_low;
  len_high = a.len_high;
}

Axis-near :
    {k : ℕ} {len s l n f : ℤ} (c : ℤ)
    → suc k ≤ 1000
    → pos 0 ≤ℤ c
    → c ≤ℤ pos 1048576
    → Axis k len s l n f
    → Axis (suc k) len (saturating_add s c) (saturating_sub l c) (I32.add n c) f
Axis-near {k} {len} {s} {l} {n} {f} c b low high a =
    let s1 = saturating_add_lem s c (bounds-InRange _ (omega int_laws) (omega int_laws)) in
    let l1 = saturating_sub_lem l c (bounds-InRange _ (omega int_laws) (omega int_laws)) in
    let n1 = I32.add_lem n c (bounds-InRange _ (omega int_laws) (omega int_laws)) in
    rw (s1, l1, n1)
      (record {
        start_eq = omega int_laws;
        len_eq = omega int_laws;
        near_low = omega int_laws;
        near_high = omega int_laws;
        far_low = a.far_low;
        far_high = omega int_laws;
        few = b;
        len_low = a.len_low;
        len_high = a.len_high;
      })

Axis-far :
    {k : ℕ} {len s l n f : ℤ} (c : ℤ)
    → suc k ≤ 1000
    → pos 0 ≤ℤ c
    → c ≤ℤ pos 1048576
    → Axis k len s l n f
    → Axis (suc k) len s (saturating_sub l c) n (I32.add f c)
Axis-far {k} {len} {s} {l} {n} {f} c b low high a =
    let l1 = saturating_sub_lem l c (bounds-InRange _ (omega int_laws) (omega int_laws)) in
    let f1 = I32.add_lem f c (bounds-InRange _ (omega int_laws) (omega int_laws)) in
    rw (l1, f1)
      (record {
        start_eq = a.start_eq;
        len_eq = omega int_laws;
        near_low = a.near_low;
        near_high = omega int_laws;
        far_low = omega int_laws;
        far_high = omega int_laws;
        few = b;
        len_low = a.len_low;
        len_high = a.len_high;
      })

pub record Related (k : ℕ) (out zone : Rect) (z : ReservedZones) : Type 0 where
  pub across : Axis k out.wide zone.left zone.wide z.zone_left z.zone_right
  pub down : Axis k out.high zone.upper zone.high z.zone_top z.zone_bottom

abbrev pub SmallZone : ExclusiveZone → Type 0
SmallZone (exclusive v) = v ≤ 524288
SmallZone neutral = Unit {0}
SmallZone dont_care = Unit {0}

abbrev pub Small : ℤ → Type 0
Small m = (pos 0 ≤ℤ m) × (m ≤ℤ pos 524288)

-- Margins from 0 to 2^19.
pub record SmallMargins (m : Margins) : Type 0 where
  pub top_small : Small m.margin_top
  pub bottom_small : Small m.margin_bottom
  pub left_small : Small m.margin_left
  pub right_small : Small m.margin_right

-- What a surface takes, at an edge with margin `m`.
claim_small :
    (v : ℕ) (m : ℤ)
    → v ≤ 524288
    → Small m
    → (pos 0 ≤ℤ I32.add (I32.of_u32 v) m) × (I32.add (I32.of_u32 v) m ≤ℤ pos 1048576)
claim_small v m h s =
    let low : ltb v 2147483648 ≡ true = ground arith in
    rw (low, I32.add_lem (pos v) m (bounds-InRange _ (omega int_laws) (omega int_laws)))
      (omega int_laws, omega int_laws)

edge_step :
    {k : ℕ} {out zone : Rect} {z : ReservedZones} (o : Option Edge) (v : ℕ) (m : Margins)
    → suc k ≤ 1000
    → v ≤ 524288
    → SmallMargins m
    → Related k out zone z
    → Related
        (suc k)
        out
        (shrink_at o (I32.add (I32.of_u32 v) (margin_at o m)) zone)
        (reserve_at o (I32.of_u32 v) m z)
edge_step none v m b h s r = record { across = Axis-same b r.across; down = Axis-same b r.down }
edge_step (some edge_top) v m b h s r =
    let c = claim_small v m.margin_top h s.top_small in
    record { across = Axis-same b r.across; down = Axis-near _ b (c.0) (c.1) r.down }
edge_step (some edge_bottom) v m b h s r =
    let c = claim_small v m.margin_bottom h s.bottom_small in
    record { across = Axis-same b r.across; down = Axis-far _ b (c.0) (c.1) r.down }
edge_step (some edge_left) v m b h s r =
    let c = claim_small v m.margin_left h s.left_small in
    record { across = Axis-near _ b (c.0) (c.1) r.across; down = Axis-same b r.down }
edge_step (some edge_right) v m b h s r =
    let c = claim_small v m.margin_right h s.right_small in
    record { across = Axis-far _ b (c.0) (c.1) r.across; down = Axis-same b r.down }

pub zone_step :
    {k : ℕ} {out zone : Rect} {z : ReservedZones} (ez : ExclusiveZone) (e : Option Anchor)
    (m : Margins)
    → suc k ≤ 1000
    → SmallZone ez
    → SmallMargins m
    → Related k out zone z
    → Related (suc k) out (shrink_zone zone (claim_of ez e m)) (reserve_for ez e m z)
zone_step (exclusive v) (some a) m b h s r = edge_step (as_edge a) v m b h s r
zone_step (exclusive v) none m b h s r = record {
  across = Axis-same b r.across;
  down = Axis-same b r.down;
}
zone_step neutral e m b h s r = record { across = Axis-same b r.across; down = Axis-same b r.down }
zone_step dont_care e m b h s r = record {
  across = Axis-same b r.across;
  down = Axis-same b r.down;
}

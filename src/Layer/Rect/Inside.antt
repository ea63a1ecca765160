-- ===== src/Layer/Rect/Inside.antt =====
-- Where `compute_layer_rect` puts a surface: inside the source rectangle.
use de.Prelude.{
  ◌≡◌, Bool, true, false, ◌&&◌, Bool-cases, inl, inr, ℤ, pos, negsuc, quot, max_ℤ, min_ℤ, ◌+ℤ◌,
  ◌-ℤ◌, ◌≤ℤ◌, eqb_ℤ, arith, int_laws, quot_two, max_ℤ-bounds, min_ℤ-bounds, max_ℤ_least, ◌∙◌, ap,
  eq_of_parts,
}
use de.Prelude.I32
use de.Prelude.I32.{bounds-InRange, saturating_sub_lem, saturating_sub}
use de.Layer.{LayerInfo}
use de.Layer.Rect.{Rect, shrink, extent, offset, place_rect, or_half}

-- An axis on which a rectangle can be placed: a length and margins that are not negative, margins
-- that leave room, and coordinates within 2^30 of 0.
pub record FitsAxis (margin_near margin_far start len : ℤ) : Type 0 where
  pub len_low : pos 0 ≤ℤ len
  pub near_low : pos 0 ≤ℤ margin_near
  pub far_low : pos 0 ≤ℤ margin_far
  pub room : margin_near +ℤ margin_far ≤ℤ len
  pub start_low : negsuc 1073741823 ≤ℤ start
  pub end_high : start +ℤ len ≤ℤ pos 1073741823

abbrev pub Within : (start len start' len' : ℤ) → Type 0
Within start len start' len' =
    (start ≤ℤ start') × (pos 0 ≤ℤ len') × (start' +ℤ len' ≤ℤ start +ℤ len)

abbrev kept : Bool → ℤ → ℤ
kept true m = m
kept false m = pos 0

shrink_lem :
    (near far : Bool) (margin_near margin_far start len : ℤ)
    → FitsAxis margin_near margin_far start len
    → shrink near far margin_near margin_far len
      ≡ len -ℤ kept near margin_near -ℤ kept far margin_far
unfolding shrink
shrink_lem true true mn mf start len f =
    ap (λ u. saturating_sub u mf)
      (saturating_sub_lem len mn (bounds-InRange _ (omega int_laws) (omega int_laws)))
    ∙ saturating_sub_lem (len -ℤ mn) mf (bounds-InRange _ (omega int_laws) (omega int_laws))
shrink_lem true false mn mf start len f =
    saturating_sub_lem len mn (bounds-InRange _ (omega int_laws) (omega int_laws))
    ∙ eq_of_parts _ _ (omega int_laws)
shrink_lem false true mn mf start len f =
    saturating_sub_lem len mf (bounds-InRange _ (omega int_laws) (omega int_laws))
    ∙ eq_of_parts _ _ (omega int_laws)
shrink_lem false false mn mf start len f = eq_of_parts _ _ (omega int_laws)

or_half-bounds :
    (s len : ℤ)
    → pos 0 ≤ℤ len
    → pos 0 ≤ℤ s
    → s ≤ℤ len
    → (pos 0 ≤ℤ or_half s len) × (or_half s len ≤ℤ len)
or_half-bounds s len h a b =
    let q = quot_two len h in
    elim (Bool-cases (eqb_ℤ s (pos 0))) [ inl e ↦ rw e (q.0, omega int_laws) | inr e ↦ rw e (a, b) ]

extent-bounds :
    (near far : Bool) (desired len : ℤ)
    → pos 0 ≤ℤ len
    → (pos 0 ≤ℤ extent near far desired len) × (extent near far desired len ≤ℤ len)
unfolding extent
extent-bounds near far desired len h =
    let m = min_ℤ-bounds desired len in
    let low = max_ℤ-bounds (min_ℤ desired len) (pos 0) in
    let high = max_ℤ_least (min_ℤ desired len) (pos 0) len (m.1) h in
    let s = or_half-bounds (max_ℤ (min_ℤ desired len) (pos 0)) len h (low.1) high in
    elim (Bool-cases (near && far)) [
      | inl e ↦ rw e ((max_ℤ-bounds len (pos 0)).1, max_ℤ_least len (pos 0) len (omega arith) h)
      | inr e ↦ rw e ((max_ℤ-bounds _ (pos 0)).1, max_ℤ_least _ (pos 0) len (s.1) h)
    ]

offset-bounds :
    (near far : Bool) (mn mf start len size : ℤ)
    → FitsAxis mn mf start len
    → pos 0 ≤ℤ size
    → size ≤ℤ len -ℤ kept near mn -ℤ kept far mf
    → Within start len (offset near far mn start (len -ℤ kept near mn -ℤ kept far mf) size) size
unfolding offset
offset-bounds true true mn mf start len size f l u =
    rw (I32.add_lem start mn (bounds-InRange _ (omega int_laws) (omega int_laws)))
      (omega int_laws, l, omega int_laws)
offset-bounds true false mn mf start len size f l u =
    rw (I32.add_lem start mn (bounds-InRange _ (omega int_laws) (omega int_laws)))
      (omega int_laws, l, omega int_laws)
offset-bounds false true mn mf start len size f l u =
    let b = len -ℤ pos 0 -ℤ mf in
    rw
      (
        I32.sub_lem b size (bounds-InRange _ (omega int_laws) (omega int_laws)),
        I32.add_lem start (b -ℤ size) (bounds-InRange _ (omega int_laws) (omega int_laws)),
      )
      (omega int_laws, l, omega int_laws)
offset-bounds false false mn mf start len size f l u =
    let b = len -ℤ pos 0 -ℤ pos 0 in
    let p = quot_two b (omega int_laws) in
    let q = quot_two size l in
    rw
      (
        I32.sub_lem (quot b 2) (quot size 2) (bounds-InRange _ (omega int_laws) (omega int_laws)),
        I32.add_lem start (quot b 2 -ℤ quot size 2)
            (bounds-InRange _ (omega int_laws) (omega int_laws)),
      )
      (omega int_laws, l, omega int_laws)

shrunk_low :
    (near far : Bool) (mn mf start len : ℤ)
    → FitsAxis mn mf start len
    → pos 0 ≤ℤ len -ℤ kept near mn -ℤ kept far mf
shrunk_low true true mn mf start len f = omega int_laws
shrunk_low true false mn mf start len f = omega int_laws
shrunk_low false true mn mf start len f = omega int_laws
shrunk_low false false mn mf start len f = omega int_laws

axis_bounds :
    (near far : Bool) (mn mf start len desired : ℤ)
    → FitsAxis mn mf start len
    → let len' = shrink near far mn mf len in
      let size = extent near far desired len' in
      Within start len (offset near far mn start len' size) size
axis_bounds near far mn mf start len desired f =
    let low = shrunk_low near far mn mf start len f in
    let s = extent-bounds near far desired (len -ℤ kept near mn -ℤ kept far mf) low in
    rw (shrink_lem near far mn mf start len f)
      (offset-bounds near far mn mf start len _ f (s.0) (s.1))

-- The surface fits its source on both axes.
pub record Fits (li : LayerInfo) (source : Rect) : Type 0 where
  pub across :
      FitsAxis li.cached.margin.margin_left li.cached.margin.margin_right source.left source.wide
  pub down :
      FitsAxis li.cached.margin.margin_top li.cached.margin.margin_bottom source.upper source.high

abbrev pub Inside : Rect → Rect → Type 0
Inside r source =
    Within source.left source.wide r.left r.wide × Within source.upper source.high r.upper r.high

-- A surface that fits its source lies inside it.
pub place_rect-Inside :
    (li : LayerInfo) (source : Rect) → Fits li source → Inside (place_rect li source) source
unfolding place_rect
place_rect-Inside li source f =
    (axis_bounds _ _ _ _ _ _ _ f.across, axis_bounds _ _ _ _ _ _ _ f.down)

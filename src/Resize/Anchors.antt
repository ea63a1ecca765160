-- ===== src/Resize/Anchors.antt =====
-- What a resize drag keeps: the size limits, and the edges that the drag does not move.
use de.Prelude.{
  ◌≡◌, ap, true, if◌then◌else◌, ℤ, pos, negsuc, pos_part, neg_part, min_ℤ, max_ℤ, min_ℤ_left,
  min_ℤ_right, max_ℤ_left, max_ℤ_right, ltb_ℤ, ◌⊎◌, ◌+ℤ◌, ◌-ℤ◌, ◌≤ℤ◌, int_laws, arith, Bool-cases,
  inl, inr,
}
use de.Prelude.I32
use de.Prelude.I32.{InRange, bounds-InRange}
use de.Resize.{
  ResizeEdge, WindowGeomSnapshot, min_window_size, max_window_size, moves_left, moves_top, stretch,
  clamp_w, clamp_h, cap, resize_by,
}

-- A length after both clamps.
abbrev clamped : ℤ → ℤ
clamped w = min_ℤ (if ltb_ℤ w min_window_size then min_window_size else w) max_window_size

clamped_bounds : (w : ℤ) → (min_window_size ≤ℤ clamped w) × (clamped w ≤ℤ max_window_size)
unfolding min_ℤ
clamped_bounds w = ground arith

resize_by-clamped :
    (edge : ResizeEdge) (start : WindowGeomSnapshot) (dx dy : ℤ)
    → ((resize_by edge start dx dy).w ≡ clamped (stretch edge start dx dy).w)
      × ((resize_by edge start dx dy).h ≡ clamped (stretch edge start dx dy).h)
unfolding resize_by
resize_by-clamped edge start dx dy = clamps edge start (stretch edge start dx dy)
  where
    clamps :
        (edge : ResizeEdge) (start g : WindowGeomSnapshot)
        → ((cap (clamp_h edge start (clamp_w edge start g))).w ≡ clamped g.w)
          × ((cap (clamp_h edge start (clamp_w edge start g))).h ≡ clamped g.h)
    clamps edge start g = ground arith

-- Whatever the drag and the start, the new size is between 120 and 8192 pixels each way.
pub resize_by_bounds :
    (edge : ResizeEdge) (start : WindowGeomSnapshot) (dx dy : ℤ)
    → let r = resize_by edge start dx dy in
      (min_window_size ≤ℤ r.w)
      × (r.w ≤ℤ max_window_size)
      × (min_window_size ≤ℤ r.h)
      × (r.h ≤ℤ max_window_size)
resize_by_bounds edge start dx dy =
    let (ew, eh) = resize_by-clamped edge start dx dy in
    let (lw, uw) = clamped_bounds (stretch edge start dx dy).w in
    let (lh, uh) = clamped_bounds (stretch edge start dx dy).h in rw (ew, eh) (lw, uw, lh, uh)

-- A drag that does not move the left edge leaves it where it was, and so the top edge.
pub resize_by-fixed :
    (edge : ResizeEdge) (start : WindowGeomSnapshot) (dx dy : ℤ)
    → ((moves_left edge ≡ true) ⊎ ((resize_by edge start dx dy).x ≡ start.x))
      × ((moves_top edge ≡ true) ⊎ ((resize_by edge start dx dy).y ≡ start.y))
unfolding resize_by
resize_by-fixed edge start dx dy = ground arith

-- The left end of an axis whose near edge the drag moves.
abbrev dragged : ℤ → ℤ → ℤ → ℤ
dragged x w dx =
    if ltb_ℤ (I32.sub w dx) min_window_size
    then I32.sub (I32.add x w) min_window_size
    else I32.add x dx

left_lem :
    (edge : ResizeEdge) (start : WindowGeomSnapshot) (dx dy : ℤ)
    → moves_left edge ≡ true
    → ((resize_by edge start dx dy).x ≡ dragged start.x start.w dx)
      × ((resize_by edge start dx dy).w ≡ clamped (I32.sub start.w dx))
unfolding resize_by
left_lem edge start dx dy m = ground arith

-- Coordinates and distances far from the limits of `i32`.
abbrev pub IsModerate : ℤ → Type 0
IsModerate z = (negsuc 536870911 ≤ℤ z) × (z ≤ℤ pos 536870911)

-- The same with exact arithmetic: near edge `x`, size `n`, far edge `s`.
near_end :
    (x n s : ℤ)
    → x +ℤ n ≡ s
    → (if ltb_ℤ n min_window_size then s -ℤ min_window_size else x) +ℤ clamped n
      ≡ s -ℤ max_ℤ (n -ℤ max_window_size) (pos 0)
near_end x n s e =
    let ep = ap pos_part e in
    let en = ap neg_part e in
    elim (Bool-cases (ltb_ℤ n min_window_size)) [
      | inl small ↦
          let low : n ≤ℤ pos 119 = ground arith in
          let m₁ = min_ℤ_left min_window_size max_window_size (omega arith) in
          let m₂ = max_ℤ_right (n -ℤ max_window_size) (pos 0) (omega int_laws) in
          rw (small, m₁, m₂) (omega int_laws)
      | inr big ↦ elim (Bool-cases (ltb_ℤ max_window_size n)) [
        | inl huge ↦
            let high : max_window_size ≤ℤ n = ground arith in
            let m₁ = min_ℤ_right n max_window_size high in
            let m₂ = max_ℤ_left (n -ℤ max_window_size) (pos 0) (omega int_laws) in
            rw (big, m₁, m₂) (omega int_laws)
        | inr fits ↦
            let low : n ≤ℤ max_window_size = ground arith in
            let m₁ = min_ℤ_left n max_window_size low in
            let m₂ = max_ℤ_right (n -ℤ max_window_size) (pos 0) (omega int_laws) in
            rw (big, m₁, m₂) (omega int_laws)
      ]
    ]

axis_end :
    (x w dx : ℤ)
    → IsModerate x
    → IsModerate w
    → IsModerate dx
    → dragged x w dx +ℤ clamped (I32.sub w dx)
      ≡ x +ℤ w -ℤ max_ℤ (w -ℤ dx -ℤ max_window_size) (pos 0)
axis_end x w dx hx hw hd =
    let e₁ = I32.sub_lem w dx (bounds-InRange _ (omega int_laws) (omega int_laws)) in
    let e₂ = I32.add_lem x dx (bounds-InRange _ (omega int_laws) (omega int_laws)) in
    let e₃ = I32.add_lem x w (bounds-InRange _ (omega int_laws) (omega int_laws)) in
    let e₄ =
      I32.sub_lem (x +ℤ w) min_window_size (bounds-InRange _ (omega int_laws) (omega int_laws)) in
    rw (e₁, e₂, e₃, e₄) (near_end (x +ℤ dx) (w -ℤ dx) (x +ℤ w) (omega int_laws))

-- With the left edge, the width and the distance within 2^29 of 0, a drag that moves the left edge
-- keeps the right one, except that a size over 8192 pixels is cut at the right: the left edge still
-- follows the pointer, and the right edge moves left by what the size exceeds 8192 pixels.
pub resize_by-right_edge :
    (edge : ResizeEdge) (start : WindowGeomSnapshot) (dx dy : ℤ)
    → moves_left edge ≡ true
    → IsModerate start.x
    → IsModerate start.w
    → IsModerate dx
    → let r = resize_by edge start dx dy in
      r.x +ℤ r.w ≡ start.x +ℤ start.w -ℤ max_ℤ (start.w -ℤ dx -ℤ max_window_size) (pos 0)
resize_by-right_edge edge start dx dy m hx hw hd =
    let (ex, ew) = left_lem edge start dx dy m in rw (ex, ew) (axis_end start.x start.w dx hx hw hd)

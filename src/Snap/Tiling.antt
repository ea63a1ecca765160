-- ===== src/Snap/Tiling.antt =====
-- The snap rectangles tile the work area.
use de.Prelude.{
  ◌≡◌, true, false, Option, none, some, ℤ, pos, negsuc, max_ℤ_left, quot, quot_two, ◌+ℤ◌, ◌-ℤ◌,
  ◌≤ℤ◌, arith, int_laws,
}
use de.Prelude.I32
use de.Prelude.I32.{InRange, bounds-InRange}
use de.F64.{F64}
use de.Window.{WorkArea}
use de.Snap.{
  SnapZone, maximize, left_half, right_half, top_left_quarter, top_right_quarter,
  bottom_left_quarter, bottom_right_quarter, SnapRect, Edges, edges, place, usable, detect,
}

-- The area is at least 100 pixels each way, and its corners are coordinates.
pub record IsUsable (a : WorkArea) : Type 0 where
  pub wide : pos 100 ≤ℤ a.w
  pub high : pos 100 ≤ℤ a.h
  pub x_range : negsuc 2147483647 ≤ℤ a.x
  pub y_range : negsuc 2147483647 ≤ℤ a.y
  pub right_range : a.x +ℤ a.w ≤ℤ pos 2147483647
  pub bottom_range : a.y +ℤ a.h ≤ℤ pos 2147483647
  pub w_range : a.w ≤ℤ pos 2147483647
  pub h_range : a.h ≤ℤ pos 2147483647

-- Half of a length from a start, without wrapping.
pub half_lem :
    (x w : ℤ)
    → pos 100 ≤ℤ w
    → w ≤ℤ pos 2147483647
    → negsuc 2147483647 ≤ℤ x
    → x +ℤ w ≤ℤ pos 2147483647
    → (I32.sub w (quot w 2) ≡ w -ℤ quot w 2) × (I32.add x (quot w 2) ≡ x +ℤ quot w 2)
half_lem x w big small low high =
    let q = quot_two w (omega arith) in
    (
      I32.sub_lem w (quot w 2) (bounds-InRange _ (omega (int_laws, q)) (omega (int_laws, q))),
      I32.add_lem x (quot w 2) (bounds-InRange _ (omega (int_laws, q)) (omega (int_laws, q))),
    )

-- An axis of a rectangle: the first part, the second part, or the whole.
pub data Part : Type 0 where
  first second whole : Part

abbrev pub columns : SnapZone → Part
columns maximize = whole
columns left_half = first
columns right_half = second
columns top_left_quarter = first
columns top_right_quarter = second
columns bottom_left_quarter = first
columns bottom_right_quarter = second

abbrev pub rows : SnapZone → Part
rows maximize = whole
rows left_half = whole
rows right_half = whole
rows top_left_quarter = first
rows top_right_quarter = first
rows bottom_left_quarter = second
rows bottom_right_quarter = second

-- The interval [start, start + size] is the part of [from, from + length], split at its half.
abbrev pub Spans : Part → ℤ → ℤ → ℤ → ℤ → Type 0
Spans first from length start size = (start ≡ from) × (size ≡ quot length 2)
Spans second from length start size =
    (start ≡ from +ℤ quot length 2) × (start +ℤ size ≡ from +ℤ length)
Spans whole from length start size = (start ≡ from) × (size ≡ length)

second_ends : (x w : ℤ) → x +ℤ quot w 2 +ℤ (w -ℤ quot w 2) ≡ x +ℤ w
second_ends x w = omega int_laws

-- The rectangle's columns and rows are those of the zone.
abbrev pub Tiles : WorkArea → Option (SnapZone × SnapRect) → Type 0
Tiles a none = Unit
Tiles a (some (z, r)) = Spans (columns z) a.x a.w r.x r.w × Spans (rows z) a.y a.h r.y r.h

place-Tiles : (a : WorkArea) (e : Edges) → IsUsable a → Tiles a (place a e)
unfolding place
place-Tiles a e u =
    let (rw', mx) = half_lem a.x a.w u.wide u.w_range u.x_range u.right_range in
    let (bh, my) = half_lem a.y a.h u.high u.h_range u.y_range u.bottom_range in
    ground (arith, rw', mx, bh, my, second_ends a.x a.w, second_ends a.y a.h)

usable_lem : (a : WorkArea) → IsUsable a → usable a ≡ a
unfolding usable
usable_lem a u = ground (arith, max_ℤ_left a.w (pos 100) u.wide, max_ℤ_left a.h (pos 100) u.high)

module _ ⦃fl : F64⦄ where
  -- Over a work area of at least 100 by 100 pixels whose corners are `i32` coordinates, the preview
  -- rectangle is exactly the zone's share: a half takes one of the two columns that the midline
  -- cuts, a quarter one column and one row, maximize everything, and the second share ends where
  -- the work area does.
  pub detect-Tiles :
      (cursor_x cursor_y : fl.Float) (a : WorkArea)
      → IsUsable a
      → Tiles a (detect cursor_x cursor_y a)
  unfolding detect
  detect-Tiles cursor_x cursor_y a u =
      rw (usable_lem a u) (place-Tiles a (edges cursor_x cursor_y a) u)

abbrev pub TouchesColumn : Edges → Part → Type 0
TouchesColumn e first = e.left ≡ true
TouchesColumn e second = e.right ≡ true
TouchesColumn e whole = e.top ≡ true

abbrev pub TouchesRow : Edges → Part → Part → Type 0
TouchesRow e first _ = e.top ≡ true
TouchesRow e second _ = e.bottom ≡ true
TouchesRow e whole whole = e.top ≡ true
TouchesRow e whole _ = (e.top ≡ false) × (e.bottom ≡ false)

-- Which bands a zone needs: a first column or row lies at the left or top, a second one at the right
-- or bottom, maximize at the top; a half stands in no other band, and no zone at all in none of the
-- top, left and right bands.
abbrev pub Touches : Edges → Option (SnapZone × SnapRect) → Type 0
Touches e none = (e.top ≡ false) × (e.left ≡ false) × (e.right ≡ false)
Touches e (some (z, r)) = TouchesColumn e (columns z) × TouchesRow e (rows z) (columns z)

module _ ⦃fl : F64⦄ where
  -- The zone fits the bands that the cursor is in. The bottom band alone gives no zone.
  pub detect-Touches :
      (cursor_x cursor_y : fl.Float) (a : WorkArea)
      → Touches (edges cursor_x cursor_y a) (detect cursor_x cursor_y a)
  unfolding detect place
  detect-Touches cursor_x cursor_y a = touches (usable a) (edges cursor_x cursor_y a)
    where
      touches : (u : WorkArea) (e : Edges) → Touches e (place u e)
      touches u e = ground arith

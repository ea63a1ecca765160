-- ===== src/Snap.antt =====
-- crates/compositor-slint/src/snap.rs: the snap zone and the preview rectangle for a cursor that
-- drags a window near an edge of the work area.
pub mod Tiling
use de.Prelude.{
  Bool, true, false, ◌&&◌, ◌||◌, Option, none, some, if◌then◌else◌, ℤ, pos, max_ℤ, quot,
}
use de.Prelude.I32
use de.F64.{F64}
use de.Window.{WorkArea, right, bottom}

pub data SnapZone : Type 0 where
  maximize left_half right_half : SnapZone
  top_left_quarter top_right_quarter bottom_left_quarter bottom_right_quarter : SnapZone

pub record SnapRect : Type 0 where
  pub x : ℤ
  pub y : ℤ
  pub w : ℤ
  pub h : ℤ

-- The edges whose band the cursor is in.
pub record Edges : Type 0 where
  pub top : Bool
  pub left : Bool
  pub right : Bool
  pub bottom : Bool

-- The chain of tests, and the rectangle of each zone, in a usable area.
unfoldable pub place : WorkArea → Edges → Option (SnapZone × SnapRect)
place u e =
    let left_w = quot u.w 2 in
    let right_w = I32.sub u.w left_w in
    let top_h = quot u.h 2 in
    let bottom_h = I32.sub u.h top_h in
    let mid_x = I32.add u.x left_w in
    let mid_y = I32.add u.y top_h in
    if e.top && e.left
    then some (top_left_quarter, record { x = u.x; y = u.y; w = left_w; h = top_h })
    else if e.top && e.right
    then some (top_right_quarter, record { x = mid_x; y = u.y; w = right_w; h = top_h })
    else if e.bottom && e.left
    then some (bottom_left_quarter, record { x = u.x; y = mid_y; w = left_w; h = bottom_h })
    else if e.bottom && e.right
    then some (bottom_right_quarter, record { x = mid_x; y = mid_y; w = right_w; h = bottom_h })
    else if e.top
    then some (maximize, record { x = u.x; y = u.y; w = u.w; h = u.h })
    else if e.left
    then some (left_half, record { x = u.x; y = u.y; w = left_w; h = u.h })
    else if e.right
    then some (right_half, record { x = mid_x; y = u.y; w = right_w; h = u.h })
    else none

-- The work area, 100 pixels wide and high at least.
unfoldable pub usable : WorkArea → WorkArea
usable a = record a { w = max_ℤ a.w (pos 100); h = max_ℤ a.h (pos 100) }

module _ ⦃fl : F64⦄ where
  open fl use {Float, lit, of_i32, fadd, fsub, fle}

  abbrev snap_band_px : Float
  snap_band_px = lit 12 0

  unfoldable pub edges : Float → Float → WorkArea → Edges
  edges cursor_x cursor_y a = record {
    top = fle cursor_y (fadd (of_i32 a.y) snap_band_px);
    left = fle cursor_x (fadd (of_i32 a.x) snap_band_px);
    right = fle (fsub (of_i32 (right a)) snap_band_px) cursor_x;
    bottom = fle (fsub (of_i32 (bottom a)) snap_band_px) cursor_y;
  }

  unfoldable pub detect : Float → Float → WorkArea → Option (SnapZone × SnapRect)
  detect cursor_x cursor_y work_area = place (usable work_area) (edges cursor_x cursor_y work_area)

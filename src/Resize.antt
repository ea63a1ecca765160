-- ===== src/Resize.antt =====
-- crates/compositor-slint/src/resize.rs: the geometry of a window during an edge, corner or
-- title-bar drag. The zones of a hit test are those of crates/compositor-slint/src/cursor.rs.
pub mod Anchors
use de.Prelude.{ℕ, Bool, true, false, Option, none, some, if◌then◌else◌, ℤ, pos, min_ℤ, ltb_ℤ}
use de.Prelude.I32
use de.F64.{F64}

pub data ResizeEdge : Type 0 where
  north south east west north_west north_east south_west south_east : ResizeEdge

pub record WindowGeomSnapshot : Type 0 where
  pub x : ℤ
  pub y : ℤ
  pub w : ℤ
  pub h : ℤ

abbrev pub min_window_size : ℤ
min_window_size = pos 120

abbrev pub max_window_size : ℤ
max_window_size = pos 8192

-- Whether the drag moves the left edge.
abbrev pub moves_left : ResizeEdge → Bool
moves_left west = true
moves_left north_west = true
moves_left south_west = true
moves_left _ = false

-- Whether the drag moves the top edge.
abbrev pub moves_top : ResizeEdge → Bool
moves_top north = true
moves_top north_west = true
moves_top north_east = true
moves_top _ = false

-- The `match edge`, before the clamps.
unfoldable pub stretch : ResizeEdge → WindowGeomSnapshot → ℤ → ℤ → WindowGeomSnapshot
stretch east g dx dy = record g { w = I32.add g.w dx }
stretch west g dx dy = record g { x = I32.add g.x dx; w = I32.sub g.w dx }
stretch south g dx dy = record g { h = I32.add g.h dy }
stretch north g dx dy = record g { y = I32.add g.y dy; h = I32.sub g.h dy }
stretch south_east g dx dy = record g { w = I32.add g.w dx; h = I32.add g.h dy }
stretch south_west g dx dy = record g { x = I32.add g.x dx; w = I32.sub g.w dx; h = I32.add g.h dy }
stretch north_east g dx dy = record g { y = I32.add g.y dy; w = I32.add g.w dx; h = I32.sub g.h dy }
stretch north_west g dx dy = record g {
  x = I32.add g.x dx;
  y = I32.add g.y dy;
  w = I32.sub g.w dx;
  h = I32.sub g.h dy;
}

-- The lower clamps; a moving edge stops where the size is least.
unfoldable pub clamp_w : ResizeEdge → WindowGeomSnapshot → WindowGeomSnapshot → WindowGeomSnapshot
clamp_w edge start g =
    if ltb_ℤ g.w min_window_size
    then record g {
      x = if moves_left edge then I32.sub (I32.add start.x start.w) min_window_size else g.x;
      w = min_window_size;
    }
    else g

unfoldable pub clamp_h : ResizeEdge → WindowGeomSnapshot → WindowGeomSnapshot → WindowGeomSnapshot
clamp_h edge start g =
    if ltb_ℤ g.h min_window_size
    then record g {
      y = if moves_top edge then I32.sub (I32.add start.y start.h) min_window_size else g.y;
      h = min_window_size;
    }
    else g

-- The upper clamps.
unfoldable pub cap : WindowGeomSnapshot → WindowGeomSnapshot
cap g = record g { w = min_ℤ g.w max_window_size; h = min_ℤ g.h max_window_size }

-- The body of `compute_resize` for whole pixel distances.
unfoldable pub resize_by : ResizeEdge → WindowGeomSnapshot → ℤ → ℤ → WindowGeomSnapshot
unfolding stretch clamp_w clamp_h cap
resize_by edge start dx dy =
    cap (clamp_h edge start (clamp_w edge start (stretch edge start dx dy)))

module _ ⦃fl : F64⦄ where
  open fl use {Float, lit, fsub, to_i32}

  pub data HitZone : Type 0 where
    none_zone title_bar close_button minimize_button maximize_button content : HitZone
    edge_north edge_south edge_east edge_west : HitZone
    corner_nw corner_ne corner_sw corner_se : Float → HitZone

  unfoldable pub from_zone : HitZone → Option ResizeEdge
  from_zone edge_north = some north
  from_zone edge_south = some south
  from_zone edge_east = some east
  from_zone edge_west = some west
  from_zone (corner_nw _) = some north_west
  from_zone (corner_ne _) = some north_east
  from_zone (corner_sw _) = some south_west
  from_zone (corner_se _) = some south_east
  from_zone _ = none

  -- `last_configure_at` is an instant in nanoseconds.
  pub data ActiveDrag : Type 0 where
    resize :
        (toplevel_idx : ℕ)
        → ResizeEdge
        → (start_ptr_x start_ptr_y : Float) → WindowGeomSnapshot
        → (last_configure_at : Option ℕ) → (dock_snap_engaged_at : Option Float) → ActiveDrag
    move :
        (toplevel_idx : ℕ)
        → (offset_x offset_y : Float) → (pending_unmaximize : Option (Float × Float)) → ActiveDrag

  unfoldable pub compute_resize : ActiveDrag → Float → Float → Option WindowGeomSnapshot
  compute_resize (resize idx edge start_x start_y start last snap) ptr_x ptr_y =
      some (resize_by edge start (to_i32 (fsub ptr_x start_x)) (to_i32 (fsub ptr_y start_y)))
  compute_resize (move idx offset_x offset_y pending) ptr_x ptr_y = none

  unfoldable pub compute_move : ActiveDrag → Float → Float → Option (ℤ × ℤ)
  compute_move (move idx offset_x offset_y pending) ptr_x ptr_y =
      some (to_i32 (fsub ptr_x offset_x), to_i32 (fsub ptr_y offset_y))
  compute_move (resize idx edge start_x start_y start last snap) ptr_x ptr_y = none

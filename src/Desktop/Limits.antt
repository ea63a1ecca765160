-- ===== src/Desktop/Limits.antt =====
-- The limits of an interactive resize in `handle_pointer_update` of
-- crates/compositor-slint/src/renderer.rs: the work area and the client's size hints.
use de.Prelude.{Bool, true, false, ◌&&◌, if◌then◌else◌, ℤ, pos, ltb_ℤ, max_ℤ, min_ℤ}
use de.Prelude.I32
use de.Window.{WorkArea, right}
use de.Resize.{
  ResizeEdge, south, east, north_east, south_west, south_east, WindowGeomSnapshot, min_window_size,
  moves_left, moves_top,
}

-- Whether the drag moves the right edge.
abbrev pub moves_right : ResizeEdge → Bool
moves_right east = true
moves_right north_east = true
moves_right south_east = true
moves_right _ = false

-- Whether the drag moves the bottom edge.
abbrev pub moves_bottom : ResizeEdge → Bool
moves_bottom south = true
moves_bottom south_east = true
moves_bottom south_west = true
moves_bottom _ = false

unfoldable pub keep_top :
    WorkArea → ResizeEdge → WindowGeomSnapshot → WindowGeomSnapshot → WindowGeomSnapshot
keep_top area edge start g =
    if moves_top edge && ltb_ℤ g.y area.y
    then record g {
      y = area.y;
      h = max_ℤ (I32.sub (I32.add start.y start.h) area.y) min_window_size;
    }
    else g

unfoldable pub keep_left :
    WorkArea → ResizeEdge → WindowGeomSnapshot → WindowGeomSnapshot → WindowGeomSnapshot
keep_left area edge start g =
    if moves_left edge && ltb_ℤ g.x area.x
    then record g {
      x = area.x;
      w = max_ℤ (I32.sub (I32.add start.x start.w) area.x) min_window_size;
    }
    else g

unfoldable pub keep_right : WorkArea → ResizeEdge → WindowGeomSnapshot → WindowGeomSnapshot
keep_right area edge g =
    if moves_right edge && ltb_ℤ (right area) (I32.add g.x g.w)
    then record g { w = max_ℤ (I32.sub (right area) g.x) min_window_size }
    else g

-- The constraints by the work area; `start` is the geometry when the drag began.
unfoldable pub constrain :
    WorkArea → ResizeEdge → (start : WindowGeomSnapshot) → WindowGeomSnapshot → WindowGeomSnapshot
unfolding keep_top keep_left keep_right
constrain area edge start g =
    keep_right area edge (keep_left area edge start (keep_top area edge start g))

-- The size hints of the client in one dimension, a hint of 0 being none, and the compositor's own
-- least size.
abbrev pub client_limit : (client_min client_max : ℤ) → ℤ → ℤ
client_limit client_min client_max v =
    let low = if ltb_ℤ (pos 0) client_min then max_ℤ v client_min else v in
    max_ℤ (if ltb_ℤ (pos 0) client_max then min_ℤ low client_max else low) min_window_size

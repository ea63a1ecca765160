-- ===== src/Cursor.antt =====
-- crates/compositor-slint/src/cursor.rs: the zone of a window that the pointer is in, and the
-- cursor that it shows. The two loops that normalise an angle run on fuel, and `none` is a loop
-- that ran out of it.
pub mod First
pub mod Returns
use de.Prelude.{
  ℕ, zero, suc, Bool, true, false, not, ◌&&◌, List, [], ◌∷◌, Option, none, some, ◌>>=◌,
  if◌then◌else◌, ℤ,
}
use de.F64.{F64}
use de.Resize.{
  HitZone, none_zone, title_bar, close_button, minimize_button, maximize_button, content,
  edge_north, edge_south, edge_east, edge_west, corner_nw, corner_ne, corner_sw, corner_se,
}

-- What the code calls beside the arithmetic: `f64::atan2`, the constant pi, and division.
pub record Trigonometry ⦃fl : F64⦄ : Type 0 where
  pub atan2 : fl.Float → fl.Float → fl.Float
  pub pi : fl.Float
  pub fdiv : fl.Float → fl.Float → fl.Float

module _ ⦃fl : F64⦄ ⦃tr : Trigonometry⦄ where
  open fl use {Float, lit, fadd, fsub, fmul, fmin, fmax, fneg, flt, fle}
  open tr use {atan2, pi, fdiv}

  pub data CursorKind : Type 0 where
    arrow move_cursor hand resize_n resize_s resize_e resize_w : CursorKind
    resize_nwse resize_nesw : (angle_offset : Float) → CursorKind

  pub record WindowRect : Type 0 where
    pub id : ℤ
    pub x : Float
    pub y : Float
    pub w : Float
    pub h : Float
    pub csd : Bool

  pub record HitResult : Type 0 where
    pub window_id : ℤ
    pub zone : HitZone

  -- `TITLEBAR_HEIGHT` of this file.
  abbrev band_height : Float
  band_height = lit 33 0

  abbrev edge_zone : Float
  edge_zone = lit 6 0

  abbrev corner_zone : Float
  corner_zone = lit 14 0

  abbrev corner_radius : Float
  corner_radius = lit 14 0

  abbrev control_size : Float
  control_size = lit 21 0

  abbrev control_gap : Float
  control_gap = lit 4 0

  abbrev control_inset : Float
  control_inset = lit 6 0

  abbrev controls_block_width : Float
  controls_block_width = fadd (fmul control_size (lit 3 0)) (fmul control_gap (lit 2 0))

  -- `while delta > PI`
  unfoldable pub lower : ℕ → Float → Option Float
  lower zero delta = none
  lower (suc fuel) delta =
      let rest = lower fuel (fsub delta (fmul (lit 2 0) pi)) in
      if flt pi delta then rest else some delta

  -- `while delta < -PI`
  unfoldable pub lift : ℕ → Float → Option Float
  lift zero delta = none
  lift (suc fuel) delta =
      let rest = lift fuel (fadd delta (fmul (lit 2 0) pi)) in
      if flt delta (fneg pi) then rest else some delta

  unfoldable pub corner_angle_offset :
      ℕ → (ptr_x ptr_y cx cy dx dy natural_deg : Float) → Option Float
  unfolding lower lift
  corner_angle_offset fuel ptr_x ptr_y cx cy dx dy natural_deg =
      let coc_x = fadd cx (fmul dx corner_radius) in
      let coc_y = fadd cy (fmul dy corner_radius) in
      let angle = atan2 (fsub ptr_y coc_y) (fsub ptr_x coc_x) in
      let natural_rad = fdiv (fmul natural_deg pi) (lit 180 0) in
      let max = fdiv pi (lit 4 0) in
      do
        delta ← lower fuel (fsub angle natural_rad)
        delta' ← lift fuel delta
        some (fmin (fmax delta' (fneg max)) max)

  -- The rectangle, with the margin for resize grabs.
  unfoldable pub in_outer : Float → Float → WindowRect → Bool
  in_outer ptr_x ptr_y win =
      fle (fsub win.x edge_zone) ptr_x
      && (flt ptr_x (fadd (fadd win.x win.w) edge_zone)
          && (fle (fsub win.y edge_zone) ptr_y && flt ptr_y (fadd (fadd win.y win.h) edge_zone)))

  -- The title bar and its three buttons.
  unfoldable pub title_zone : Float → Float → WindowRect → HitZone
  title_zone ptr_x ptr_y win =
      let controls_x = fsub (fsub (fadd win.x win.w) controls_block_width) control_inset in
      let controls_y = fadd win.y control_inset in
      let max_x = fadd (fadd controls_x control_size) control_gap in
      let close_x = fadd controls_x (fmul (fadd control_size control_gap) (lit 2 0)) in
      if fle controls_y ptr_y && flt ptr_y (fadd controls_y control_size)
      then (if fle controls_x ptr_x && flt ptr_x (fadd controls_x control_size)
          then minimize_button
          else if fle max_x ptr_x && flt ptr_x (fadd max_x control_size)
          then maximize_button
          else if fle close_x ptr_x && flt ptr_x (fadd close_x control_size)
          then close_button
          else title_bar)
      else title_bar

  -- Behind the corners: the edges, then the title bar of a window without its own, then content.
  unfoldable pub inner_zone : Float → Float → WindowRect → HitZone
  unfolding title_zone
  inner_zone ptr_x ptr_y win =
      if flt ptr_y (fadd win.y edge_zone)
      then edge_north
      else if fle (fsub (fadd win.y win.h) edge_zone) ptr_y
      then edge_south
      else if flt ptr_x (fadd win.x edge_zone)
      then edge_west
      else if fle (fsub (fadd win.x win.w) edge_zone) ptr_x
      then edge_east
      else if not win.csd && (fle win.y ptr_y && flt ptr_y (fadd win.y band_height))
      then title_zone ptr_x ptr_y win
      else content

  abbrev pub corner : (Float → HitZone) → Option Float → Option HitZone
  corner c none = none
  corner c (some offset) = some (c offset)

  unfoldable pub zone_in : ℕ → Float → Float → WindowRect → Option HitZone
  unfolding corner_angle_offset inner_zone
  zone_in fuel ptr_x ptr_y win =
      let east_x = fadd win.x win.w in
      let south_y = fadd win.y win.h in
      let one = lit 1 0 in
      let near_left = flt ptr_x (fadd win.x corner_zone) in
      let near_right = fle (fsub east_x corner_zone) ptr_x in
      let near_top = flt ptr_y (fadd win.y corner_zone) in
      let near_bottom = fle (fsub south_y corner_zone) ptr_y in
      let offset = corner_angle_offset fuel ptr_x ptr_y in
      if near_top && near_left
      then corner corner_nw (offset win.x win.y one one (lit 225 0))
      else if near_top && near_right
      then corner corner_ne (offset east_x win.y (fneg one) one (lit 315 0))
      else if near_bottom && near_left
      then corner corner_sw (offset win.x south_y one (fneg one) (lit 135 0))
      else if near_bottom && near_right
      then corner corner_se (offset east_x south_y (fneg one) (fneg one) (lit 45 0))
      else some (inner_zone ptr_x ptr_y win)

  abbrev pub result : WindowRect → Option HitZone → Option (Option HitResult)
  result win none = none
  result win (some zone) = some (some (record { window_id = win.id; zone = zone }))

  unfoldable pub hit_test : ℕ → Float → Float → List WindowRect → Option (Option HitResult)
  unfolding in_outer zone_in
  hit_test fuel ptr_x ptr_y [] = some none
  hit_test fuel ptr_x ptr_y (win ∷ windows) =
      let rest = hit_test fuel ptr_x ptr_y windows in
      if in_outer ptr_x ptr_y win then result win (zone_in fuel ptr_x ptr_y win) else rest

  unfoldable pub zone_to_cursor : HitZone → CursorKind
  zone_to_cursor title_bar = move_cursor
  zone_to_cursor edge_north = resize_n
  zone_to_cursor edge_south = resize_s
  zone_to_cursor edge_east = resize_e
  zone_to_cursor edge_west = resize_w
  zone_to_cursor (corner_nw angle_offset) = resize_nwse angle_offset
  zone_to_cursor (corner_se angle_offset) = resize_nwse angle_offset
  zone_to_cursor (corner_ne angle_offset) = resize_nesw angle_offset
  zone_to_cursor (corner_sw angle_offset) = resize_nesw angle_offset
  zone_to_cursor _ = arrow

-- ===== src/Desktop/Drag.antt =====
-- An interactive drag in crates/compositor-slint/src/renderer.rs: the part of
-- `handle_pointer_update` for an active drag, `release_drag`, `maybe_unsnap_for_move` and
-- `apply_pending_snap`.
use de.Prelude.{
  ℕ, zero, suc, ◌-◌, Bool, true, not, List, [], ◌∷◌, Option, none, some, if◌then◌else◌, leb, ℤ, pos,
  ltb_ℤ, max_ℤ, min_ℤ, get_elem?,
}
use de.Prelude.I32
use de.F64.{F64}
use de.Window.{WorkArea, WindowState, right, bottom}
use de.Wm.{WindowManager, work_area}
use de.Wm.Focus.{find_id}
use de.Wm.Geometry.{id_for_surface, set_geometry_by_id, set_position_by_id}
use de.Resize.{ResizeEdge, WindowGeomSnapshot, resize, resize_by, min_window_size}
use de.Snap
use de.Snap.{SnapZone, SnapRect, maximize, left_half}
use de.Toplevel.{Toplevel, Shells}
use de.Desktop.{ProtocolIds, numbered_surfaces, Desktop}
use de.Desktop.Limits.{constrain, client_limit, moves_bottom}

-- What is asked of a native toplevel: a size, and whether the state Resizing is set, which of the
-- tiled and maximized states are set, or that they are cleared.
pub data Configure : Type 0 where
  resizing resized untiled unmaximized : (surface : ℕ) → (w h : ℤ) → Configure
  tiled : (surface : ℕ) → (w h : ℤ) → SnapZone → Configure

-- A write of a position through `toplevels.get_mut(idx)`.
abbrev pub place_at : ℕ → ℤ → ℤ → List Toplevel → List Toplevel
place_at i x y [] = []
place_at zero x y (t ∷ ts) = record t { x = x; y = y } ∷ ts
place_at (suc i) x y (t ∷ ts) = t ∷ place_at i x y ts

-- The configure events are at least 16 ms apart.
abbrev pub is_due : Option ℕ → ℕ → Bool
is_due none now = true
is_due (some last) now = leb 16_000_000 (now - last)

abbrev pub if_alive : Bool → Configure → List Configure
if_alive alive c = if alive then c ∷ [] else []

-- `v.clamp(lo, hi)`
abbrev pub clamp : ℤ → ℤ → ℤ → ℤ
clamp lo hi v = min_ℤ (max_ℤ v lo) hi

abbrev pub drag_x : WorkArea → ℤ → ℤ
drag_x area x = clamp area.x (max_ℤ (I32.sub (right area) (pos 24)) area.x) x

abbrev pub drag_y : WorkArea → ℤ → ℤ
drag_y area y = clamp area.y (max_ℤ (I32.sub (bottom area) (pos 24)) area.y) y

abbrev pub snap_for :
    Option ℤ
    → Option (ℤ × SnapZone × SnapRect)
    → SnapZone × SnapRect
    → Option (ℤ × SnapZone × SnapRect)
snap_for none pending hit = pending
snap_for (some id) pending (zone, rect) = some (id, zone, rect)

abbrev pub snap_after :
    Option ℤ
    → Option (ℤ × SnapZone × SnapRect)
    → Option (SnapZone × SnapRect)
    → Option (ℤ × SnapZone × SnapRect)
snap_after id pending none = none
snap_after id pending (some hit) = snap_for id pending hit

module _ ⦃fl : F64⦄ ⦃ids : ProtocolIds⦄ where
  open fl use {Float, lit, of_i32, to_i32, fsub, fadd, fmul, fdiv, fmax, fmin, fabs, sqrt, flt, fle}

  abbrev pub placed : Desktop → ℕ → ℤ → ℤ → Shells
  placed d idx x y = record d.shells { toplevels = place_at idx x y d.shells.toplevels }

  -- The window with the id of a surface.
  abbrev pub window_by : WindowManager → Option ℤ → Option (ℕ × WindowState)
  window_by m none = none
  window_by m (some id) = find_id m id

  abbrev pub window_of : WindowManager → ℕ → Option (ℕ × WindowState)
  window_of m surface = window_by m (id_for_surface m surface)

  abbrev pub set_geometry_if : WindowManager → Option ℤ → ℤ → ℤ → ℤ → ℤ → WindowManager
  set_geometry_if m none x y w h = m
  set_geometry_if m (some id) x y w h = set_geometry_by_id m id x y w h

  -- The sticky snap of the bottom edge to the top of the dock: where it was engaged, and the height.
  abbrev pub engage : Option Float → Float → Bool → Option Float
  engage (some snap_y) y crossed = some snap_y
  engage none y crossed = if crossed then some y else none

  abbrev pub hold :
      Option Float → Float → (dock_top : ℤ) → WindowGeomSnapshot → Option Float × WindowGeomSnapshot
  hold none y dock_top g = (none, g)
  hold (some snap_y) y dock_top g =
      if flt (lit 32 0) (fabs (fsub y snap_y))
      then (none, g)
      else (some snap_y, record g { h = max_ℤ (I32.sub dock_top g.y) min_window_size })

  unfoldable pub dock_snap :
      ResizeEdge
      → Option Float
      → Float
      → (dock_top : ℤ) → WindowGeomSnapshot
      → Option Float × WindowGeomSnapshot
  dock_snap edge engaged_at y dock_top g =
      if moves_bottom edge
      then hold (engage engaged_at y (not (ltb_ℤ (I32.add g.y g.h) dock_top))) y dock_top g
      else (engaged_at, g)

  -- What smithay and the clock tell while a drag goes on: whether a surface has a live native
  -- toplevel, the minimum and maximum size that its client has committed, and the time.
  pub record Ambient : Type 0 where
    pub alive : ℕ → Bool
    pub min_size : ℕ → ℤ × ℤ
    pub max_size : ℕ → ℤ × ℤ
    pub now : ℕ

  abbrev pub client_w : Ambient → ℕ → ℤ → ℤ
  client_w a surface w = client_limit (a.min_size surface).0 (a.max_size surface).0 w

  abbrev pub client_h : Ambient → ℕ → ℤ → ℤ
  client_h a surface h = client_limit (a.min_size surface).1 (a.max_size surface).1 h

  -- The toplevel at the index of the drag, if there is one, takes the position, and its window in the
  -- window manager the geometry; the client is told the size.
  abbrev pub resize_toplevel :
      Ambient
      → Desktop
      → ℕ
      → (last : Option ℕ) → WindowGeomSnapshot
      → Option Toplevel
      → Desktop × List Configure
  resize_toplevel a d idx last g none = (d, [])
  resize_toplevel a d idx last g (some tl) =
      let cw = client_w a tl.surface g.w in
      let ch = client_h a tl.surface g.h in
      (
        record d {
          wm = set_geometry_if d.wm (id_for_surface d.wm tl.surface) g.x g.y cw ch;
          shells = placed d idx g.x g.y;
        },
        if is_due last a.now then if_alive (a.alive tl.surface) (resizing tl.surface cw ch) else [],
      )

  abbrev pub next_due : Option Toplevel → Option ℕ → ℕ → Option ℕ
  next_due none last now = last
  next_due (some tl) last now = if is_due last now then some now else last

  unfoldable pub resize_motion :
      Ambient
      → Desktop
      → (x y : Float) → (idx : ℕ) → ResizeEdge
      → (start_x start_y : Float) → (start : WindowGeomSnapshot) → (last : Option ℕ)
      → (engaged : Option Float) → Desktop × List Configure
  unfolding dock_snap
  resize_motion a d x y idx edge start_x start_y start last engaged =
      let free = resize_by edge start (to_i32 (fsub x start_x)) (to_i32 (fsub y start_y)) in
      let area = work_area d.wm in
      let (engaged', g) = dock_snap edge engaged y (bottom area) (constrain area edge start free) in
      let tl = get_elem? d.shells.toplevels idx in
      resize_toplevel a
        (record d {
          active_drag =
              some (resize idx edge start_x start_y start (next_due tl last a.now) engaged');
        })
        idx last g tl

  abbrev pub set_position_if : WindowManager → Option ℤ → ℤ → ℤ → WindowManager
  set_position_if m none x y = m
  set_position_if m (some id) x y = set_position_by_id m id x y

  abbrev pub move_toplevel : Desktop → ℕ → ℤ → ℤ → Option Toplevel → Desktop × Option ℤ
  move_toplevel d idx x y none = (d, none)
  move_toplevel d idx x y (some tl) =
      let id = id_for_surface d.wm tl.surface in
      (record d { wm = set_position_if d.wm id x y; shells = placed d idx x y }, id)

  -- The regular path of a move, in a compositor that shows its user interface.
  unfoldable pub move_motion :
      Desktop → (x y : Float) → (idx : ℕ) → (offset_x offset_y : Float) → Desktop
  move_motion d x y idx offset_x offset_y =
      let area = work_area d.wm in
      let (d', id) =
        move_toplevel d idx (drag_x area (to_i32 (fsub x offset_x)))
          (drag_y area (to_i32 (fsub y offset_y))) (get_elem? d.shells.toplevels idx) in
      record d' { pending_snap = snap_after id d.pending_snap (Snap.detect x y (work_area d'.wm)) }

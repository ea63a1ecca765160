-- ===== src/Desktop/Snapping.antt =====
-- How a drag snaps a window and takes it off again, in crates/compositor-slint/src/renderer.rs:
-- `apply_pending_snap`, `maybe_unsnap_for_move`, the release of a maximized window and
-- `release_drag`.
use de.Prelude.{
  ℕ, Bool, true, false, List, [], ◌∷◌, Option, none, some, if◌then◌else◌, ℤ, get_elem?,
}
use de.F64.{F64}
use de.Window.{WindowState, Geometry, set_geometry_target}
use de.Window.Lifecycle.{start_unmaximize}
use de.Wm.Focus.{find_id}
use de.Wm.Pointer.{titlebar_height}
use de.Wm.Geometry.{id_for_surface, set_geometry_by_id, modify_found, modify_key}
use de.Resize.{ActiveDrag, resize, move}
use de.Snap.{SnapZone, SnapRect, maximize}
use de.Compositor.Resizing.{begin_xdg_resize_transaction}
use de.Toplevel.{
  Toplevel, X11Surface, Call, set_maximized, Shells, find_toplevel, x11_of, update_toplevel,
}
use de.Desktop.{ProtocolIds, numbered_surfaces, Desktop}
use de.Desktop.Drag.{Configure, resized, untiled, unmaximized, tiled, if_alive, placed, window_of}

module _ ⦃fl : F64⦄ ⦃ids : ProtocolIds⦄ where
  open fl use {Float, lit, of_i32, to_i32, fsub, fadd, fmul, fdiv, fmax, fmin, sqrt, flt}

  abbrev pub current : WindowState → Geometry
  current win = (win.x, win.y, win.w, win.h)

  abbrev pub or_current : Option Geometry → Geometry → Option Geometry
  or_current (some g) now = some g
  or_current none now = some now

  -- The flags of a window that is snapped to a zone. Only the first snap saves the geometry.
  abbrev pub mark_snapped : SnapZone → WindowState → WindowState
  mark_snapped maximize win = record win {
    pre_maximize = or_current win.pre_maximize (current win);
    maximized = true;
  }
  mark_snapped zone win = record win {
    pre_snap = or_current win.pre_snap (current win);
    maximized = false;
  }

  unfoldable pub snap_window : SnapZone → SnapRect → WindowState → WindowState
  snap_window zone rect win = record (mark_snapped zone win) {
    x = rect.x;
    y = rect.y;
    w = rect.w;
    h = rect.h;
    anim = set_geometry_target win.anim rect.x rect.y rect.w rect.h;
  }

  abbrev pub snap_found :
      (alive : ℕ → Bool)
      → Desktop
      → SnapZone
      → SnapRect
      → Option (ℕ × WindowState)
      → Desktop × List Configure
  snap_found alive d zone rect none = (d, [])
  snap_found alive d zone rect (some (k, win)) = (
    record d {
      wm = modify_key d.wm k (snap_window zone rect);
      shells = record d.shells {
        toplevels =
            update_toplevel win.surface (λ t. record t { x = rect.x; y = rect.y })
              d.shells.toplevels;
      };
    },
    if_alive (alive win.surface) (tiled win.surface rect.w rect.h zone),
  )

  abbrev pub apply_snap :
      (alive : ℕ → Bool) → Desktop → Option (ℤ × SnapZone × SnapRect) → Desktop × List Configure
  apply_snap alive d none = (d, [])
  apply_snap alive d (some (wm_id, zone, rect)) = snap_found alive d zone rect (find_id d.wm wm_id)

  unfoldable pub apply_pending_snap : (alive : ℕ → Bool) → Desktop → Desktop × List Configure
  unfolding snap_window modify_key
  apply_pending_snap alive d = apply_snap alive (record d { pending_snap = none }) d.pending_snap

  -- How far along a span a coordinate is, from 0 to 1.
  abbrev pub along : Float → Float → Float → Float
  along x start length = fmin (fmax (fdiv (fsub x start) length) (lit 0 0)) (lit 1 0)

  abbrev pub grab_x : Float → Float → (w : ℤ) → ℤ
  grab_x x rel w = to_i32 (fsub x (fmul rel (of_i32 w)))

  abbrev pub grab_y : Float → ℤ
  grab_y y = to_i32 (fsub y (fdiv titlebar_height (lit 2 0)))

  abbrev pub forget_snap : WindowState → WindowState
  forget_snap win = record win { pre_snap = none }

  abbrev pub pre_snap_of : Option (ℕ × WindowState) → Option (Geometry × WindowState)
  pre_snap_of none = none
  pre_snap_of (some (k, win)) = elim (win.pre_snap) [ none ↦ none | some g ↦ some (g, win) ]

  abbrev pub unsnap_found :
      (alive : ℕ → Bool)
      → Desktop
      → (idx : ℕ) → (x y : Float) → Toplevel
      → (wm_id : ℤ) → Option (Geometry × WindowState)
      → (Float × Float) × Desktop × List Configure
  unsnap_found alive d idx x y t wm_id none = ((fsub x (of_i32 t.x), fsub y (of_i32 t.y)), d, [])
  unsnap_found alive d idx x y t wm_id (some ((ox, oy, ow, oh), win)) =
      let rel_x = along x (of_i32 win.x) (fmax (of_i32 win.w) (lit 1 0)) in
      let new_x = grab_x x rel_x ow in
      let new_y = grab_y y in
      let wm = set_geometry_by_id d.wm wm_id new_x new_y ow oh in
      (
        (fsub x (of_i32 new_x), fsub y (of_i32 new_y)),
        record d {
          wm = modify_found wm (find_id wm wm_id) forget_snap;
          shells = placed d idx new_x new_y;
        },
        if_alive (alive t.surface) (untiled t.surface ow oh),
      )

  abbrev pub unsnap_by :
      (alive : ℕ → Bool)
      → Desktop
      → (idx : ℕ) → (x y : Float) → Toplevel
      → Option ℤ
      → (Float × Float) × Desktop × List Configure
  unsnap_by alive d idx x y t none = ((fsub x (of_i32 t.x), fsub y (of_i32 t.y)), d, [])
  unsnap_by alive d idx x y t (some id) =
      unsnap_found alive d idx x y t id (pre_snap_of (find_id d.wm id))

  abbrev pub unsnap_toplevel :
      (alive : ℕ → Bool)
      → Desktop
      → (idx : ℕ) → (x y : Float) → Option Toplevel
      → (Float × Float) × Desktop × List Configure
  unsnap_toplevel alive d idx x y none = ((lit 0 0, lit 0 0), d, [])
  unsnap_toplevel alive d idx x y (some t) =
      unsnap_by alive d idx x y t (id_for_surface d.wm t.surface)

  -- The answer begins with the offset of the pointer in the window.
  unfoldable pub maybe_unsnap_for_move :
      (alive : ℕ → Bool)
      → Desktop
      → (idx : ℕ) → (x y : Float) → (Float × Float) × Desktop × List Configure
  unfolding modify_key
  maybe_unsnap_for_move alive d idx x y =
      unsnap_toplevel alive d idx x y (get_elem? d.shells.toplevels idx)

  abbrev pub mirror_unmaximized : Option X11Surface → List Call
  mirror_unmaximized none = []
  mirror_unmaximized (some window) = set_maximized window.window_id false ∷ []

  abbrev pub pre_maximize_of : Option (ℕ × WindowState) → Option Geometry
  pre_maximize_of none = none
  pre_maximize_of (some (k, win)) = win.pre_maximize

  abbrev pub unmaximize_found :
      (alive : ℕ → Bool)
      → Desktop
      → (x y : Float) → (idx surface : ℕ) → (wm_id : ℤ) → Option Geometry
      → Desktop × List Configure × List Call
  unmaximize_found alive d x y idx surface wm_id none = (d, [], [])
  unmaximize_found alive d x y idx surface wm_id (some (rx, ry, rw', rh)) =
      let new_x = grab_x x (along x (lit 0 0) (of_i32 d.wm.output_w)) rw' in
      let new_y = grab_y y in
      (
        record d {
          wm =
              set_geometry_by_id (modify_found d.wm (find_id d.wm wm_id) start_unmaximize) wm_id
                new_x new_y rw' rh;
          shells = placed d idx new_x new_y;
          active_drag = some (move idx (fsub x (of_i32 new_x)) (fsub y (of_i32 new_y)) none);
        },
        if_alive (alive surface) (unmaximized surface rw' rh),
        mirror_unmaximized (x11_of (find_toplevel surface d.shells.toplevels)),
      )

  abbrev pub unmaximize_by :
      (alive : ℕ → Bool)
      → Desktop
      → (x y : Float) → (idx surface : ℕ) → Option ℤ
      → Desktop × List Configure × List Call
  unmaximize_by alive d x y idx surface none = (d, [], [])
  unmaximize_by alive d x y idx surface (some id) =
      unmaximize_found alive d x y idx surface id (pre_maximize_of (find_id d.wm id))

  abbrev pub unmaximize_toplevel :
      (alive : ℕ → Bool)
      → Desktop
      → (x y : Float) → (idx : ℕ) → Option Toplevel
      → Desktop × List Configure × List Call
  unmaximize_toplevel alive d x y idx none = (d, [], [])
  unmaximize_toplevel alive d x y idx (some t) =
      unmaximize_by alive d x y idx t.surface (id_for_surface d.wm t.surface)

  -- The motion of a drag that began on a maximized window, at a point: nothing happens before the
  -- pointer is 8 pixels away, and then the window is taken off the edges.
  unfoldable pub gated_motion :
      (alive : ℕ → Bool)
      → Desktop
      → (x y : Float) → (idx : ℕ) → Float × Float
      → Desktop × List Configure × List Call
  unfolding start_unmaximize modify_key
  gated_motion alive d x y idx (sx, sy) =
      let dx = fsub x sx in
      let dy = fsub y sy in
      if flt (sqrt (fadd (fmul dx dx) (fmul dy dy))) (lit 8 0)
      then (d, [], [])
      else unmaximize_toplevel alive d x y idx (get_elem? d.shells.toplevels idx)

  abbrev pub release_at :
      (alive : ℕ → Bool)
      → (serial : ℕ) → Desktop
      → ℕ
      → Option (ℕ × WindowState)
      → Shells × List Configure
  release_at alive serial d surface none = (d.shells, [])
  release_at alive serial d surface (some (k, win)) =
      if alive surface
      then (
        record d.shells {
          xdg_resize_transactions =
              begin_xdg_resize_transaction d.shells.xdg_resize_transactions surface serial;
        },
        resized surface win.w win.h ∷ [],
      )
      else (d.shells, [])

  abbrev pub release_toplevel :
      (alive : ℕ → Bool) → (serial : ℕ) → Desktop → Option Toplevel → Shells × List Configure
  release_toplevel alive serial d none = (d.shells, [])
  release_toplevel alive serial d (some t) =
      release_at alive serial d t.surface (window_of d.wm t.surface)

  abbrev pub release_active :
      (alive : ℕ → Bool) → (serial : ℕ) → Desktop → Option ActiveDrag → Shells × List Configure
  release_active alive serial d none = (d.shells, [])
  release_active alive serial d (some (move idx ox oy pending)) = (d.shells, [])
  release_active alive serial d (some (resize idx edge sx sy start last engaged)) =
      release_toplevel alive serial d (get_elem? d.shells.toplevels idx)

  -- `serial` is that of the final configure event, if one is sent.
  unfoldable pub release_drag :
      (alive : ℕ → Bool) → (serial : ℕ) → Desktop → Desktop × List Configure
  unfolding begin_xdg_resize_transaction
  release_drag alive serial d =
      let (shells, calls) = release_active alive serial d d.active_drag in
      (record d { shells = shells; active_drag = none }, calls)

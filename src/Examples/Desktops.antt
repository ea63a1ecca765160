-- ===== src/Examples/Desktops.antt =====
-- The theorems on drags and on the frame's requests at a desktop with one window.
use de.Prelude.{
  ◌≡◌, refl, ◌⊎◌, true, false, [], ◌∷◌, none, some, pos, ◌≤ℤ◌, max_ℤ, get_elem?, arith,
}
use de.Prelude.I32
use de.F64.Billionths.{billionths}
use de.Window
use de.Window.{WindowState, right, bottom}
use de.Wm
use de.Wm.{WindowManager, work_area}
use de.Wm.Geometry.{id_for_surface}
use de.Resize.{east, min_window_size, WindowGeomSnapshot}
use de.Snap.{SnapRect, left_half, top_left_quarter}
use de.Toplevel
use de.Toplevel.{Toplevel, X11Surface}
use de.Toplevel.Xdg.{native}
use de.Desktop.{ProtocolIds, numbered_surfaces, Desktop}
use de.Desktop.Drag.{Ambient, resizing, resize_motion, move_motion}
use de.Desktop.Synced.{IsSynced, resize_motion-IsSynced, move_motion-IsSynced}
use de.Desktop.Snapping.{maybe_unsnap_for_move}
use de.Toplevel.X11.{unmanaged, unmapped_window}
use de.Desktop.Shifted.{move_motion-unmapped_window}
use de.Desktop.Unsnapped.{Holds, snap_all, maybe_unsnap_for_move-snap_all}
use de.Desktop.Requests.{Frame}
use de.Desktop.Actions.{Actions, process_wm_actions}
use de.Desktop.Active.{IsActive}
use de.Desktop.Followed.{process_wm_actions-IsActive}

instance abbrev ids : ProtocolIds
ids = record { protocol_id = λ surface. surface }

abbrev win : WindowState
win = record (Window.new (pos 1) 7 (pos 120) (pos 80) (pos 800) (pos 600) 1) { focused = true }

abbrev client : Toplevel.Toplevel
client = native Toplevel.new 7 1

abbrev desk : Desktop
desk = record {
  wm = record (Wm.new (pos 1920) (pos 1080)) { windows = (7, win) ∷ []; focus_stack = 7 ∷ [] };
  shells = record Toplevel.new { toplevels = client ∷ []; active_surface = some 7 };
  active_drag = none;
  pointer_pos = (pos 0, pos 0);
  pending_snap = none;
}

abbrev quiet : Ambient
quiet = record {
  alive = λ surface. true;
  min_size = λ surface. (pos 0, pos 0);
  max_size = λ surface. (pos 0, pos 0);
  now = 5;
}

abbrev start : WindowGeomSnapshot
start = record { x = pos 120; y = pos 80; w = pos 800; h = pos 600 }

resize_motion-IsSynced_example :
    let r = resize_motion quiet desk (pos 30) (pos 0) 0 east (pos 0) (pos 0) start none none in
    (t' : Toplevel.Toplevel) × (win' : WindowState) × IsSynced r.0 0 7 7 t' win'
    × (min_window_size ≤ℤ win'.w)
    × (min_window_size ≤ℤ win'.h)
    × ((r.1 ≡ []) ⊎ (r.1 ≡ resizing 7 win'.w win'.h ∷ []))
unfolding native Wm.new Window.new id_for_surface
resize_motion-IsSynced_example =
    resize_motion-IsSynced quiet desk (pos 30) (pos 0) 0 east (pos 0) (pos 0) start none none 7
      client win refl refl

move_motion-IsSynced_example :
    let area = work_area desk.wm in
    let r = move_motion desk (pos 30) (pos 0) 0 (pos 4) (pos 2) in
    (t' : Toplevel.Toplevel) × (win' : WindowState) × IsSynced r 0 7 7 t' win'
    × (area.x ≤ℤ win'.x)
    × (win'.x ≤ℤ max_ℤ (I32.sub (right area) (pos 24)) area.x)
    × (area.y ≤ℤ win'.y)
    × (win'.y ≤ℤ max_ℤ (I32.sub (bottom area) (pos 24)) area.y)
    × (win'.w ≡ win.w)
    × (win'.h ≡ win.h)
unfolding native Wm.new Window.new id_for_surface
move_motion-IsSynced_example =
    move_motion-IsSynced desk (pos 30) (pos 0) 0 (pos 4) (pos 2) 7 client win refl refl

abbrev rect : SnapRect
rect = record { x = pos 0; y = pos 34; w = pos 960; h = pos 900 }

maybe_unsnap_for_move-snap_all_example :
    let r =
      maybe_unsnap_for_move
        (λ s. true)
        (snap_all (λ s. true) (pos 1) desk ((left_half, rect) ∷ (top_left_quarter, rect) ∷ []))
        0
        (pos 40)
        (pos 50) in
    (win' : WindowState) × (t' : Toplevel.Toplevel) × Holds r.1 0 7 7 (pos 1) win'
    × (get_elem? r.1.shells.toplevels 0 ≡ some t')
    × (win'.w ≡ win.w)
    × (win'.h ≡ win.h)
    × (win'.pre_snap ≡ none)
    × (win'.maximized ≡ false)
    × (win'.x ≡ t'.x)
    × (win'.y ≡ t'.y)
unfolding native Wm.new Window.new id_for_surface
maybe_unsnap_for_move-snap_all_example =
    maybe_unsnap_for_move-snap_all (λ s. true) desk 0 7 7 (pos 1) win (left_half, rect)
      ((top_left_quarter, rect) ∷ []) (pos 40) (pos 50) (refl, (refl, tt))
      (client, refl, refl, refl, refl) refl

abbrev frame : Frame
frame = record { has_keyboard = true; buffer = λ surface. (pos 0, pos 0); screen = λ surface. none }

abbrev actions : Actions
actions = record {
  close_ids = [];
  minimize_ids = pos 1 ∷ [];
  maximize_ids = pos 1 ∷ [];
  activate_ids = pos 1 ∷ [];
  dock_actions = [];
  steps = 1;
  commit = true;
}

desk-IsActive : IsActive desk
unfolding IsActive native Wm.new Window.new Wm.Focus.focused_surface
desk-IsActive = refl

process_wm_actions-IsActive_example : IsActive (process_wm_actions frame actions desk).0
process_wm_actions-IsActive_example = process_wm_actions-IsActive frame actions desk desk-IsActive

abbrev menu : X11Surface
menu = record {
  window_id = 6;
  wl_surface = some 11;
  xwm_id = some 1;
  is_override_redirect = true;
  is_mapped = true;
  is_decorated = false;
  title = [];
  app_class = [];
  geometry = (pos 5, pos 6, pos 70, pos 80);
  min_size = none;
  max_size = none;
}

-- The window stands behind a menu, whose index a drag holds.
abbrev covered : Desktop
covered = record desk {
  shells = record desk.shells { toplevels = unmanaged menu 11 ∷ client ∷ [] };
}

move_motion-unmapped_window_example :
    let area = work_area covered.wm in
    let d' = record covered { shells = (unmapped_window covered.shells menu).0 } in
    let r = move_motion d' (pos 30) (pos 0) 0 (pos 4) (pos 2) in
    (t' : Toplevel.Toplevel) × (win' : WindowState) × IsSynced r 0 7 7 t' win'
    × (area.x ≤ℤ win'.x)
    × (win'.x ≤ℤ max_ℤ (I32.sub (right area) (pos 24)) area.x)
    × (area.y ≤ℤ win'.y)
    × (win'.y ≤ℤ max_ℤ (I32.sub (bottom area) (pos 24)) area.y)
    × (win'.w ≡ win.w)
    × (win'.h ≡ win.h)
unfolding native Wm.new Window.new id_for_surface
move_motion-unmapped_window_example =
    move_motion-unmapped_window covered menu 11 0 0 (pos 30) (pos 0) (pos 4) (pos 2) 7 client win
      (refl, (refl, tt)) refl refl (omega arith) refl refl

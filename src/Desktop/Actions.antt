-- ===== src/Desktop/Actions.antt =====
-- `process_wm_actions` of crates/compositor-slint/src/renderer.rs: what the user interface asked for
-- since the last frame. The queues are arguments; they are drained as they are read.
use Prim.Native.String.{String}
use de.Prelude.{
  ℕ, zero, suc, Bool, true, List, [], ◌++◌, Option, none, some, ◌==◌, if◌then◌else◌, is_none, ltb,
  ℤ,
}
use de.F64.{F64}
use de.Window.{WindowState}
use de.Wm.{WindowManager}
use de.Wm.Focus.{find_id, focus_by_id, restore_by_id}
use de.Wm.Place.{begin_close_by_id, minimize_by_id}
use de.Wm.Geometry.{toggle_maximize_by_id}
use de.Wm.Pointer.{ids_for_app}
use de.Wm.AltTab.{alt_tab_start, alt_tab_next, alt_tab_commit}
use de.Toplevel.{Call}
use de.Desktop.{ProtocolIds, numbered_surfaces, Desktop}
use de.Desktop.Requests.{
  refocus, each, then_each, send_xdg_close, send_size, sync_x11_window_state, Frame,
  process_xdg_requests,
}

module _ ⦃fl : F64⦄ ⦃ids : ProtocolIds⦄ where
  abbrev pub close_window_of : Desktop → ℤ → Option (ℕ × WindowState) → Desktop × List Call
  close_window_of d id none = (d, [])
  close_window_of d id (some (k, win)) =
      (record d { wm = begin_close_by_id d.wm id }, send_xdg_close d.shells win.surface)

  abbrev pub then_refocus : (has_keyboard : Bool) → Desktop × List Call → Desktop × List Call
  then_refocus has_keyboard (d, calls) =
      let (d', more) = refocus has_keyboard d in (d', calls ++ more)

  unfoldable pub close_one : (has_keyboard : Bool) → Desktop → ℤ → Desktop × List Call
  close_one has_keyboard d id = then_refocus has_keyboard (close_window_of d id (find_id d.wm id))

  abbrev pub tell_hidden : Desktop → Option (ℕ × WindowState) → List Call
  tell_hidden d none = []
  tell_hidden d (some (k, win)) = sync_x11_window_state d.shells win.surface none none (some true)

  unfoldable pub minimize_one : (has_keyboard : Bool) → Desktop → ℤ → Desktop × List Call
  minimize_one has_keyboard d id =
      then_refocus has_keyboard
        (record d { wm = minimize_by_id d.wm id }, tell_hidden d (find_id d.wm id))

  abbrev pub tell_maximized : Desktop → Option (ℕ × WindowState) → List Call
  tell_maximized d none = []
  tell_maximized d (some (k, win)) =
      send_size d.shells win.surface win.w win.h
      ++ sync_x11_window_state d.shells win.surface (some win.maximized) none none

  unfoldable pub maximize_one : Desktop → ℤ → Desktop × List Call
  maximize_one d id =
      let wm = toggle_maximize_by_id d.wm id in
      (record d { wm = wm }, tell_maximized d (find_id wm id))

  unfoldable pub activate_one : (has_keyboard : Bool) → Desktop → ℤ → Desktop × List Call
  activate_one has_keyboard d id = refocus has_keyboard (record d { wm = focus_by_id d.wm id })

  unfoldable pub show_one : (has_keyboard : Bool) → Desktop → ℤ → Desktop × List Call
  show_one has_keyboard d id = refocus has_keyboard (record d { wm = restore_by_id d.wm id })

  unfoldable pub quit_one : Desktop → ℤ → Desktop × List Call
  quit_one d id = close_window_of d id (find_id d.wm id)

  -- Action 2 is Show All Windows, action 5 Quit.
  unfoldable pub dock_action : (has_keyboard : Bool) → Desktop → String × ℕ → Desktop × List Call
  unfolding show_one quit_one
  dock_action has_keyboard d (app_id, action) =
      let windows = ids_for_app d.wm app_id in
      if action == 2
      then each (show_one has_keyboard) d windows
      else if action == 5
      then then_refocus has_keyboard (each quit_one d windows)
      else (d, [])

  abbrev pub next_times : ℕ → WindowManager → WindowManager
  next_times zero m = m
  next_times (suc n) m = next_times n (alt_tab_next m).1

  unfoldable pub alt_tab_steps : Desktop → ℕ → Desktop
  alt_tab_steps d steps =
      if ltb 0 steps
      then record d {
        wm = if is_none d.wm.alt_tab_idx then (alt_tab_start d.wm).1 else next_times steps d.wm;
      }
      else d

  unfoldable pub commit_if : (has_keyboard : Bool) → Bool → Desktop → Desktop × List Call
  commit_if has_keyboard commit d =
      if commit then refocus has_keyboard (record d { wm = alt_tab_commit d.wm }) else (d, [])

  -- The queues of the user interface.
  pub record Actions : Type 0 where
    pub close_ids : List ℤ
    pub minimize_ids : List ℤ
    pub maximize_ids : List ℤ
    pub activate_ids : List ℤ
    pub dock_actions : List (String × ℕ)
    pub steps : ℕ
    pub commit : Bool

  abbrev pub then_do : (Desktop → Desktop × List Call) → Desktop × List Call → Desktop × List Call
  then_do f (d, calls) = let (d', more) = f d in (d', calls ++ more)

  unfoldable pub process_wm_actions : Frame → Actions → Desktop → Desktop × List Call
  unfolding close_one minimize_one maximize_one activate_one dock_action alt_tab_steps commit_if
      process_xdg_requests
  process_wm_actions frame a d = then_do (process_xdg_requests frame) (
      then_do (commit_if frame.has_keyboard a.commit) (
        then_do (λ d. (alt_tab_steps d a.steps, []))
          (then_each (dock_action frame.has_keyboard) a.dock_actions (
            then_each (activate_one frame.has_keyboard) a.activate_ids (
              then_each maximize_one a.maximize_ids (
                then_each (minimize_one frame.has_keyboard) a.minimize_ids
                  (each (close_one frame.has_keyboard) d a.close_ids)))))))

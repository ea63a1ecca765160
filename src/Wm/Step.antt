-- ===== src/Wm/Step.antt =====
-- The window manager as a machine: one operation for each call that the compositor makes on it.
-- A surface is registered, and a destroyed one closed, under the guards of `sync_new_toplevels` in
-- crates/compositor-slint/src/renderer.rs. A frame may run out of its springs' fuel.
pub mod Keeps
pub mod Calls
pub mod Changes
pub mod Runs
use de.Prelude.{ℕ, List, [], ◌∷◌, Option, none, some, ◌>>=◌, if◌then◌else◌, ℤ}
use de.HashMap.{contains_key}
use de.F64.{F64}
use de.Window.{Wayland}
use de.Wm.{WindowManager, key, set_reserved_zones}
use de.Wm.Focus.{focus_surface, focus_by_id, restore_by_id, unfocus_all}
use de.Wm.Place.{
  add_window, remove_window, begin_close, begin_close_by_id, sweep_closed, minimize_by_id,
}
use de.Wm.Geometry.{
  toggle_maximize_by_id, set_position_by_id, set_geometry_by_id, update_geometry, tick_auto,
}
use de.Wm.AltTab.{alt_tab_start, alt_tab_next, alt_tab_commit, alt_tab_cancel}
use de.Wm.Pointer.{pointer_click_focus}

module _ ⦃fl : F64⦄ ⦃wl : Wayland⦄ where
  pub data Op : Type 0 where
    register : wl.Surface → Op
    destroyed : wl.Surface → Op
    removed : wl.Surface → Op
    close : ℤ → Op
    sweep : Op
    focus : wl.Surface → Op
    focus_id : ℤ → Op
    unfocus : Op
    click : fl.Float → fl.Float → Op
    minimize : ℤ → Op
    restore : ℤ → Op
    toggle_maximize : ℤ → Op
    move : ℤ → ℤ → ℤ → Op
    resize : ℤ → ℤ → ℤ → ℤ → ℤ → Op
    commit_buffer : wl.Surface → ℤ → ℤ → Op
    frame : ℕ → ℕ → Op
    reserve : ℤ → ℤ → ℤ → ℤ → Op
    tab_start : Op
    tab_next : Op
    tab_commit : Op
    tab_cancel : Op

  unfoldable pub sync_new : WindowManager → wl.Surface → WindowManager
  sync_new m s = if contains_key (key s) m.windows then m else (add_window m s).1

  unfoldable pub sync_destroyed : WindowManager → wl.Surface → WindowManager
  sync_destroyed m s = if contains_key (key s) m.windows then begin_close m s else m

  abbrev pub step : WindowManager → Op → Option WindowManager
  step m (register s) = some (sync_new m s)
  step m (destroyed s) = some (sync_destroyed m s)
  step m (removed s) = some (remove_window m s)
  step m (close id) = some (begin_close_by_id m id)
  step m sweep = some (sweep_closed m).1
  step m (focus s) = some (focus_surface m s)
  step m (focus_id id) = some (focus_by_id m id)
  step m unfocus = some (unfocus_all m).1
  step m (click x y) = some (pointer_click_focus m x y).1
  step m (minimize id) = some (minimize_by_id m id)
  step m (restore id) = some (restore_by_id m id)
  step m (toggle_maximize id) = some (toggle_maximize_by_id m id)
  step m (move id x y) = some (set_position_by_id m id x y)
  step m (resize id x y w h) = some (set_geometry_by_id m id x y w h)
  step m (commit_buffer s w h) = some (update_geometry m s w h)
  step m (frame fuel now) = tick_auto fuel m now >>= λ r. some r.1
  step m (reserve top bottom left right) = some (set_reserved_zones m top bottom left right)
  step m tab_start = some (alt_tab_start m).1
  step m tab_next = some (alt_tab_next m).1
  step m tab_commit = some (alt_tab_commit m)
  step m tab_cancel = some (alt_tab_cancel m)

  unfoldable pub run : WindowManager → List Op → Option WindowManager
  run m [] = some m
  run m (o ∷ os) = step m o >>= λ m'. run m' os

-- ===== src/Wm/Focus.antt =====
-- Focus and the focus stack of crates/compositor-slint/src/wm/mod.rs: `focus_key`, `focus_top`,
-- the focus requests by surface and by id, restoring, and the lookups of the focused window.
pub mod Keeps
pub mod Effects
use de.Prelude.{
  ℕ, Bool, true, false, not, ◌&&◌, ◌||◌, List, [], ◌∷◌, Option, none, some, ◌==◌, if◌then◌else◌,
  is_some_and, is_some, ◌>>=◌, ℤ, eqb_ℤ, push, without, last?,
}
use mathlib.Core.List.{reverse}
use de.HashMap.{get, map_values, modify, find_entry, on_some}
use de.F64.{F64}
use de.Window.{Wayland, WindowState}
use de.Window.Lifecycle.{start_restore}
use de.Wm.{WindowManager, key, is_focusable, next_usize}

module _ ⦃fl : F64⦄ ⦃wl : Wayland⦄ where
  -- Whether a key is a window's that can take the focus.
  abbrev pub focusable_at : WindowManager → ℕ → Bool
  focusable_at m k = is_some_and (get k m.windows) is_focusable

  -- The loop of `focus_key` over the windows.
  abbrev pub raise : ℕ → ℕ → ℕ → WindowState → WindowState
  raise k new_z j win =
      if j == k
      then record win { focused = true; z_order = new_z }
      else record win { focused = false }

  unfoldable pub focus_key : WindowManager → ℕ → Bool × WindowManager
  focus_key m k = if not (focusable_at m k) then (false, m) else (
    true,
    record m {
      next_z = next_usize m.next_z;
      windows = map_values (raise k m.next_z) m.windows;
      focus_stack = push (without k m.focus_stack) k;
    },
  )

  abbrev pub unfocus : ℕ → WindowState → WindowState
  unfocus _ win = record win { focused = false }

  -- The `while let` loop of `focus_top`. The first argument is the stack, its last entry first: an
  -- entry that cannot take the focus is popped.
  unfoldable pub focus_from : List ℕ → WindowManager → WindowManager
  focus_from [] m = record m { focus_stack = []; windows = map_values unfocus m.windows }
  focus_from (k ∷ below) m =
      let rest = focus_from below m in
      let attempt = focus_key (record m { focus_stack = reverse (k ∷ below) }) k in
      if attempt.0 then attempt.1 else rest

  unfoldable pub focus_top : WindowManager → WindowManager
  focus_top m = focus_from (reverse m.focus_stack) m

  -- `windows.iter().find(|(_, w)| w.id == id)`
  abbrev pub find_id : WindowManager → ℤ → Option (ℕ × WindowState)
  find_id m id = find_entry (λ w. eqb_ℤ w.id id) m.windows

  -- The body of `restore_by_id` for the window that has the id.
  unfoldable pub restore_key : WindowManager → ℕ → WindowState → WindowManager
  restore_key m k win =
      if win.closing
      then m
      else (focus_key (record m { windows = modify k start_restore m.windows }) k).1

  abbrev pub restore_found : WindowManager → Option (ℕ × WindowState) → WindowManager
  restore_found m none = m
  restore_found m (some (k, win)) = restore_key m k win

  unfoldable pub restore_by_id : WindowManager → ℤ → WindowManager
  unfolding restore_key
  restore_by_id m id = restore_found m (find_id m id)

  -- What `focus_surface` and `focus_by_id` do with the window that they found.
  unfoldable pub focus_window : WindowManager → ℕ → WindowState → WindowManager
  focus_window m k win =
      if win.closing then m else if win.minimized then restore_by_id m win.id else (focus_key m k).1

  abbrev pub focus_found : WindowManager → Option (ℕ × WindowState) → WindowManager
  focus_found m none = m
  focus_found m (some (k, win)) = focus_window m k win

  abbrev pub with_key {ℓ} : {V : Type ℓ} → ℕ → Option V → Option (ℕ × V)
  with_key k none = none
  with_key k (some v) = some (k, v)

  unfoldable pub focus_surface : WindowManager → wl.Surface → WindowManager
  focus_surface m surface = focus_found m (with_key (key surface) (get (key surface) m.windows))

  unfoldable pub focus_by_id : WindowManager → ℤ → WindowManager
  focus_by_id m id = focus_found m (find_id m id)

  abbrev pub surface_if_focused : WindowState → Option wl.Surface
  surface_if_focused w = if is_focusable w && w.focused then some w.surface else none

  unfoldable pub focused_surface : WindowManager → Option wl.Surface
  focused_surface m = last? m.focus_stack >>= λ k. get k m.windows >>= surface_if_focused

  abbrev pub id_of : Option (ℕ × WindowState) → Option ℤ
  id_of none = none
  id_of (some (k, w)) = some w.id

  unfoldable pub focused_id : WindowManager → Option ℤ
  focused_id m = id_of (find_entry (λ w. w.focused && is_focusable w) m.windows)

  abbrev any_focused : List (ℕ × WindowState) → Bool
  any_focused [] = false
  any_focused ((k, w) ∷ rest) = w.focused || any_focused rest

  -- The result says whether a window lost the focus.
  unfoldable pub unfocus_all : WindowManager → Bool × WindowManager
  unfocus_all m =
      (any_focused m.windows, record m { windows = map_values unfocus m.windows; focus_stack = [] })

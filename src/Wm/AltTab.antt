-- ===== src/Wm/AltTab.antt =====
-- Alt-Tab cycling in crates/compositor-slint/src/wm/mod.rs.
pub mod Cycle
use de.Prelude.{
  ℕ, zero, suc, ◌-◌, ◌<◌, Bool, true, false, not, ◌&&◌, List, [], ◌∷◌, Option, none, some, ◌==◌,
  ltb, if◌then◌else◌, is_some_and, ◌>>=◌, ℤ, length, get_elem?, push, without,
}
use de.HashMap.{get, map_values}
use de.F64.{F64}
use de.Window.{Wayland, WindowState}
use de.Wm.{WindowManager, is_focusable}
use de.Wm.Focus.{focus_top, focusable_at}
use de.Wm.Geometry.{window_id}

module _ ⦃fl : F64⦄ ⦃wl : Wayland⦄ where
  abbrev is_key : Option ℕ → ℕ → Bool
  is_key none k = false
  is_key (some j) k = j == k

  abbrev pub select : Option ℕ → ℕ → WindowState → WindowState
  select selected k win = record win { alt_tab_selected = is_key selected k }

  unfoldable pub update_alt_tab_selection : WindowManager → WindowManager
  update_alt_tab_selection m =
      let selected_key = m.alt_tab_idx >>= get_elem? m.focus_stack in
      record m { windows = map_values (select selected_key) m.windows }

  -- The stack's entries whose window is neither minimized nor closing.
  abbrev pub visible_count : WindowManager → List ℕ → ℕ
  visible_count m [] = 0
  visible_count m (k ∷ ks) =
      if focusable_at m k then suc (visible_count m ks) else visible_count m ks

  -- The id of the window at an index of the stack.
  abbrev pub id_at : WindowManager → ℕ → Option ℤ
  id_at m idx = get_elem? m.focus_stack idx >>= λ k. window_id (get k m.windows)

  -- The index is stored, the flags follow it, and its window's id is the result.
  abbrev pub show_index : WindowManager → ℕ → Option ℤ × WindowManager
  show_index m idx =
      let m' = update_alt_tab_selection (record m { alt_tab_idx = some idx }) in (id_at m' idx, m')

  unfoldable pub alt_tab_start : WindowManager → Option ℤ × WindowManager
  unfolding update_alt_tab_selection
  alt_tab_start m =
      if ltb (visible_count m m.focus_stack) 2
      then (none, m)
      else show_index m (length m.focus_stack - 2)

  -- One step towards the bottom of the stack, and from the bottom to the top.
  abbrev pub step_index : ℕ → Option ℕ → ℕ
  step_index len none = 0
  step_index len (some i) = if i == 0 then len - 1 else i - 1

  unfoldable pub alt_tab_next : WindowManager → Option ℤ × WindowManager
  unfolding update_alt_tab_selection
  alt_tab_next m =
      if length m.focus_stack == 0
      then (none, m)
      else show_index m (step_index (length m.focus_stack) m.alt_tab_idx)

  abbrev pub deselect : ℕ → WindowState → WindowState
  deselect _ win = record win { alt_tab_selected = false }

  abbrev pub commit_key : WindowManager → Option ℕ → WindowManager
  commit_key m none = m
  commit_key m (some k) = focus_top (record m { focus_stack = push (without k m.focus_stack) k })

  abbrev pub commit_index : WindowManager → Option ℕ → WindowManager
  commit_index m none = m
  commit_index m (some idx) =
      commit_key (record m { alt_tab_idx = none; windows = map_values deselect m.windows })
        (get_elem? m.focus_stack idx)

  unfoldable pub alt_tab_commit : WindowManager → WindowManager
  alt_tab_commit m = commit_index m m.alt_tab_idx

  unfoldable pub alt_tab_cancel : WindowManager → WindowManager
  alt_tab_cancel m = record m { alt_tab_idx = none; windows = map_values deselect m.windows }

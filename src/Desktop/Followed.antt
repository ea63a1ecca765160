-- ===== src/Desktop/Followed.antt =====
-- The compositor's active surface follows the window manager through a frame's actions of the user
-- interface too.
use Prim.Native.String.{String}
use de.Prelude.{
  ℕ, zero, suc, ◌-◌, ◌≡◌, refl, sym, ◌∙◌, Bool, true, false, Bool-cases, inl, inr, Option, none,
  some, ◌==◌, ltb, is_none, length, get_elem?, ◌>>=◌, ℤ, arith,
}
use de.F64.{F64}
use de.Window.{WindowState}
use de.Window.Lifecycle.{start_maximize_to, start_unmaximize}
use de.Wm.{WindowManager, work_area}
use de.Wm.Focus.{focused_surface, surface_if_focused, find_id}
use de.Wm.Geometry.{modify_found, toggle_maximize, toggle_maximize_by_id}
use de.Wm.Pointer.{ids_for_app}
use de.Wm.AltTab.{
  alt_tab_start, alt_tab_next, update_alt_tab_selection, visible_count, select, show_index,
  step_index,
}
use de.Desktop.{ProtocolIds, numbered_surfaces, Desktop}
use de.Desktop.Requests.{each, then_each, Frame}
use de.Desktop.Actions.{
  close_one, minimize_one, maximize_one, activate_one, show_one, dock_action, next_times,
  alt_tab_steps, commit_if, Actions, process_wm_actions,
}
use de.Desktop.Active.{
  IsActive, refocus-IsActive, each-IsActive, focused_surface-modify_key, focused_surface-map_values,
  process_xdg_requests-IsActive,
}

module _ ⦃fl : F64⦄ ⦃ids : ProtocolIds⦄ where
  toggle_maximize-focus :
      (m : WindowManager) (w : WindowState)
      → surface_if_focused (toggle_maximize (work_area m) w) ≡ surface_if_focused w
  unfolding start_maximize_to start_unmaximize
  toggle_maximize-focus m w = ground arith

  modify_found-focus :
      (m : WindowManager) (o : Option (ℕ × WindowState)) (f : WindowState → WindowState)
      → ((w : WindowState) → surface_if_focused (f w) ≡ surface_if_focused w)
      → focused_surface (modify_found m o f) ≡ focused_surface m
  modify_found-focus m none f h = refl
  modify_found-focus m (some (k, win)) f h = focused_surface-modify_key m k f h

  maximize_one-IsActive : (d : Desktop) (id : ℤ) → IsActive d → IsActive (maximize_one d id).0
  unfolding IsActive maximize_one toggle_maximize_by_id
  maximize_one-IsActive d id h =
      h
      ∙ sym (
          modify_found-focus d.wm (find_id d.wm id) (toggle_maximize (work_area d.wm))
            (toggle_maximize-focus d.wm))

  show_index-focus :
      (m : WindowManager) (idx : ℕ) → focused_surface (show_index m idx).1 ≡ focused_surface m
  unfolding update_alt_tab_selection focused_surface
  show_index-focus m idx =
      focused_surface-map_values (select (some idx >>= get_elem? m.focus_stack)) (λ j w. refl)
        (record m { alt_tab_idx = some idx })

  alt_tab_start-focus :
      (m : WindowManager) → focused_surface (alt_tab_start m).1 ≡ focused_surface m
  unfolding alt_tab_start
  alt_tab_start-focus m = elim (Bool-cases (ltb (visible_count m m.focus_stack) 2)) [
    | inl e ↦ rw e refl
    | inr e ↦ rw e (show_index-focus m (length m.focus_stack - 2))
  ]

  alt_tab_next-focus : (m : WindowManager) → focused_surface (alt_tab_next m).1 ≡ focused_surface m
  unfolding alt_tab_next
  alt_tab_next-focus m = elim (Bool-cases (length m.focus_stack == 0)) [
    | inl e ↦ rw e refl
    | inr e ↦ rw e (show_index-focus m (step_index (length m.focus_stack) m.alt_tab_idx))
  ]

  next_times-focus :
      (n : ℕ) (m : WindowManager) → focused_surface (next_times n m) ≡ focused_surface m
  next_times-focus zero m = refl
  next_times-focus (suc n) m = next_times-focus n (alt_tab_next m).1 ∙ alt_tab_next-focus m

  alt_tab_steps-IsActive : (d : Desktop) (n : ℕ) → IsActive d → IsActive (alt_tab_steps d n)
  unfolding IsActive alt_tab_steps
  alt_tab_steps-IsActive d n h = elim (Bool-cases (ltb 0 n)) [
    | inr e ↦ rw e h
    | inl e ↦ elim (Bool-cases (is_none d.wm.alt_tab_idx)) [
      | inl f ↦ rw (e, f) (h ∙ sym (alt_tab_start-focus d.wm))
      | inr f ↦ rw (e, f) (h ∙ sym (next_times-focus n d.wm))
    ]
  ]

  commit_if-IsActive :
      (has_keyboard commit : Bool) (d : Desktop)
      → IsActive d
      → IsActive (commit_if has_keyboard commit d).0
  unfolding commit_if
  commit_if-IsActive has_keyboard true d h = refocus-IsActive has_keyboard _
  commit_if-IsActive has_keyboard false d h = h

  close_one-IsActive :
      (has_keyboard : Bool) (d : Desktop) (id : ℤ)
      → IsActive d
      → IsActive (close_one has_keyboard d id).0
  unfolding close_one
  close_one-IsActive has_keyboard d id h = refocus-IsActive has_keyboard _

  minimize_one-IsActive :
      (has_keyboard : Bool) (d : Desktop) (id : ℤ)
      → IsActive d
      → IsActive (minimize_one has_keyboard d id).0
  unfolding minimize_one
  minimize_one-IsActive has_keyboard d id h = refocus-IsActive has_keyboard _

  activate_one-IsActive :
      (has_keyboard : Bool) (d : Desktop) (id : ℤ)
      → IsActive d
      → IsActive (activate_one has_keyboard d id).0
  unfolding activate_one
  activate_one-IsActive has_keyboard d id h = refocus-IsActive has_keyboard _

  show_one-IsActive :
      (has_keyboard : Bool) (d : Desktop) (id : ℤ)
      → IsActive d
      → IsActive (show_one has_keyboard d id).0
  unfolding show_one
  show_one-IsActive has_keyboard d id h = refocus-IsActive has_keyboard _

  dock_action-IsActive :
      (has_keyboard : Bool) (d : Desktop) (a : String × ℕ)
      → IsActive d
      → IsActive (dock_action has_keyboard d a).0
  unfolding dock_action
  dock_action-IsActive has_keyboard d (app_id, action) h = elim (Bool-cases (action == 2)) [
    | inl e ↦ rw e (
        each-IsActive (show_one has_keyboard) (show_one-IsActive has_keyboard) d
          (ids_for_app d.wm app_id) h)
    | inr e ↦ elim (Bool-cases (action == 5)) [
      | inl f ↦ rw (e, f) (refocus-IsActive has_keyboard _)
      | inr f ↦ rw (e, f) h
    ]
  ]

  -- If the active surface is that of the focused window when a frame begins, it still is after the
  -- actions of the user interface and the requests of the clients, whatever they are.
  pub process_wm_actions-IsActive :
      (frame : Frame) (a : Actions) (d : Desktop)
      → IsActive d
      → IsActive (process_wm_actions frame a d).0
  unfolding process_wm_actions
  process_wm_actions-IsActive frame a d h =
      let hk = frame.has_keyboard in
      let r1 = each (close_one hk) d a.close_ids in
      let r2 = then_each (minimize_one hk) a.minimize_ids r1 in
      let r3 = then_each maximize_one a.maximize_ids r2 in
      let r4 = then_each (activate_one hk) a.activate_ids r3 in
      let r5 = then_each (dock_action hk) a.dock_actions r4 in
      let d6 = alt_tab_steps r5.0 a.steps in
      let h1 = each-IsActive (close_one hk) (close_one-IsActive hk) d a.close_ids h in
      let h2 = each-IsActive (minimize_one hk) (minimize_one-IsActive hk) r1.0 a.minimize_ids h1 in
      let h3 = each-IsActive maximize_one maximize_one-IsActive r2.0 a.maximize_ids h2 in
      let h4 = each-IsActive (activate_one hk) (activate_one-IsActive hk) r3.0 a.activate_ids h3 in
      let h5 = each-IsActive (dock_action hk) (dock_action-IsActive hk) r4.0 a.dock_actions h4 in
      let h6 = alt_tab_steps-IsActive r5.0 a.steps h5 in
      let h7 = commit_if-IsActive hk a.commit d6 h6 in
      process_xdg_requests-IsActive frame (commit_if hk a.commit d6).0 h7

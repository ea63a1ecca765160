-- ===== src/Desktop/Active.antt =====
-- The compositor's active surface follows the window manager through a frame.
use Prim.Native.String.{String}
use de.Prelude.{
  ℕ, ◌≡◌, refl, sym, ap, ◌∙◌, Bool, Bool-cases, inl, inr, List, [], ◌∷◌, Option, none, some, ◌>>=◌,
  ◌==◌, if◌then◌else◌, is_some, ℤ, arith, last?,
}
use de.HashMap.{get, map_values, get-map_values, on_some}
use de.F64.{F64}
use de.Window.{WindowState, WorkArea}
use de.Window.Lifecycle.{start_maximize_to, start_unmaximize, start_fullscreen, start_unfullscreen}
use de.Wm.{WindowManager, work_area}
use de.Wm.Focus.{focused_surface, surface_if_focused, find_id, restore_by_id}
use de.Wm.Place.{minimize_by_id}
use de.Wm.Geometry.{modify_key, id_for_surface}
use de.Toplevel.{Call}
use de.Resize.{ResizeEdge, ActiveDrag}
use de.Desktop.{ProtocolIds, numbered_surfaces, Desktop}
use de.Desktop.Requests.{
  refocus, update_focused_surface, each, then_each, move_one, resize_one, maximize_request_one,
  maximize_by, maximize_found, set_maximize, fullscreen_request_one, fullscreen_by,
  fullscreen_found, set_fullscreen_to, target_of_screen, Screen, minimize_request_one,
  restore_request_one, with_id, start_drag, drained, Frame, process_xdg_requests,
}

module _ ⦃fl : F64⦄ ⦃ids : ProtocolIds⦄ where
  -- The active surface is that of the window that has the focus.
  unfoldable pub IsActive : Desktop → Type 0
  IsActive d = d.shells.active_surface ≡ focused_surface d.wm

  -- A change of the windows that keeps which of them can have the focus, and has it.
  module _ (g : ℕ → WindowState → WindowState)
      (keeps : (j : ℕ) (w : WindowState) → surface_if_focused (g j w) ≡ surface_if_focused w) where
    on_some-surface :
        (j : ℕ) (o : Option WindowState)
        → (on_some (g j) o >>= surface_if_focused) ≡ (o >>= surface_if_focused)
    on_some-surface j none = refl
    on_some-surface j (some w) = keeps j w

    surface_at :
        (o : Option ℕ) (ws : List (ℕ × WindowState))
        → (o >>= λ j. get j (map_values g ws) >>= surface_if_focused)
          ≡ (o >>= λ j. get j ws >>= surface_if_focused)
    surface_at none ws = refl
    surface_at (some j) ws =
        ap (λ o. o >>= surface_if_focused) (get-map_values j g ws) ∙ on_some-surface j (get j ws)

    pub focused_surface-map_values :
        (m : WindowManager)
        → focused_surface (record m { windows = map_values g m.windows }) ≡ focused_surface m
    unfolding focused_surface
    focused_surface-map_values m = surface_at (last? m.focus_stack) m.windows

  pub focused_surface-modify_key :
      (m : WindowManager) (k : ℕ) (f : WindowState → WindowState)
      → ((w : WindowState) → surface_if_focused (f w) ≡ surface_if_focused w)
      → focused_surface (modify_key m k f) ≡ focused_surface m
  unfolding modify_key
  focused_surface-modify_key m k f h =
      focused_surface-map_values (λ j w. if j == k then f w else w) (λ j w. one j w) m
    where
      one :
          (j : ℕ) (w : WindowState)
          → surface_if_focused (if j == k then f w else w) ≡ surface_if_focused w
      one j w = elim (Bool-cases (j == k)) [ inl e ↦ rw e (h w) | inr e ↦ rw e refl ]

  pub refocus-IsActive : (has_keyboard : Bool) (d : Desktop) → IsActive (refocus has_keyboard d).0
  unfolding IsActive refocus update_focused_surface
  refocus-IsActive has_keyboard d = refl

  pub each-IsActive {ℓ} :
      {A : Type ℓ} (f : Desktop → A → Desktop × List Call)
      → ((d : Desktop) (a : A) → IsActive d → IsActive (f d a).0)
      → (d : Desktop) (queue : List A) → IsActive d
      → IsActive (each f d queue).0
  each-IsActive f keep d [] h = h
  each-IsActive f keep d (a ∷ rest) h = each-IsActive f keep (f d a).0 rest (keep d a h)

  set_maximize-focus :
      (area : WorkArea) (want : Bool) (w : WindowState)
      → surface_if_focused (set_maximize area want w) ≡ surface_if_focused w
  unfolding start_maximize_to start_unmaximize
  set_maximize-focus area want w = ground arith

  set_fullscreen_to-focus :
      (target : ℤ × ℤ × ℤ × ℤ) (want : Bool) (name : Option String) (w : WindowState)
      → surface_if_focused (set_fullscreen_to target want name w) ≡ surface_if_focused w
  unfolding start_fullscreen start_unfullscreen
  set_fullscreen_to-focus (x, y, w', h) want name w = ground arith

  maximize_by-IsActive :
      (d : Desktop) (surface : ℕ) (want : Bool) (o : Option ℤ)
      → IsActive d
      → IsActive (maximize_by d surface want o).0
  unfolding IsActive
  maximize_by-IsActive d surface want none h = h
  maximize_by-IsActive d surface want (some id) h = found (find_id d.wm id)
    where
      found : (o : Option (ℕ × WindowState)) → IsActive (maximize_found d surface want id o).0
      found none = h
      found (some (k, win)) =
          h
          ∙ sym (
              focused_surface-modify_key d.wm k (set_maximize (work_area d.wm) want)
                (set_maximize-focus (work_area d.wm) want))

  fullscreen_by-IsActive :
      (screen : ℕ → Screen) (d : Desktop) (surface : ℕ) (want : Bool) (name : Option String)
      (o : Option ℤ)
      → IsActive d
      → IsActive (fullscreen_by screen d surface want name o).0
  unfolding IsActive
  fullscreen_by-IsActive screen d surface want name none h = h
  fullscreen_by-IsActive screen d surface want name (some id) h = found (find_id d.wm id)
    where
      target : ℤ × ℤ × ℤ × ℤ
      target = target_of_screen d.wm (screen surface)

      found :
          (o : Option (ℕ × WindowState))
          → IsActive (fullscreen_found d surface target want name id o).0
      found none = h
      found (some (k, win)) =
          h
          ∙ sym (
              focused_surface-modify_key d.wm k (set_fullscreen_to target want name)
                (set_fullscreen_to-focus target want name))

  with_id-IsActive :
      (has_keyboard : Bool) (d : Desktop) (f : WindowManager → ℤ → WindowManager) (o : Option ℤ)
      → IsActive d
      → IsActive (with_id has_keyboard d f o).0
  with_id-IsActive has_keyboard d f none h = h
  with_id-IsActive has_keyboard d f (some id) h =
      refocus-IsActive has_keyboard (record d { wm = f d.wm id })

  start_drag-IsActive :
      (d : Desktop) (o : Option ActiveDrag) → IsActive d → IsActive (start_drag d o)
  unfolding IsActive
  start_drag-IsActive d o h = elim (Bool-cases (is_some d.active_drag)) [
    | inl e ↦ rw e h
    | inr e ↦ rw e h
  ]

  restore_request_one-IsActive :
      (has_keyboard : Bool) (d : Desktop) (s : ℕ)
      → IsActive d
      → IsActive (restore_request_one has_keyboard d s).0
  unfolding restore_request_one
  restore_request_one-IsActive has_keyboard d s =
      with_id-IsActive has_keyboard d restore_by_id (id_for_surface d.wm s)

  minimize_request_one-IsActive :
      (has_keyboard : Bool) (d : Desktop) (s : ℕ)
      → IsActive d
      → IsActive (minimize_request_one has_keyboard d s).0
  unfolding minimize_request_one
  minimize_request_one-IsActive has_keyboard d s =
      with_id-IsActive has_keyboard d minimize_by_id (id_for_surface d.wm s)

  fullscreen_request_one-IsActive :
      (screen : ℕ → Screen) (d : Desktop) (r : ℕ × Bool × Option String)
      → IsActive d
      → IsActive (fullscreen_request_one screen d r).0
  unfolding fullscreen_request_one
  fullscreen_request_one-IsActive screen d (s, want, name) =
      fullscreen_by-IsActive screen d s want name (id_for_surface d.wm s)

  maximize_request_one-IsActive :
      (d : Desktop) (r : ℕ × Bool) → IsActive d → IsActive (maximize_request_one d r).0
  unfolding maximize_request_one
  maximize_request_one-IsActive d (s, want) = maximize_by-IsActive d s want (id_for_surface d.wm s)

  resize_one-IsActive :
      (buffer : ℕ → ℤ × ℤ) (d : Desktop) (r : ℕ × ResizeEdge)
      → IsActive d
      → IsActive (resize_one buffer d r).0
  unfolding resize_one
  resize_one-IsActive buffer d (s, edge) = start_drag-IsActive d _

  move_one-IsActive : (d : Desktop) (s : ℕ) → IsActive d → IsActive (move_one d s).0
  unfolding move_one
  move_one-IsActive d s = start_drag-IsActive d _

  -- If the active surface is that of the focused window when a frame begins, it still is after all
  -- that the clients asked for.
  pub process_xdg_requests-IsActive :
      (frame : Frame) (d : Desktop) → IsActive d → IsActive (process_xdg_requests frame d).0
  unfolding process_xdg_requests IsActive
  process_xdg_requests-IsActive frame d h =
      let s = d.shells in
      let r1 = each move_one (record d { shells = drained s }) s.pending_xdg_move in
      let r2 = then_each (resize_one frame.buffer) s.pending_xdg_resize r1 in
      let r3 = then_each maximize_request_one s.pending_xdg_maximize r2 in
      let r4 = then_each (fullscreen_request_one frame.screen) s.pending_xdg_fullscreen r3 in
      let r5 = then_each (minimize_request_one frame.has_keyboard) s.pending_xdg_minimize r4 in
      let h1 =
        each-IsActive move_one move_one-IsActive (record d { shells = drained s })
          s.pending_xdg_move h in
      let h2 =
        each-IsActive (resize_one frame.buffer) (resize_one-IsActive frame.buffer) r1.0
          s.pending_xdg_resize h1 in
      let h3 =
        each-IsActive maximize_request_one maximize_request_one-IsActive r2.0 s.pending_xdg_maximize
          h2 in
      let h4 =
        each-IsActive (fullscreen_request_one frame.screen)
          (fullscreen_request_one-IsActive frame.screen) r3.0 s.pending_xdg_fullscreen h3 in
      let h5 =
        each-IsActive (minimize_request_one frame.has_keyboard)
          (minimize_request_one-IsActive frame.has_keyboard) r4.0 s.pending_xdg_minimize h4 in
      each-IsActive (restore_request_one frame.has_keyboard)
        (restore_request_one-IsActive frame.has_keyboard) r5.0 s.pending_xdg_restore h5

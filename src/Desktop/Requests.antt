-- ===== src/Desktop/Requests.antt =====
-- `process_xdg_requests` of crates/compositor-slint/src/renderer.rs: what the clients asked for since
-- the last frame, with the helpers that tell the clients of focus, stacking, state and size.
use Prim.Native.String.{String}
use de.Prelude.{
  ℕ, Bool, true, false, not, ◌&&◌, ◌||◌, List, [], ◌∷◌, ◌++◌, Option, none, some, if◌then◌else◌,
  is_some, ℤ, pos, map,
}
use mathlib.Core.List.{reverse}
use de.F64.{F64}
use de.Window.{WindowState, WorkArea}
use de.Window.Lifecycle.{start_maximize_to, start_unmaximize, start_fullscreen, start_unfullscreen}
use de.Wm.{WindowManager, work_area}
use de.Wm.Focus.{find_id, focused_surface, restore_by_id}
use de.Wm.Place.{minimize_by_id}
use de.Wm.Geometry.{id_for_surface, modify_key}
use de.Wm.Pointer.{windows_sorted}
use de.Resize.{ResizeEdge, ActiveDrag, resize, move}
use de.Toplevel.{
  Toplevel, X11Surface, Call, set_focus, set_maximized, set_fullscreen, set_hidden, close_toplevel,
  close_x11, configure_toplevel, resize_x11, Shells, find_toplevel, x11_of,
}
use de.Toplevel.Focus.{
  for_wl_surface, raise_x11_window_for_wl_surface, sync_x11_stacking_order_top_to_bottom,
}
use de.Toplevel.X11.{position_of}
use de.Desktop.{ProtocolIds, numbered_surfaces, Desktop}
use de.Desktop.Drag.{window_of}

-- The first toplevel of a surface is told through xdg-shell, or through X11.
abbrev pub tell_close : ℕ → Option Toplevel → List Call
tell_close surface none = []
tell_close surface (some t) =
    if t.toplevel
    then close_toplevel surface ∷ []
    else (elim (t.x11_surface) [ none ↦ [] | some x ↦ close_x11 x.window_id ∷ [] ])

unfoldable pub send_xdg_close : Shells → ℕ → List Call
send_xdg_close s surface = tell_close surface (find_toplevel surface s.toplevels)

abbrev pub tell_size : ℕ → (w h : ℤ) → Option Toplevel → List Call
tell_size surface w h none = []
tell_size surface w h (some t) =
    if t.toplevel
    then configure_toplevel surface w h ∷ []
    else (elim (t.x11_surface) [ none ↦ [] | some x ↦ resize_x11 x.window_id w h ∷ [] ])

unfoldable pub send_size : Shells → ℕ → (w h : ℤ) → List Call
send_size s surface w h = tell_size surface w h (find_toplevel surface s.toplevels)

abbrev pub told : (ℕ → Bool → Call) → ℕ → Option Bool → List Call
told call window_id none = []
told call window_id (some v) = call window_id v ∷ []

abbrev pub tell_state : (maximized fullscreen hidden : Option Bool) → Option X11Surface → List Call
tell_state maximized fullscreen hidden none = []
tell_state maximized fullscreen hidden (some x) =
    told set_maximized x.window_id maximized
    ++ (told set_fullscreen x.window_id fullscreen ++ told set_hidden x.window_id hidden)

unfoldable pub sync_x11_window_state :
    Shells → ℕ → (maximized fullscreen hidden : Option Bool) → List Call
sync_x11_window_state s surface maximized fullscreen hidden =
    tell_state maximized fullscreen hidden (x11_of (find_toplevel surface s.toplevels))

abbrev pub is_maximized {ℓ} : {A : Type ℓ} → (A → Bool) → Option (ℕ × A) → Bool
is_maximized p none = false
is_maximized p (some (k, w)) = p w

module _ ⦃fl : F64⦄ ⦃ids : ProtocolIds⦄ where
  open fl use {Float, of_i32, fsub}

  abbrev pub give_focus : (has_keyboard : Bool) → Shells → Option ℕ → List Call
  give_focus false s surface = []
  give_focus true s none = set_focus none ∷ []
  give_focus true s (some surface) = set_focus (some (for_wl_surface s surface)) ∷ []

  -- The active surface and the keyboard's focus follow the window manager.
  unfoldable pub update_focused_surface : (has_keyboard : Bool) → Desktop → Desktop × List Call
  update_focused_surface has_keyboard d =
      let s = record d.shells { active_surface = focused_surface d.wm } in
      (record d { shells = s }, give_focus has_keyboard s (focused_surface d.wm))

  abbrev pub raise_focused : Shells → Option ℕ → List Call
  raise_focused s none = []
  raise_focused s (some surface) = raise_x11_window_for_wl_surface s surface

  unfoldable pub sync_x11_stacking_order : Desktop → List Call
  sync_x11_stacking_order d =
      raise_focused d.shells (focused_surface d.wm)
      ++ sync_x11_stacking_order_top_to_bottom d.shells
          (reverse (map (λ (w : WindowState). w.surface) (windows_sorted d.wm)))

  -- The two calls that follow each change of the focus.
  unfoldable pub refocus : (has_keyboard : Bool) → Desktop → Desktop × List Call
  unfolding update_focused_surface sync_x11_stacking_order
  refocus has_keyboard d =
      let (d', calls) = update_focused_surface has_keyboard d in
      (d', calls ++ sync_x11_stacking_order d')

  -- A loop over a queue: the state goes on, and the calls are gathered.
  abbrev pub each {ℓ} :
      {A : Type ℓ} → (Desktop → A → Desktop × List Call) → Desktop → List A → Desktop × List Call
  each f d [] = (d, [])
  each f d (a ∷ as') =
      let (d', calls) = f d a in let (d'', more) = each f d' as' in (d'', calls ++ more)

  abbrev pub move_from : Desktop → ℕ → Option ℕ → Option Toplevel → Option ActiveDrag
  move_from d surface none t = none
  move_from d surface (some idx) none = none
  move_from d surface (some idx) (some t) =
      let fixed =
        is_maximized (λ (w : WindowState). w.maximized || w.fullscreen) (window_of d.wm surface) in
      some (
        move idx (fsub d.pointer_pos.0 (of_i32 t.x)) (fsub d.pointer_pos.1 (of_i32 t.y))
          (if fixed then some d.pointer_pos else none))

  -- A request is skipped while a drag goes on.
  abbrev pub start_drag : Desktop → Option ActiveDrag → Desktop
  start_drag d drag = if is_some d.active_drag then d else record d { active_drag = drag }

  unfoldable pub move_one : Desktop → ℕ → Desktop × List Call
  move_one d surface = (
    start_drag d (
        move_from d surface (position_of surface d.shells.toplevels)
          (find_toplevel surface d.shells.toplevels)),
    [],
  )

  abbrev pub size_of_window : Option (ℕ × WindowState) → ℤ × ℤ → ℤ × ℤ
  size_of_window none size = size
  size_of_window (some (k, w)) size = (w.w, w.h)

  -- `buffer` is the size of a toplevel's buffer, for one that has no window.
  abbrev pub resize_from :
      (buffer : ℕ → ℤ × ℤ)
      → Desktop
      → ℕ
      → ResizeEdge
      → Option ℕ
      → Option Toplevel
      → Option ActiveDrag
  resize_from buffer d surface edge none t = none
  resize_from buffer d surface edge (some idx) none = none
  resize_from buffer d surface edge (some idx) (some t) =
      let size = size_of_window (window_of d.wm surface) (buffer surface) in
      some (
        resize idx edge d.pointer_pos.0 d.pointer_pos.1
          (record { x = t.x; y = t.y; w = size.0; h = size.1 }) none none)

  unfoldable pub resize_one : (buffer : ℕ → ℤ × ℤ) → Desktop → ℕ × ResizeEdge → Desktop × List Call
  resize_one buffer d (surface, edge) = (
    start_drag d (
        resize_from buffer d surface edge (position_of surface d.shells.toplevels)
          (find_toplevel surface d.shells.toplevels)),
    [],
  )

  abbrev pub set_maximize : WorkArea → (want : Bool) → WindowState → WindowState
  set_maximize area want win =
      if want && not win.maximized
      then start_maximize_to win area
      else if not want && win.maximized
      then start_unmaximize win
      else win

  abbrev pub maximize_found :
      Desktop → ℕ → (want : Bool) → ℤ → Option (ℕ × WindowState) → Desktop × List Call
  maximize_found d surface want id none = (d, [])
  maximize_found d surface want id (some (k, win)) =
      let wm = modify_key d.wm k (set_maximize (work_area d.wm) want) in
      let size = size_of_window (find_id wm id) (pos 800, pos 600) in
      (record d { wm = wm }, send_size d.shells surface size.0 size.1)

  abbrev pub maximize_by : Desktop → ℕ → (want : Bool) → Option ℤ → Desktop × List Call
  maximize_by d surface want none = (d, [])
  maximize_by d surface want (some id) = maximize_found d surface want id (find_id d.wm id)

  unfoldable pub maximize_request_one : Desktop → ℕ × Bool → Desktop × List Call
  maximize_request_one d (surface, want) = maximize_by d surface want (id_for_surface d.wm surface)

  -- The place and the logical size of the output that a toplevel goes to, if there is one.
  abbrev pub Screen : Type 0
  Screen = Option ((ℤ × ℤ) × Option (ℤ × ℤ))

  abbrev pub target_of_screen : WindowManager → Screen → ℤ × ℤ × ℤ × ℤ
  target_of_screen m none = (pos 0, pos 0, m.output_w, m.output_h)
  target_of_screen m (some ((x, y), none)) = (x, y, m.output_w, m.output_h)
  target_of_screen m (some ((x, y), some (w, h))) = (x, y, w, h)

  abbrev pub set_fullscreen_to :
      ℤ × ℤ × ℤ × ℤ → (want : Bool) → Option String → WindowState → WindowState
  set_fullscreen_to (x, y, w, h) want output_name win =
      if want
      then start_fullscreen win x y w h output_name
      else if win.fullscreen
      then start_unfullscreen win
      else win

  abbrev pub fullscreen_found :
      Desktop
      → ℕ
      → ℤ × ℤ × ℤ × ℤ
      → (want : Bool) → Option String
      → ℤ
      → Option (ℕ × WindowState)
      → Desktop × List Call
  fullscreen_found d surface target want output_name id none = (d, [])
  fullscreen_found d surface target want output_name id (some (k, win)) =
      let wm = modify_key d.wm k (set_fullscreen_to target want output_name) in
      let size = size_of_window (find_id wm id) (target.2, target.3) in
      (
        record d { wm = wm },
        send_size d.shells surface size.0 size.1
            ++ sync_x11_window_state d.shells surface none (some want) none,
      )

  abbrev pub fullscreen_by :
      (screen : ℕ → Screen)
      → Desktop
      → ℕ
      → (want : Bool) → Option String
      → Option ℤ
      → Desktop × List Call
  fullscreen_by screen d surface want output_name none = (d, [])
  fullscreen_by screen d surface want output_name (some id) =
      fullscreen_found d surface (target_of_screen d.wm (screen surface)) want output_name id
        (find_id d.wm id)

  unfoldable pub fullscreen_request_one :
      (screen : ℕ → Screen) → Desktop → ℕ × Bool × Option String → Desktop × List Call
  fullscreen_request_one screen d (surface, want, output_name) =
      fullscreen_by screen d surface want output_name (id_for_surface d.wm surface)

  abbrev pub with_id :
      (has_keyboard : Bool)
      → Desktop
      → (WindowManager → ℤ → WindowManager)
      → Option ℤ
      → Desktop × List Call
  with_id has_keyboard d f none = (d, [])
  with_id has_keyboard d f (some id) = refocus has_keyboard (record d { wm = f d.wm id })

  unfoldable pub minimize_request_one : (has_keyboard : Bool) → Desktop → ℕ → Desktop × List Call
  minimize_request_one has_keyboard d surface =
      with_id has_keyboard d minimize_by_id (id_for_surface d.wm surface)

  unfoldable pub restore_request_one : (has_keyboard : Bool) → Desktop → ℕ → Desktop × List Call
  restore_request_one has_keyboard d surface =
      with_id has_keyboard d restore_by_id (id_for_surface d.wm surface)

  -- The outside that a frame sees.
  pub record Frame : Type 0 where
    pub has_keyboard : Bool
    pub buffer : ℕ → ℤ × ℤ
    pub screen : ℕ → Screen

  abbrev pub then_each {ℓ} :
      {A : Type ℓ}
      → (Desktop → A → Desktop × List Call)
      → List A
      → Desktop × List Call
      → Desktop × List Call
  then_each f queue (d, calls) = let (d', more) = each f d queue in (d', calls ++ more)

  abbrev pub drained : Shells → Shells
  drained s = record s {
    pending_xdg_move = [];
    pending_xdg_resize = [];
    pending_xdg_maximize = [];
    pending_xdg_fullscreen = [];
    pending_xdg_minimize = [];
    pending_xdg_restore = [];
  }

  -- The queues are drained one after another; no handler of a request adds to one.
  unfoldable pub process_xdg_requests : Frame → Desktop → Desktop × List Call
  unfolding move_one resize_one maximize_request_one fullscreen_request_one minimize_request_one
      restore_request_one
  process_xdg_requests frame d =
      let s = d.shells in
      then_each (restore_request_one frame.has_keyboard) s.pending_xdg_restore (
        then_each (minimize_request_one frame.has_keyboard) s.pending_xdg_minimize (
          then_each (fullscreen_request_one frame.screen) s.pending_xdg_fullscreen (
            then_each maximize_request_one s.pending_xdg_maximize (
              then_each (resize_one frame.buffer) s.pending_xdg_resize
                (each move_one (record d { shells = drained s }) s.pending_xdg_move)))))

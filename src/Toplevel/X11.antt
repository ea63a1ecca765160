-- ===== src/Toplevel/X11.antt =====
-- crates/compositor-slint/src/wayland/xwayland.rs: the handlers of X11 windows. `keyboard` is what
-- the seat tells of its keyboard, and `handle` the new handle of the foreign-toplevel list.
mod Stacking
use de.Prelude.{
  ℕ, zero, suc, ◌%◌, Bool, true, false, not, ◌||◌, List, [], ◌∷◌, ◌++◌, Option, none, some, ◌==◌,
  ltb, if◌then◌else◌, is_some_and, length, push, ℤ, pos, ltb_ℤ, max_ℤ, min_ℤ,
}
use de.Prelude.I32
use de.Resize.{ResizeEdge}
use de.Toplevel.{
  X11Surface, Toplevel, Keyboard, Call, set_mapped, set_maximized, set_fullscreen, set_hidden,
  configure_x11, set_focus, set_activated, new_foreign, remove_foreign, x11, Shells, find_toplevel,
  is_tracked, without_surface, update_toplevel, last_surface, with_surface,
}
use de.Toplevel.Focus.{focus_new_surface_if_allowed, raise_x11_window}
pub use de.Toplevel.X11.Stacking.{
  position_of, is_x11_id, position_of_id, remove_at, insert_at, or_zero, place_after, restack_above,
}
unfoldable pub use de.Toplevel.X11.Stacking.{restack}

-- `100 + cascade * 40`
unfoldable pub cascade_at : List Toplevel → ℤ
cascade_at ts = I32.add (pos 100) (I32.mul (I32.of_u32 (length ts % 4294967296)) (pos 40))

abbrev pub push_toplevel : Shells → Toplevel → Shells
push_toplevel s t = record s { toplevels = s.toplevels ++ t ∷ [] }

unfoldable pub managed : Shells → X11Surface → (surface : ℕ) → Option ℕ → Toplevel
unfolding cascade_at
managed s window surface foreign_handle = record {
  surface = surface;
  toplevel = false;
  x11_surface = some window;
  x = cascade_at s.toplevels;
  y = cascade_at s.toplevels;
  csd = not window.is_decorated;
  foreign_handle = foreign_handle;
  last_advertised_title = window.title;
  last_advertised_app_id = window.app_class;
  appmenu = none;
}

-- What a new window that takes the focus asks for: the answer of the focus rules, then a raise.
abbrev pub raise_if_focused : X11Surface → Shells × Bool × List Call → Shells × List Call
raise_if_focused window (s, granted, calls) =
    (s, calls ++ (if granted then raise_x11_window s window else []))

abbrev pub announced : List Call → Shells × List Call → Shells × List Call
announced calls (s, more) = (s, calls ++ more)

unfoldable pub surface_associated :
    Keyboard → (handle : ℕ) → Shells → (wl_surface : ℕ) → X11Surface → Shells × List Call
unfolding managed focus_new_surface_if_allowed raise_x11_window
surface_associated keyboard handle s wl_surface window =
    if is_tracked wl_surface s.toplevels || not window.is_mapped
    then (s, [])
    else if window.is_override_redirect
    then (push_toplevel s (managed s window wl_surface none), [])
    else announced (new_foreign handle window.title window.app_class ∷ []) (
        raise_if_focused window (
          focus_new_surface_if_allowed keyboard
            (push_toplevel s (managed s window wl_surface (some handle))) wl_surface))

-- The part of `map_window_request` for a window whose surface is known.
unfoldable pub map_surface :
    Keyboard → (handle : ℕ) → Shells → (wl_surface : ℕ) → X11Surface → Shells × List Call
unfolding managed focus_new_surface_if_allowed raise_x11_window
map_surface keyboard handle s wl_surface window =
    if is_tracked wl_surface s.toplevels
    then (s, [])
    else announced (new_foreign handle window.title window.app_class ∷ []) (
        raise_if_focused window (
          focus_new_surface_if_allowed keyboard
            (push_toplevel s (managed s window wl_surface (some handle))) wl_surface))

-- `mapped` tells whether `set_mapped(true)` succeeds.
unfoldable pub map_window_request :
    Keyboard → (handle : ℕ) → (mapped : Bool) → Shells → X11Surface → Shells × List Call
unfolding map_surface
map_window_request keyboard handle mapped s window =
    if not mapped
    then (s, set_mapped window.window_id true ∷ [])
    else announced
        (set_mapped window.window_id true ∷ configure_x11 window.window_id window.geometry ∷ [])
        (with_surface window.wl_surface (s, [])
          (λ wl_surface. map_surface keyboard handle s wl_surface window))

abbrev pub unmanaged : X11Surface → (surface : ℕ) → Toplevel
unmanaged window surface = record {
  surface = surface;
  toplevel = false;
  x11_surface = some window;
  x = window.geometry.0;
  y = window.geometry.1;
  csd = true;
  foreign_handle = none;
  last_advertised_title = [];
  last_advertised_app_id = [];
  appmenu = none;
}

unfoldable pub mapped_override_redirect_window : Shells → X11Surface → Shells
mapped_override_redirect_window s window = with_surface window.wl_surface s (λ wl_surface.
    if is_tracked wl_surface s.toplevels then s else push_toplevel s (unmanaged window wl_surface))

abbrev pub withdraw : Option Toplevel → List Call
withdraw none = []
withdraw (some t) = elim t.foreign_handle [ none ↦ [] | some h ↦ remove_foreign h ∷ [] ]

abbrev pub is_active : Shells → ℕ → Bool
is_active s surface = is_some_and s.active_surface (λ a. a == surface)

-- The surface is dropped, and if it was active, the last toplevel that is left becomes active.
abbrev pub untrack : Shells → ℕ → Shells
untrack s wl_surface = record s {
  destroyed_surfaces = push s.destroyed_surfaces wl_surface;
  toplevels = without_surface wl_surface s.toplevels;
  active_surface =
      if is_active s wl_surface
      then last_surface (without_surface wl_surface s.toplevels)
      else s.active_surface;
}

unfoldable pub unmapped_window : Shells → X11Surface → Shells × List Call
unmapped_window s window =
    let hide = if window.is_override_redirect then [] else set_mapped window.window_id false ∷ [] in
    with_surface window.wl_surface (s, hide)
      (λ wl_surface.
        (untrack s wl_surface, withdraw (find_toplevel wl_surface s.toplevels) ++ hide))

unfoldable pub destroyed_window : Shells → X11Surface → Shells × List Call
destroyed_window s window =
    with_surface window.wl_surface (s, [])
      (λ wl_surface. (
        if is_tracked wl_surface s.toplevels then untrack s wl_surface else s,
        withdraw (find_toplevel wl_surface s.toplevels),
      ))

-- One of the two clamps of `configure_request` in one dimension; a hint of 0 is none.
abbrev pub at_least : Option ℤ → ℤ → ℤ
at_least none v = v
at_least (some m) v = if ltb_ℤ (pos 0) m then max_ℤ v m else v

abbrev pub at_most : Option ℤ → ℤ → ℤ
at_most none v = v
at_most (some m) v = if ltb_ℤ (pos 0) m then min_ℤ v m else v

abbrev pub width_of : Option (ℤ × ℤ) → Option ℤ
width_of none = none
width_of (some size) = some size.0

abbrev pub height_of : Option (ℤ × ℤ) → Option ℤ
height_of none = none
height_of (some size) = some size.1

abbrev pub requested : Option ℕ → ℤ → ℤ
requested none old = old
requested (some v) old = I32.of_u32 v

-- The answer is the geometry that the window is configured with; `w` and `h` are `u32`.
unfoldable pub configure_request : X11Surface → (w h : Option ℕ) → ℤ × ℤ × ℤ × ℤ
configure_request window w h = (
  window.geometry.0,
  window.geometry.1,
  at_most (width_of window.max_size)
      (at_least (width_of window.min_size) (requested w window.geometry.2)),
  at_most (height_of window.max_size)
      (at_least (height_of window.min_size) (requested h window.geometry.3)),
)

abbrev pub focus_on : Keyboard → X11Surface → List Call
focus_on none window = []
focus_on (some focus) window = set_focus (some (x11 window)) ∷ []

unfoldable pub active_window_request : Keyboard → Shells → X11Surface → Shells × List Call
unfolding raise_x11_window
active_window_request keyboard s window =
    with_surface window.wl_surface (s, [])
      (λ wl_surface. (
        record s { active_surface = some wl_surface },
        focus_on keyboard window ++ set_activated window.window_id ∷ raise_x11_window s window,
      ))

unfoldable pub configure_notify :
    Shells → X11Surface → (geometry : ℤ × ℤ × ℤ × ℤ) → (above : Option ℕ) → Shells
unfolding restack
configure_notify s window geometry above =
    if not window.is_override_redirect
    then s
    else with_surface window.wl_surface s (λ wl_surface.
      let moved =
        update_toplevel wl_surface (λ t. record t { x = geometry.0; y = geometry.1 }) s.toplevels in
      record s { toplevels = restack_above wl_surface above moved })

-- The eight edges are the same as those of xdg-shell.
unfoldable pub resize_request : Shells → X11Surface → ResizeEdge → Shells
resize_request s window edges = with_surface window.wl_surface s (λ wl_surface. record s {
  pending_xdg_resize = s.pending_xdg_resize ++ (wl_surface, edges) ∷ [];
})

unfoldable pub move_request : Shells → X11Surface → Shells
move_request s window =
    with_surface window.wl_surface s
      (λ wl_surface. record s { pending_xdg_move = push s.pending_xdg_move wl_surface })

unfoldable pub maximize_request : Bool → Shells → X11Surface → Shells × List Call
maximize_request want s window = (
  with_surface window.wl_surface s (λ wl_surface. record s {
    pending_xdg_maximize = s.pending_xdg_maximize ++ (wl_surface, want) ∷ [];
  }),
  set_maximized window.window_id want ∷ [],
)

unfoldable pub fullscreen_request : Bool → Shells → X11Surface → Shells × List Call
fullscreen_request want s window = (
  with_surface window.wl_surface s (λ wl_surface. record s {
    pending_xdg_fullscreen = s.pending_xdg_fullscreen ++ (wl_surface, want, none) ∷ [];
  }),
  set_fullscreen window.window_id want ∷ [],
)

unfoldable pub minimize_request : Shells → X11Surface → Shells × List Call
minimize_request s window = (
  with_surface window.wl_surface s
      (λ wl_surface. record s { pending_xdg_minimize = push s.pending_xdg_minimize wl_surface }),
  set_hidden window.window_id true ∷ [],
)

unfoldable pub unminimize_request : Shells → X11Surface → Shells × List Call
unminimize_request s window = (
  with_surface window.wl_surface s
      (λ wl_surface. record s { pending_xdg_restore = push s.pending_xdg_restore wl_surface }),
  set_hidden window.window_id false ∷ [],
)

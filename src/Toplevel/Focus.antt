-- ===== src/Toplevel/Focus.antt =====
-- Keyboard focus and X11 stacking of crates/compositor-slint/src/wayland_state.rs and
-- wayland/xwayland.rs.
use de.Prelude.{
  ℕ, Bool, true, false, ◌&&◌, ◌||◌, List, [], ◌∷◌, ◌++◌, Option, none, some, ◌==◌, if◌then◌else◌,
  is_some, is_some_and,
}
use de.Toplevel.{
  X11Surface, Toplevel, KeyboardFocusTarget, wayland, x11, Keyboard, Call, set_focus, set_activated,
  raise_window, update_stacking_order, Shells, find_toplevel, x11_surface_for_wl_surface,
}

abbrev pub target_of : ℕ → Option X11Surface → KeyboardFocusTarget
target_of surface none = wayland surface
target_of surface (some x) = x11 x

unfoldable pub for_wl_surface : Shells → ℕ → KeyboardFocusTarget
for_wl_surface s surface = target_of surface (x11_surface_for_wl_surface s surface)

abbrev pub target_surface : KeyboardFocusTarget → Option ℕ
target_surface (wayland surface) = some surface
target_surface (x11 x) = x.wl_surface

abbrev pub matches_wl_surface : KeyboardFocusTarget → ℕ → Bool
matches_wl_surface target surface = is_some_and (target_surface target) (λ focus. focus == surface)

unfoldable pub raise_x11_window : Shells → X11Surface → List Call
raise_x11_window s x = if s.xwm then raise_window x.window_id ∷ [] else []

abbrev pub raise_found : Shells → Option X11Surface → List Call
raise_found s none = []
raise_found s (some x) = raise_x11_window s x

unfoldable pub raise_x11_window_for_wl_surface : Shells → ℕ → List Call
unfolding raise_x11_window
raise_x11_window_for_wl_surface s surface = raise_found s (x11_surface_for_wl_surface s surface)

abbrev pub add_x11 : Option X11Surface → List ℕ → List ℕ
add_x11 none rest = rest
add_x11 (some x) rest = x.window_id ∷ rest

-- `filter_map(|surface| self.x11_surface_for_wl_surface(surface))`
abbrev pub with_x11 : Shells → List ℕ → List ℕ
with_x11 s [] = []
with_x11 s (surface ∷ rest) = add_x11 (x11_surface_for_wl_surface s surface) (with_x11 s rest)

abbrev pub stack_calls : Bool → List ℕ → List Call
stack_calls xwm [] = []
stack_calls xwm (w ∷ ws) = if xwm then update_stacking_order (w ∷ ws) ∷ [] else []

unfoldable pub sync_x11_stacking_order_top_to_bottom : Shells → List ℕ → List Call
sync_x11_stacking_order_top_to_bottom s surfaces = stack_calls s.xwm (with_x11 s surfaces)

abbrev pub activate : KeyboardFocusTarget → List Call
activate (wayland surface) = []
activate (x11 x) = set_activated x.window_id ∷ []

abbrev pub focus_calls : Keyboard → KeyboardFocusTarget → List Call
focus_calls none target = []
focus_calls (some focus) target = activate target ++ set_focus (some target) ∷ []

abbrev pub is_or : Toplevel → Bool
is_or t = is_some_and t.x11_surface (λ x. x.is_override_redirect)

abbrev pub activate_found : Keyboard → Shells → ℕ → Option Toplevel → Shells × Bool × List Call
activate_found keyboard s surface none = (s, false, [])
activate_found keyboard s surface (some t) = if is_or t then (s, false, []) else (
  record s { active_surface = some surface },
  true,
  focus_calls keyboard (for_wl_surface s surface),
)

-- The answer tells whether the focus is granted.
unfoldable pub focus_surface_for_activation : Keyboard → Shells → ℕ → Shells × Bool × List Call
unfolding for_wl_surface
focus_surface_for_activation keyboard s surface =
    activate_found keyboard s surface (find_toplevel surface s.toplevels)

abbrev pub has_focus : Keyboard → Bool
has_focus none = false
has_focus (some focus) = is_some focus

unfoldable pub focus_new_surface_if_allowed : Keyboard → Shells → ℕ → Shells × Bool × List Call
unfolding focus_surface_for_activation
focus_new_surface_if_allowed keyboard s surface =
    if is_some s.active_surface || has_focus keyboard
    then (s, false, [])
    else focus_surface_for_activation keyboard s surface

-- The gate on the clipboard: `xwm` may read it only if the focus is on one of its windows.
abbrev pub owned_by : ℕ → KeyboardFocusTarget → Toplevel → Bool
owned_by xwm focus t =
    matches_wl_surface focus t.surface
    && is_some_and t.x11_surface (λ x. is_some_and x.xwm_id (λ id. id == xwm))

abbrev pub any_owned : ℕ → KeyboardFocusTarget → List Toplevel → Bool
any_owned xwm focus [] = false
any_owned xwm focus (t ∷ ts) = owned_by xwm focus t || any_owned xwm focus ts

unfoldable pub allow_selection_access : Keyboard → Shells → (xwm : ℕ) → Bool
allow_selection_access none s xwm = false
allow_selection_access (some none) s xwm = false
allow_selection_access (some (some focus)) s xwm = any_owned xwm focus s.toplevels

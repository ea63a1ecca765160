-- ===== src/Toplevel/Steps.antt =====
-- The handlers of toplevels as a machine: the calls of smithay, in any order, and what the renderer
-- does to the table in a frame: the end of a close animation, and the titles told to taskbars.
use Prim.Native.String.{String}
use de.Prelude.{ℕ, ◌≡◌, Bool, true, false, List, [], ◌∷◌, Option, none, some, ℤ}
use de.Resize.{ResizeEdge}
use de.Toplevel.{X11Surface, Keyboard, Call, Shells, without_surface}
use de.Toplevel.Focus.{focus_surface_for_activation}
use de.Toplevel.X11
use de.Toplevel.Xdg
use de.Toplevel.Xdg.{state_of}
use de.Tray.Bytes.{Text}
use de.Toplevel.Titles.{sync_foreign_toplevels, kept_toplevels}

pub data Op : Type 0 where
  new_toplevel : Keyboard → (handle surface : ℕ) → Op
  toplevel_destroyed : (surface : ℕ) → Op
  ack_configure : (surface serial : ℕ) → Option Bool → Op
  associated : Keyboard → (handle surface : ℕ) → X11Surface → Op
  map_request : Keyboard → (handle : ℕ) → (mapped : Bool) → X11Surface → Op
  map_override_redirect : X11Surface → Op
  unmapped destroyed : X11Surface → Op
  configure_notified : X11Surface → ℤ × ℤ × ℤ × ℤ → Option ℕ → Op
  ask_active : Keyboard → X11Surface → Op
  activation : Keyboard → (surface : ℕ) → Op
  closed_surface : (surface : ℕ) → Op
  sync_titles : (texts : ℕ → Text × Text) → Op
  xdg_move : (valid : Bool) → (surface : ℕ) → Op
  xdg_resize : (valid : Bool) → (surface : ℕ) → Option ResizeEdge → Op
  xdg_maximize : (want sent : Bool) → (surface : ℕ) → Op
  xdg_fullscreen : (want sent : Bool) → (surface : ℕ) → Option String → Op
  xdg_minimize : (surface : ℕ) → Op
  x11_move x11_minimize x11_unminimize : X11Surface → Op
  x11_resize : X11Surface → ResizeEdge → Op
  x11_maximize x11_fullscreen : Bool → X11Surface → Op

-- `update_windows` of crates/compositor-slint/src/renderer.rs drops what the drop_swept names.
unfoldable pub drop_swept : Shells → ℕ → Shells
drop_swept s surface = record s { toplevels = without_surface surface s.toplevels }

abbrev pub step : Shells → Op → Shells × List Call
step s (new_toplevel keyboard handle surface) = Xdg.new_toplevel keyboard handle s surface
step s (toplevel_destroyed surface) = Xdg.toplevel_destroyed s surface
step s (ack_configure surface serial csd) = (Xdg.ack_configure s surface serial csd, [])
step s (associated keyboard handle surface window) =
    X11.surface_associated keyboard handle s surface window
step s (map_request keyboard handle mapped window) =
    X11.map_window_request keyboard handle mapped s window
step s (map_override_redirect window) = (X11.mapped_override_redirect_window s window, [])
step s (unmapped window) = X11.unmapped_window s window
step s (destroyed window) = X11.destroyed_window s window
step s (configure_notified window geometry above) =
    (X11.configure_notify s window geometry above, [])
step s (ask_active keyboard window) = X11.active_window_request keyboard s window
step s (activation keyboard surface) = state_of (focus_surface_for_activation keyboard s surface)
step s (closed_surface surface) = (drop_swept s surface, [])
step s (sync_titles texts) = kept_toplevels s (sync_foreign_toplevels texts s.toplevels)
step s (xdg_move valid surface) = (Xdg.move_request valid s surface, [])
step s (xdg_resize valid surface edges) = (Xdg.resize_request valid s surface edges, [])
step s (xdg_maximize want sent surface) = Xdg.maximize_request want sent s surface
step s (xdg_fullscreen want sent surface name) = Xdg.fullscreen_request want sent s surface name
step s (xdg_minimize surface) = (Xdg.minimize_request s surface, [])
step s (x11_move window) = (X11.move_request s window, [])
step s (x11_minimize window) = X11.minimize_request s window
step s (x11_unminimize window) = X11.unminimize_request s window
step s (x11_resize window edges) = (X11.resize_request s window edges, [])
step s (x11_maximize want window) = X11.maximize_request want s window
step s (x11_fullscreen want window) = X11.fullscreen_request want s window

-- The role of a surface, which the Wayland protocol lets no surface change: `role` is true of a surface
-- that has the role of an X11 window.
abbrev pub HasX11Role : (role : ℕ → Bool) → Option ℕ → Type 0
HasX11Role role none = Unit {0}
HasX11Role role (some surface) = role surface ≡ true

-- What Wayland and smithay promise of a call: a toplevel is made for a surface with the role of one, and
-- an X11 window is associated with a surface with the role of an X11 window; a window that asks to be
-- mapped is not override-redirect, and one that is mapped without asking is.
abbrev pub Allowed : (role : ℕ → Bool) → Op → Type 0
Allowed role (new_toplevel keyboard handle surface) = role surface ≡ false
Allowed role (associated keyboard handle surface window) = role surface ≡ true
Allowed role (map_request keyboard handle mapped window) =
    (window.is_override_redirect ≡ false) × HasX11Role role window.wl_surface
Allowed role (map_override_redirect window) =
    (window.is_override_redirect ≡ true) × HasX11Role role window.wl_surface
Allowed role _ = Unit {0}

unfoldable pub run : Shells → List Op → Shells
run s [] = s
run s (op ∷ ops) = run (step s op).0 ops

abbrev pub AllAllowed : (role : ℕ → Bool) → List Op → Type 0
AllAllowed role [] = Unit {0}
AllAllowed role (op ∷ ops) = Allowed role op × AllAllowed role ops

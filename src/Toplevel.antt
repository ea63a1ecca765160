-- ===== src/Toplevel.antt =====
-- The table of toplevels of crates/compositor-slint/src/wayland_state.rs, which the handlers of
-- wayland/xdg_shell.rs and wayland/xwayland.rs keep for native windows and for X11 windows. A
-- surface and a handle of the foreign-toplevel list are numbers, a text is a list of bytes. What
-- smithay tells of an X11 window is an argument of the handler that is called with it.
pub mod Focus
pub mod X11
pub mod Xdg
pub mod Steps
pub mod Tables
pub mod Sound
pub mod Restack
pub mod Once
pub mod Titles
use Prim.Native.String.{String}
use de.Prelude.{
  ℕ, Bool, false, not, List, [], ◌∷◌, Option, none, some, ◌==◌, if◌then◌else◌, ℤ, is_some, retain,
}
use de.Resize.{ResizeEdge}
use de.Compositor.Resizing.{XdgResizeTransaction}

-- An `X11Surface`, by what smithay's getters tell of it. `wl_surface` is none before the surface is
-- associated, `xwm_id` is none once its window manager is gone.
pub record X11Surface : Type 0 where
  pub window_id : ℕ
  pub wl_surface : Option ℕ
  pub xwm_id : Option ℕ
  pub is_override_redirect : Bool
  pub is_mapped : Bool
  pub is_decorated : Bool
  pub title : List ℕ
  pub app_class : List ℕ
  pub geometry : ℤ × ℤ × ℤ × ℤ
  pub min_size : Option (ℤ × ℤ)
  pub max_size : Option (ℤ × ℤ)

-- `toplevel` tells whether there is a handle of xdg-shell. Of `x11_surface` only what stays the same
-- is read later: the ids and whether the window is override-redirect.
pub record Toplevel : Type 0 where
  pub surface : ℕ
  pub toplevel : Bool
  pub x11_surface : Option X11Surface
  pub x : ℤ
  pub y : ℤ
  pub csd : Bool
  pub foreign_handle : Option ℕ
  pub last_advertised_title : List ℕ
  pub last_advertised_app_id : List ℕ
  pub appmenu : Option (List ℕ × List ℕ)

-- Where the keyboard's focus is.
pub data KeyboardFocusTarget : Type 0 where
  wayland : ℕ → KeyboardFocusTarget
  x11 : X11Surface → KeyboardFocusTarget

-- The keyboard of the seat: none if it has none, else its current focus.
abbrev pub Keyboard : Type 0
Keyboard = Option (Option KeyboardFocusTarget)

-- What the handlers ask of smithay. An X11 window is named by its id.
pub data Call : Type 0 where
  set_focus : Option KeyboardFocusTarget → Call
  set_activated : (window_id : ℕ) → Call
  raise_window : (window_id : ℕ) → Call
  update_stacking_order : (window_ids : List ℕ) → Call
  set_mapped set_maximized set_fullscreen set_hidden : (window_id : ℕ) → Bool → Call
  configure_x11 : (window_id : ℕ) → ℤ × ℤ × ℤ × ℤ → Call
  new_foreign : (handle : ℕ) → (title app_id : List ℕ) → Call
  remove_foreign : (handle : ℕ) → Call
  send_title send_app_id : (handle : ℕ) → List ℕ → Call
  send_done : (handle : ℕ) → Call
  send_configure close_toplevel : (surface : ℕ) → Call
  close_x11 : (window_id : ℕ) → Call
  configure_toplevel : (surface : ℕ) → (w h : ℤ) → Call
  resize_x11 : (window_id : ℕ) → (w h : ℤ) → Call

-- The part of `SpikeState` that these handlers read and write. `xwm` tells whether Xwayland's window
-- manager is attached.
pub record Shells : Type 0 where
  pub toplevels : List Toplevel
  pub active_surface : Option ℕ
  pub destroyed_surfaces : List ℕ
  pub pending_appmenu : List (ℕ × (List ℕ × List ℕ))
  pub xdg_resize_transactions : List XdgResizeTransaction
  pub pending_xdg_move : List ℕ
  pub pending_xdg_resize : List (ℕ × ResizeEdge)
  pub pending_xdg_maximize : List (ℕ × Bool)
  pub pending_xdg_fullscreen : List (ℕ × Bool × Option String)
  pub pending_xdg_minimize : List ℕ
  pub pending_xdg_restore : List ℕ
  pub xwm : Bool

abbrev pub new : Shells
new = record {
  toplevels = [];
  active_surface = none;
  destroyed_surfaces = [];
  pending_appmenu = [];
  xdg_resize_transactions = [];
  pending_xdg_move = [];
  pending_xdg_resize = [];
  pending_xdg_maximize = [];
  pending_xdg_fullscreen = [];
  pending_xdg_minimize = [];
  pending_xdg_restore = [];
  xwm = false;
}

-- `find(|t| t.surface == surface)`
abbrev pub find_toplevel : ℕ → List Toplevel → Option Toplevel
find_toplevel surface [] = none
find_toplevel surface (t ∷ ts) = if t.surface == surface then some t else find_toplevel surface ts

-- `any(|t| t.surface == surface)`
abbrev pub is_tracked : ℕ → List Toplevel → Bool
is_tracked surface ts = is_some (find_toplevel surface ts)

-- `retain(|t| t.surface != surface)`
abbrev pub without_surface : ℕ → List Toplevel → List Toplevel
without_surface surface = retain (λ t. not (t.surface == surface))

-- A write through `iter_mut().find(|t| t.surface == surface)`.
abbrev pub update_toplevel : ℕ → (Toplevel → Toplevel) → List Toplevel → List Toplevel
update_toplevel surface f [] = []
update_toplevel surface f (t ∷ ts) =
    if t.surface == surface then f t ∷ ts else t ∷ update_toplevel surface f ts

abbrev pub last_surface : List Toplevel → Option ℕ
last_surface [] = none
last_surface (t ∷ []) = some t.surface
last_surface (t ∷ u ∷ ts) = last_surface (u ∷ ts)

abbrev pub x11_of : Option Toplevel → Option X11Surface
x11_of none = none
x11_of (some t) = t.x11_surface

abbrev pub x11_surface_for_wl_surface : Shells → ℕ → Option X11Surface
x11_surface_for_wl_surface s surface = x11_of (find_toplevel surface s.toplevels)

-- `if let Some(wl_surface) = window.wl_surface()`
abbrev pub with_surface {ℓ} : {A : Type ℓ} → Option ℕ → A → (ℕ → A) → A
with_surface none a f = a
with_surface (some wl_surface) a f = f wl_surface

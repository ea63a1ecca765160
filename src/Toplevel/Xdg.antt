-- ===== src/Toplevel/Xdg.antt =====
-- crates/compositor-slint/src/wayland/xdg_shell.rs: the handlers of native toplevels, and
-- `validate_grab_serial` of wayland_state.rs.
use Prim.Native.String.{String}
use de.Prelude.{
  ℕ, Bool, true, false, not, ◌&&◌, ◌||◌, List, [], ◌∷◌, ◌++◌, Option, none, some, ◌==◌,
  if◌then◌else◌, is_some_and, push, retain,
}
use de.Resize.{ResizeEdge}
use de.Compositor.Resizing.{ack_xdg_resize_transaction, forget_surface}
use de.Toplevel.{
  Toplevel, Keyboard, Call, new_foreign, send_configure, Shells, find_toplevel, without_surface,
  update_toplevel, last_surface,
}
use de.Toplevel.Focus.{focus_new_surface_if_allowed}
use de.Toplevel.X11.{cascade_at, push_toplevel, withdraw, announced}

-- `HashMap::remove`: what was there, and the map without it.
abbrev pub appmenu_of : ℕ → List (ℕ × (List ℕ × List ℕ)) → Option (List ℕ × List ℕ)
appmenu_of surface [] = none
appmenu_of surface ((k, v) ∷ m) = if k == surface then some v else appmenu_of surface m

abbrev pub without_appmenu : ℕ → List (ℕ × (List ℕ × List ℕ)) → List (ℕ × (List ℕ × List ℕ))
without_appmenu surface = retain (λ e. not (e.0 == surface))

unfoldable pub native : Shells → (surface handle : ℕ) → Toplevel
unfolding cascade_at
native s surface handle = record {
  surface = surface;
  toplevel = true;
  x11_surface = none;
  x = cascade_at s.toplevels;
  y = cascade_at s.toplevels;
  csd = true;
  foreign_handle = some handle;
  last_advertised_title = [];
  last_advertised_app_id = [];
  appmenu = appmenu_of surface s.pending_appmenu;
}

abbrev pub state_of : Shells × Bool × List Call → Shells × List Call
state_of (s, granted, calls) = (s, calls)

unfoldable pub new_toplevel : Keyboard → (handle : ℕ) → Shells → (surface : ℕ) → Shells × List Call
unfolding native focus_new_surface_if_allowed
new_toplevel keyboard handle s surface = announced (new_foreign handle [] [] ∷ []) (
    state_of (
      focus_new_surface_if_allowed keyboard
        (record (push_toplevel s (native s surface handle)) {
          pending_appmenu = without_appmenu surface s.pending_appmenu;
        })
        surface))

-- The entry stays in the table, for the close animation. The last other entry becomes active.
unfoldable pub toplevel_destroyed : Shells → (surface : ℕ) → Shells × List Call
unfolding forget_surface
toplevel_destroyed s surface = (
  record s {
    destroyed_surfaces = push s.destroyed_surfaces surface;
    xdg_resize_transactions = forget_surface s.xdg_resize_transactions surface;
    active_surface = last_surface (without_surface surface s.toplevels);
  },
  withdraw (find_toplevel surface s.toplevels),
)

-- The acknowledged serial, and whether the acknowledged decoration mode is client-side, if there is
-- one.
unfoldable pub ack_configure : Shells → (surface serial : ℕ) → Option Bool → Shells
unfolding ack_xdg_resize_transaction
ack_configure s surface serial client_side = record s {
  xdg_resize_transactions = ack_xdg_resize_transaction s.xdg_resize_transactions surface serial;
  toplevels = elim client_side [
    | none ↦ s.toplevels
    | some csd ↦ update_toplevel surface (λ t. record t { csd = csd }) s.toplevels
  ];
}

-- A pointer or a touch of the seat: whether it has a grab of the serial, and the surface in focus
-- when its grab began.
pub record Grab : Type 0 where
  pub has_grab : Bool
  pub start_focus : Option ℕ

abbrev pub grabbed_by : (same_client : ℕ → ℕ → Bool) → ℕ → Option Grab → Bool
grabbed_by same_client surface none = false
grabbed_by same_client surface (some g) =
    g.has_grab && is_some_and g.start_focus (λ focus. same_client focus surface)

-- `seat` is none if the resource is of no seat, else the pointer and the touch of it.
unfoldable pub validate_grab_serial :
    (same_client : ℕ → ℕ → Bool)
    → (seat : Option (Option Grab × Option Grab)) → (surface : ℕ) → Bool
validate_grab_serial same_client none surface = false
validate_grab_serial same_client (some (pointer, touch)) surface =
    grabbed_by same_client surface pointer || grabbed_by same_client surface touch

unfoldable pub move_request : (valid : Bool) → Shells → (surface : ℕ) → Shells
move_request valid s surface =
    if not valid then s else record s { pending_xdg_move = push s.pending_xdg_move surface }

unfoldable pub resize_request : (valid : Bool) → Shells → (surface : ℕ) → Option ResizeEdge → Shells
resize_request valid s surface edges = if not valid then s else elim edges [
  | none ↦ s
  | some edge ↦ record s { pending_xdg_resize = s.pending_xdg_resize ++ (surface, edge) ∷ [] }
]

-- Every request is answered with a configure event, if the first one has been sent.
abbrev pub reply : (initial_sent : Bool) → ℕ → List Call
reply initial_sent surface = if initial_sent then send_configure surface ∷ [] else []

unfoldable pub maximize_request :
    (want initial_sent : Bool) → Shells → (surface : ℕ) → Shells × List Call
maximize_request want initial_sent s surface = (
  record s { pending_xdg_maximize = s.pending_xdg_maximize ++ (surface, want) ∷ [] },
  reply initial_sent surface,
)

-- `output_name` is the name of the output that the client asks for, if it is known.
unfoldable pub fullscreen_request :
    (want initial_sent : Bool)
    → Shells
    → (surface : ℕ) → (output_name : Option String) → Shells × List Call
fullscreen_request want initial_sent s surface output_name = (
  record s {
    pending_xdg_fullscreen =
        s.pending_xdg_fullscreen ++ (surface, want, if want then output_name else none) ∷ [];
  },
  reply initial_sent surface,
)

unfoldable pub minimize_request : Shells → (surface : ℕ) → Shells
minimize_request s surface = record s { pending_xdg_minimize = push s.pending_xdg_minimize surface }

-- ===== src/Compositor.antt =====
-- `SpikeState` of crates/compositor-slint/src/wayland_state.rs: the part of the compositor's state
-- that decides where surfaces stand and where input goes. A handle of smithay (an output, a
-- surface, a locker, a touch slot) is a number, since the code only compares handles. What
-- smithay tells of an output, and which surface of a tree it finds under a point, are parameters.
pub mod Outputs
pub mod Layers
pub mod Lock
pub mod Hits
pub mod Input
pub mod Resizing
pub mod Session
use de.Prelude.{ℕ, Bool, false, List, [], Option, none, some, ℤ}
use de.F64.{F64}
use de.Layer.{LayerInfo, ReservedZones}

pub record LockSurfaceInfo : Type 0 where
  pub surface : ℕ
  pub output : ℕ
  -- the width of the committed buffer
  pub width : ℕ

-- `buffer` is the size of the committed buffer, or none if its lock is poisoned.
pub record ToplevelInfo : Type 0 where
  pub surface : ℕ
  pub x : ℤ
  pub y : ℤ
  pub buffer : Option (ℕ × ℕ)
  pub override_redirect : Bool

-- `geometry` is the configured geometry in smithay's state of the popup: x, y, width and height.
pub record PopupInfo : Type 0 where
  pub surface : ℕ
  pub parent : ℕ
  pub buffer : Option (ℕ × ℕ)
  pub geometry : Option (ℤ × ℤ × ℤ × ℤ)

-- `Option::or_else`
abbrev pub or_else {ℓ} : {A : Type ℓ} → Option A → Option A → Option A
or_else none o = o
or_else (some a) o = some a

module _ ⦃fl : F64⦄ where
  open fl use {Float, lit}

  pub record SpikeState : Type 0 where
    pub output : Option ℕ
    pub outputs : List ℕ
    pub output_scopes : List (ℕ × ReservedZones)
    pub layer_surfaces : List LayerInfo
    pub pending_session_lock : Option ℕ
    pub session_locked : Bool
    pub lock_surfaces : List LockSurfaceInfo
    pub active_surface : Option ℕ
    pub toplevels : List ToplevelInfo
    pub popups : List PopupInfo
    pub pointer_pos : Float × Float
    pub touch_focus : List (ℕ × (ℕ × Float × Float))

  unfoldable pub new : SpikeState
  new = record {
    output = none;
    outputs = [];
    output_scopes = [];
    layer_surfaces = [];
    pending_session_lock = none;
    session_locked = false;
    lock_surfaces = [];
    active_surface = none;
    toplevels = [];
    popups = [];
    pointer_pos = (lit 0 0, lit 0 0);
    touch_focus = [];
  }

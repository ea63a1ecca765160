-- ===== src/Desktop.antt =====
-- The state that crates/compositor-slint/src/renderer.rs keeps about windows, `CompositorApp`: the
-- window manager, the drag that is going on, and the table of toplevels that it is passed.
pub mod Limits
pub mod Drag
pub mod Snapping
pub mod Lookup
pub mod Requests
pub mod Actions
pub mod Active
pub mod Followed
pub mod Shifted
pub mod Synced
pub mod Unsnapped
use de.Prelude.{ℕ, Option, ℤ}
use de.F64.{F64}
use de.Window.{Wayland}
use de.Wm.{WindowManager}
use de.Wm.Geometry.{id_for_surface}
use de.Resize.{ActiveDrag}
use de.Snap.{SnapZone, SnapRect}
use de.Toplevel.{Shells}

-- Which object id, within its client, a surface has.
pub record ProtocolIds : Type 0 where
  pub protocol_id : ℕ → ℕ

instance abbrev pub numbered_surfaces : ⦃ids : ProtocolIds⦄ → Wayland
numbered_surfaces ⦃ids⦄ = record { Surface = ℕ; protocol_id = ids.protocol_id }

module _ ⦃fl : F64⦄ ⦃ids : ProtocolIds⦄ where
  open fl use {Float}

  pub record Desktop : Type 0 where
    pub wm : WindowManager
    pub shells : Shells
    pub active_drag : Option ActiveDrag
    pub pointer_pos : Float × Float
    pub pending_snap : Option (ℤ × SnapZone × SnapRect)

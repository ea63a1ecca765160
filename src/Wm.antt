-- ===== src/Wm.antt =====
-- `WindowManager` of crates/compositor-slint/src/wm/mod.rs: its state, the reserved zones and the
-- work area. The methods that change windows stand in the child modules, one for each concern.
pub mod Focus
pub mod Place
pub mod Geometry
pub mod AltTab
pub mod Pointer
pub mod Invariant
pub mod Step
use de.Prelude.{ℕ, ◌+◌, ◌%◌, Bool, not, ◌&&◌, List, [], Option, none, ℤ, pos, max_ℤ}
use de.Prelude.I32
use de.F64.{F64}
use de.Window.{Wayland, WorkArea, WindowState}
use de.Window.Lifecycle.{panel_height, dock_height}

module _ ⦃fl : F64⦄ ⦃wl : Wayland⦄ where
  -- `last_tick` is the instant in nanoseconds.
  pub record WindowManager : Type 0 where
    pub windows : List (ℕ × WindowState)
    pub focus_stack : List ℕ
    pub next_id : ℤ
    pub next_z : ℕ
    pub cascade_slot : ℤ
    pub output_w : ℤ
    pub output_h : ℤ
    pub reserved_top : ℤ
    pub reserved_bottom : ℤ
    pub reserved_left : ℤ
    pub reserved_right : ℤ
    pub alt_tab_idx : Option ℕ
    pub last_tick : Option ℕ

  unfoldable pub new : ℤ → ℤ → WindowManager
  new output_w output_h = record {
    windows = [];
    focus_stack = [];
    next_id = pos 1;
    next_z = 0;
    cascade_slot = pos 0;
    output_w = output_w;
    output_h = output_h;
    reserved_top = pos 0;
    reserved_bottom = pos 0;
    reserved_left = pos 0;
    reserved_right = pos 0;
    alt_tab_idx = none;
    last_tick = none;
  }

  unfoldable pub set_reserved_zones : WindowManager → ℤ → ℤ → ℤ → ℤ → WindowManager
  set_reserved_zones m top bottom left right = record m {
    reserved_top = max_ℤ top (pos 0);
    reserved_bottom = max_ℤ bottom (pos 0);
    reserved_left = max_ℤ left (pos 0);
    reserved_right = max_ℤ right (pos 0);
  }

  unfoldable pub effective_top : WindowManager → ℤ
  effective_top m = max_ℤ m.reserved_top panel_height

  unfoldable pub effective_bottom : WindowManager → ℤ
  effective_bottom m = max_ℤ m.reserved_bottom dock_height

  unfoldable pub effective_left : WindowManager → ℤ
  effective_left m = m.reserved_left

  unfoldable pub effective_right : WindowManager → ℤ
  effective_right m = m.reserved_right

  unfoldable pub work_area : WindowManager → WorkArea
  unfolding effective_top effective_bottom effective_left effective_right
  work_area m = record {
    x = effective_left m;
    y = effective_top m;
    w = max_ℤ (I32.sub (I32.sub m.output_w (effective_left m)) (effective_right m)) (pos 1);
    h = max_ℤ (I32.sub (I32.sub m.output_h (effective_top m)) (effective_bottom m)) (pos 1);
  }

  -- The key of a surface among the windows.
  abbrev pub key : wl.Surface → ℕ
  key surface = wl.protocol_id surface

  abbrev pub is_focusable : WindowState → Bool
  is_focusable w = not w.closing && not w.minimized

-- `+= 1` on a `usize`.
abbrev pub next_usize : ℕ → ℕ
next_usize n = (n + 1) % 18446744073709551616

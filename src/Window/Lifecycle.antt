-- ===== src/Window/Lifecycle.antt =====
-- The lifecycle methods of `WindowState` in crates/compositor-slint/src/wm/mod.rs: open, close,
-- minimize, maximize, fullscreen and their reverses, the frame tick, and the visibility tests.
use Prim.Native.String.{String}
use de.Prelude.{
  ℕ, Bool, true, false, not, ◌&&◌, ◌||◌, Option, none, some, ◌>>=◌, if◌then◌else◌, ℤ, pos, max_ℤ,
  quot,
}
use de.Prelude.I32
use de.F64.{F64}
use de.Spring
use de.Window.{
  Wayland, WorkArea, AnimPhase, opening, opened, closing, minimized, restoring, WindowAnimState,
  WindowState, set_geometry_target, tick_anim, is_settled, open_scale_from, close_scale_to,
  minimize_scale_to, window_corner_radius,
}

abbrev pub panel_height : ℤ
panel_height = pos 34

abbrev pub dock_height : ℤ
dock_height = pos 96

abbrev pub is_opening : AnimPhase → Bool
is_opening opening = true
is_opening _ = false

abbrev pub is_opened : AnimPhase → Bool
is_opened opened = true
is_opened _ = false

abbrev pub is_minimized : AnimPhase → Bool
is_minimized minimized = true
is_minimized _ = false

abbrev pub is_restoring : AnimPhase → Bool
is_restoring restoring = true
is_restoring _ = false

module _ ⦃fl : F64⦄ where
  -- `opacity` and `scale` head for the given values.
  abbrev pub fade_to : WindowAnimState → fl.Float → fl.Float → WindowAnimState
  fade_to a opacity scale = record a {
    opacity = Spring.set_target a.opacity opacity;
    scale = Spring.set_target a.scale scale;
  }

module _ ⦃fl : F64⦄ ⦃wl : Wayland⦄ where
  open fl use {Float, lit}

  unfoldable pub start_open : WindowState → WindowState
  start_open s = record s {
    anim = record (s.anim) {
      opacity = Spring.set_target (Spring.set_instant s.anim.opacity (lit 0 0)) (lit 1 0);
      scale = Spring.set_target (Spring.set_instant s.anim.scale open_scale_from) (lit 1 0);
    };
    phase = opening;
  }

  unfoldable pub start_close : WindowState → WindowState
  start_close s = record s {
    closing = true;
    anim = fade_to s.anim (lit 0 0) close_scale_to;
    phase = closing;
  }

  unfoldable pub start_minimize : WindowState → ℤ → WindowState
  start_minimize s dock_target_y = record s {
    pre_minimize = some (s.x, s.y, s.w, s.h);
    anim =
        set_geometry_target (fade_to s.anim (lit 0 0) minimize_scale_to) (I32.add s.x (quot s.w 4))
          dock_target_y (quot s.w 2) (quot s.h 2);
    minimized = true;
    phase = minimized;
  }

  unfoldable pub start_restore : WindowState → WindowState
  start_restore s = elim (s.pre_minimize) [
    | some (rx, ry, rw', rh) ↦ record s {
      pre_minimize = none;
      anim = fade_to (set_geometry_target s.anim rx ry rw' rh) (lit 1 0) (lit 1 0);
      x = rx;
      y = ry;
      w = rw';
      h = rh;
      minimized = false;
      phase = restoring;
    }
    | none ↦ record s { minimized = false; phase = restoring }
  ]

  unfoldable pub start_maximize_to : WindowState → WorkArea → WindowState
  start_maximize_to s area = record s {
    pre_maximize = some (s.x, s.y, s.w, s.h);
    anim = fade_to (set_geometry_target s.anim area.x area.y area.w area.h) (lit 1 0) (lit 1 0);
    maximized = true;
    x = area.x;
    y = area.y;
    w = area.w;
    h = area.h;
  }

  unfoldable pub start_maximize_in : WindowState → ℤ → ℤ → ℤ → ℤ → ℤ → ℤ → WindowState
  unfolding start_maximize_to
  start_maximize_in s output_w output_h top bottom left right = start_maximize_to s (record {
    x = left;
    y = top;
    w = max_ℤ (I32.sub (I32.sub output_w left) right) (pos 1);
    h = max_ℤ (I32.sub (I32.sub output_h top) bottom) (pos 1);
  })

  unfoldable pub start_maximize : WindowState → ℤ → ℤ → WindowState
  unfolding start_maximize_in
  start_maximize s output_w output_h =
      start_maximize_in s output_w output_h panel_height dock_height (pos 0) (pos 0)

  unfoldable pub start_unmaximize : WindowState → WindowState
  start_unmaximize s = elim (s.pre_maximize) [
    | some (rx, ry, rw', rh) ↦ record s {
      pre_maximize = none;
      anim = set_geometry_target s.anim rx ry rw' rh;
      x = rx;
      y = ry;
      w = rw';
      h = rh;
      maximized = false;
    }
    | none ↦ record s { maximized = false }
  ]

  -- The snapshot that entering fullscreen takes, unless the window is fullscreen already.
  abbrev pub snapshot_fullscreen : WindowState → WindowState
  snapshot_fullscreen s =
      if not s.fullscreen
      then record s {
        pre_fullscreen = some (s.x, s.y, s.w, s.h);
        pre_fullscreen_maximized = s.maximized;
      }
      else s

  unfoldable pub start_fullscreen : WindowState → ℤ → ℤ → ℤ → ℤ → Option String → WindowState
  start_fullscreen s output_x output_y output_w output_h output_name =
      record (snapshot_fullscreen s) {
        fullscreen = true;
        fullscreen_output = output_name;
        anim =
            fade_to
              (set_geometry_target s.anim output_x output_y (max_ℤ output_w (pos 1))
                (max_ℤ output_h (pos 1)))
              (lit 1 0) (lit 1 0);
        x = output_x;
        y = output_y;
        w = max_ℤ output_w (pos 1);
        h = max_ℤ output_h (pos 1);
      }

  unfoldable pub start_unfullscreen : WindowState → WindowState
  start_unfullscreen s = elim (s.pre_fullscreen) [
    | some (rx, ry, rw', rh) ↦ record s {
      pre_fullscreen = none;
      anim = set_geometry_target s.anim rx ry rw' rh;
      x = rx;
      y = ry;
      w = rw';
      h = rh;
      fullscreen = false;
      fullscreen_output = none;
      maximized = s.pre_fullscreen_maximized;
    }
    | none ↦ record s {
      fullscreen = false;
      fullscreen_output = none;
      maximized = s.pre_fullscreen_maximized;
    }
  ]

  -- The two phase tests behind the springs' tick.
  abbrev pub finish_opening : WindowState → WindowState
  finish_opening s =
      if is_opening s.phase && (s.anim.opacity.done && s.anim.scale.done)
      then record s { phase = opened }
      else s

  abbrev pub finish_restoring : WindowState → WindowState
  finish_restoring s =
      if is_restoring s.phase && is_settled s.anim then record s { phase = opened } else s

  unfoldable pub tick : ℕ → WindowState → Float → Option WindowState
  tick fuel s dt = do
    anim ←
        tick_anim fuel
          (record (s.anim) {
            corner_radius =
                Spring.set_target s.anim.corner_radius
                  (if s.maximized || s.fullscreen then lit 0 0 else window_corner_radius);
          })
          dt
    some (finish_restoring (finish_opening (record s { anim = anim })))

  unfoldable pub is_visible : WindowState → Bool
  is_visible s = if s.minimized && is_minimized s.phase then not (is_settled s.anim) else true

  unfoldable pub close_done : WindowState → Bool
  close_done s = s.closing && fl.fle_f32 (fl.to_f32 s.anim.opacity.pos) (fl.lit_f32 1 2)

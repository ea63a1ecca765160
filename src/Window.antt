-- ===== src/Window.antt =====
-- One managed toplevel of crates/compositor-slint/src/wm/mod.rs: `WorkArea`, `AnimPhase`,
-- `WindowAnimState` and `WindowState`, with the springs' operations lifted to a window.
-- A Wayland surface is a parameter with its protocol id.
pub mod Lifecycle
pub mod Restore
pub mod Frames
use Prim.Native.String.{String}
use de.Prelude.{ℕ, Bool, true, false, ◌&&◌, Option, none, some, ◌>>=◌, ℤ, pos, max_ℤ}
use de.Prelude.I32
use de.F64.{F64}
use de.Spring
use de.Spring.{Spring}

-- The part of smithay's `WlSurface` that the window manager reads. Protocol ids are those of
-- `wl_resource`: two clients may use the same one.
pub record Wayland : Type 1 where
  pub Surface : Type 0
  pub protocol_id : Surface → ℕ

pub record WorkArea : Type 0 where
  pub x : ℤ
  pub y : ℤ
  pub w : ℤ
  pub h : ℤ

unfoldable pub right : WorkArea → ℤ
right a = I32.add a.x a.w

unfoldable pub bottom : WorkArea → ℤ
bottom a = I32.add a.y a.h

pub data AnimPhase : Type 0 where
  opening opened closing minimized restoring : AnimPhase

-- A saved geometry, (x, y, w, h).
abbrev pub Geometry : Type 0
Geometry = ℤ × ℤ × ℤ × ℤ

module _ ⦃fl : F64⦄ where
  open fl use {Float, lit, of_i32, to_i32, fmax}

  abbrev pub spring_stiffness : Float
  spring_stiffness = lit 1500 0

  abbrev pub spring_damping : Float
  spring_damping = lit 1 0

  abbrev pub spring_epsilon : Float
  spring_epsilon = lit 1 3

  abbrev pub window_corner_radius : Float
  window_corner_radius = lit 18 0

  abbrev pub open_scale_from : Float
  open_scale_from = lit 94 2

  abbrev pub close_scale_to : Float
  close_scale_to = lit 94 2

  abbrev pub minimize_scale_to : Float
  minimize_scale_to = lit 40 2

  pub record WindowAnimState : Type 0 where
    pub opacity : Spring
    pub scale : Spring
    pub geo_x : Spring
    pub geo_y : Spring
    pub geo_w : Spring
    pub geo_h : Spring
    pub corner_radius : Spring

  -- A new spring that stands at a value.
  unfoldable pub parked : Float → Spring
  parked v = Spring.set_instant (Spring.new spring_stiffness spring_damping spring_epsilon) v

  unfoldable pub new_opening : ℤ → ℤ → ℤ → ℤ → WindowAnimState
  unfolding parked
  new_opening x y w h = record {
    opacity = Spring.set_target (parked (lit 0 0)) (lit 1 0);
    scale = Spring.set_target (parked open_scale_from) (lit 1 0);
    geo_x = parked (of_i32 x);
    geo_y = parked (of_i32 y);
    geo_w = parked (of_i32 w);
    geo_h = parked (of_i32 h);
    corner_radius = parked window_corner_radius;
  }

  unfoldable pub tick_anim : ℕ → WindowAnimState → Float → Option WindowAnimState
  tick_anim fuel a dt = do
    opacity ← Spring.tick fuel a.opacity dt
    scale ← Spring.tick fuel a.scale dt
    geo_x ← Spring.tick fuel a.geo_x dt
    geo_y ← Spring.tick fuel a.geo_y dt
    geo_w ← Spring.tick fuel a.geo_w dt
    geo_h ← Spring.tick fuel a.geo_h dt
    corner_radius ← Spring.tick fuel a.corner_radius dt
    some (record {
      opacity = opacity;
      scale = scale;
      geo_x = geo_x;
      geo_y = geo_y;
      geo_w = geo_w;
      geo_h = geo_h;
      corner_radius = corner_radius;
    })

  unfoldable pub is_settled : WindowAnimState → Bool
  is_settled a =
      a.opacity.done
      && (a.scale.done
          && (a.geo_x.done
              && (a.geo_y.done && (a.geo_w.done && (a.geo_h.done && a.corner_radius.done)))))

  unfoldable pub set_geometry_instant : WindowAnimState → ℤ → ℤ → ℤ → ℤ → WindowAnimState
  set_geometry_instant a x y w h = record a {
    geo_x = Spring.set_instant a.geo_x (of_i32 x);
    geo_y = Spring.set_instant a.geo_y (of_i32 y);
    geo_w = Spring.set_instant a.geo_w (of_i32 w);
    geo_h = Spring.set_instant a.geo_h (of_i32 h);
  }

  unfoldable pub set_geometry_target : WindowAnimState → ℤ → ℤ → ℤ → ℤ → WindowAnimState
  set_geometry_target a x y w h = record a {
    geo_x = Spring.set_target a.geo_x (of_i32 x);
    geo_y = Spring.set_target a.geo_y (of_i32 y);
    geo_w = Spring.set_target a.geo_w (of_i32 w);
    geo_h = Spring.set_target a.geo_h (of_i32 h);
  }

  unfoldable pub current_x : WindowAnimState → ℤ
  current_x a = to_i32 a.geo_x.pos

  unfoldable pub current_y : WindowAnimState → ℤ
  current_y a = to_i32 a.geo_y.pos

  unfoldable pub current_w : WindowAnimState → ℤ
  current_w a = to_i32 (fmax a.geo_w.pos (lit 1 0))

  unfoldable pub current_h : WindowAnimState → ℤ
  current_h a = to_i32 (fmax a.geo_h.pos (lit 1 0))

module _ ⦃fl : F64⦄ ⦃wl : Wayland⦄ where
  pub record WindowState : Type 0 where
    pub id : ℤ
    pub surface : wl.Surface
    pub x : ℤ
    pub y : ℤ
    pub w : ℤ
    pub h : ℤ
    pub pre_maximize : Option Geometry
    pub pre_fullscreen : Option Geometry
    pub pre_fullscreen_maximized : Bool
    pub pre_minimize : Option Geometry
    pub pre_snap : Option Geometry
    pub focused : Bool
    pub minimized : Bool
    pub maximized : Bool
    pub fullscreen : Bool
    pub fullscreen_output : Option String
    pub closing : Bool
    pub z_order : ℕ
    pub anim : WindowAnimState
    pub phase : AnimPhase
    pub app_id : String
    pub title : String
    pub alt_tab_selected : Bool
    pub awaiting_first_render : Bool
    pub csd : Bool
    pub geom_w : ℤ
    pub geom_h : ℤ
    pub geom_x : ℤ
    pub geom_y : ℤ

  unfoldable pub new : ℤ → wl.Surface → ℤ → ℤ → ℤ → ℤ → ℕ → WindowState
  unfolding parked
  new id surface x y w h z_order = record {
    id = id;
    surface = surface;
    x = x;
    y = y;
    w = w;
    h = h;
    pre_maximize = none;
    pre_fullscreen = none;
    pre_fullscreen_maximized = false;
    pre_minimize = none;
    pre_snap = none;
    focused = false;
    minimized = false;
    maximized = false;
    fullscreen = false;
    fullscreen_output = none;
    closing = false;
    z_order = z_order;
    anim = record {
      opacity = parked (fl.lit 0 0);
      scale = parked open_scale_from;
      geo_x = parked (fl.of_i32 x);
      geo_y = parked (fl.of_i32 y);
      geo_w = parked (fl.of_i32 w);
      geo_h = parked (fl.of_i32 h);
      corner_radius = parked window_corner_radius;
    };
    phase = opening;
    app_id = "";
    title = "";
    alt_tab_selected = false;
    awaiting_first_render = true;
    csd = false;
    geom_w = w;
    geom_h = h;
    geom_x = pos 0;
    geom_y = pos 0;
  }

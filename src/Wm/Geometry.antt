-- ===== src/Wm/Geometry.antt =====
-- Geometry requests and frames in crates/compositor-slint/src/wm/mod.rs: maximize toggling, drag
-- positions, `update_geometry` and the animation ticks.
use de.Prelude.{
  ℕ, ◌-◌, ◌&&◌, ◌||◌, List, [], ◌∷◌, Option, none, some, ◌>>=◌, if◌then◌else◌, ℤ, eqb_ℤ,
}
use de.HashMap.{get, modify}
use de.F64.{F64}
use de.Spring
use de.Window.{Wayland, WorkArea, WindowState, set_geometry_instant}
use de.Window.Lifecycle.{start_maximize_to, start_unmaximize, tick, is_opening, is_opened}
use de.Wm.{WindowManager, key, work_area}
use de.Wm.Focus.{find_id}

module _ ⦃fl : F64⦄ ⦃wl : Wayland⦄ where
  open fl use {Float, lit, of_i32, to_i32, fmin, round, secs_of_nanos}

  -- A change to the window that was found by its id.
  unfoldable pub modify_key : WindowManager → ℕ → (WindowState → WindowState) → WindowManager
  modify_key m k f = record m { windows = modify k f m.windows }

  abbrev pub modify_found :
      WindowManager → Option (ℕ × WindowState) → (WindowState → WindowState) → WindowManager
  modify_found m none f = m
  modify_found m (some (k, win)) f = modify_key m k f

  abbrev pub toggle_maximize : WorkArea → WindowState → WindowState
  toggle_maximize area win =
      if win.maximized then start_unmaximize win else start_maximize_to win area

  unfoldable pub toggle_maximize_by_id : WindowManager → ℤ → WindowManager
  unfolding modify_key
  toggle_maximize_by_id m id = modify_found m (find_id m id) (toggle_maximize (work_area m))

  abbrev pub set_position : ℤ → ℤ → WindowState → WindowState
  set_position x y win = record win {
    x = x;
    y = y;
    anim = record (win.anim) {
      geo_x = Spring.set_instant win.anim.geo_x (of_i32 x);
      geo_y = Spring.set_instant win.anim.geo_y (of_i32 y);
    };
  }

  unfoldable pub set_position_by_id : WindowManager → ℤ → ℤ → ℤ → WindowManager
  unfolding modify_key
  set_position_by_id m id x y = modify_found m (find_id m id) (set_position x y)

  abbrev pub set_geometry : ℤ → ℤ → ℤ → ℤ → WindowState → WindowState
  set_geometry x y w h win = record win {
    x = x;
    y = y;
    w = w;
    h = h;
    anim = set_geometry_instant win.anim x y w h;
  }

  unfoldable pub set_geometry_by_id : WindowManager → ℤ → ℤ → ℤ → ℤ → ℤ → WindowManager
  unfolding modify_key
  set_geometry_by_id m id x y w h = modify_found m (find_id m id) (set_geometry x y w h)

  abbrev pub window_id : Option WindowState → Option ℤ
  window_id none = none
  window_id (some win) = some win.id

  unfoldable pub id_for_surface : WindowManager → wl.Surface → Option ℤ
  id_for_surface m surface = window_id (get (key surface) m.windows)

  abbrev snap_size : ℤ → ℤ → WindowState → WindowState
  snap_size w h win = record win {
    anim = record (win.anim) {
      geo_w = Spring.set_instant win.anim.geo_w (of_i32 w);
      geo_h = Spring.set_instant win.anim.geo_h (of_i32 h);
    };
  }

  abbrev head_for_size : ℤ → ℤ → WindowState → WindowState
  head_for_size w h win = record win {
    anim = record (win.anim) {
      geo_w = Spring.set_target win.anim.geo_w (of_i32 w);
      geo_h = Spring.set_target win.anim.geo_h (of_i32 h);
    };
  }

  -- How the springs take a new size in.
  unfoldable pub absorb_size : ℤ → ℤ → WindowState → WindowState
  absorb_size w h win =
      if eqb_ℤ (to_i32 (round win.anim.geo_w.pos)) w && eqb_ℤ (to_i32 (round win.anim.geo_h.pos)) h
      then win
      else if win.awaiting_first_render
      then snap_size w h win
      else if is_opening win.phase
      then head_for_size w h win
      else if is_opened win.phase && (win.anim.geo_w.done && win.anim.geo_h.done)
      then snap_size w h win
      else win

  -- The body of `update_geometry` for the window of the surface.
  unfoldable pub commit_size : ℤ → ℤ → WindowState → WindowState
  unfolding absorb_size
  commit_size w h win =
      if win.maximized || win.fullscreen then win else absorb_size w h (record win { w = w; h = h })

  unfoldable pub update_geometry : WindowManager → wl.Surface → ℤ → ℤ → WindowManager
  unfolding commit_size
  update_geometry m surface w h = record m {
    windows = modify (key surface) (commit_size w h) m.windows;
  }

  -- `none` is a frame whose springs ran out of fuel.
  unfoldable pub tick_windows : ℕ → List (ℕ × WindowState) → Float → Option (List (ℕ × WindowState))
  tick_windows fuel [] dt = some []
  tick_windows fuel ((k, win) ∷ rest) dt =
      let others = tick_windows fuel rest dt in
      do win' ← tick fuel win dt; rest' ← others; some ((k, win') ∷ rest')

  unfoldable pub tick_all : ℕ → WindowManager → Float → Option WindowManager
  tick_all fuel m dt = do
    windows ← tick_windows fuel m.windows dt
    some (record m { windows = windows })

  -- The length of the frame: what passed since the last one, 100 ms at most, and 16 ms at first.
  unfoldable pub frame_dt : Option ℕ → ℕ → Float
  frame_dt none now = lit 16 3
  frame_dt (some last) now = fmin (secs_of_nanos (now - last)) (lit 1 1)

  unfoldable pub tick_auto : ℕ → WindowManager → ℕ → Option (Float × WindowManager)
  tick_auto fuel m now = do
    m' ← tick_all fuel (record m { last_tick = some now }) (frame_dt m.last_tick now)
    some (frame_dt m.last_tick now, m')

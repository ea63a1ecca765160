-- ===== src/Window/Frames.antt =====
-- A frame of a window ends: its seven springs do.
use de.Prelude.{ℕ, ◌<◌, ◌≡◌, true, some, ◌||◌, if◌then◌else◌, ◌≤◌, arith}
use de.F64.{F64}
use de.Spring
use de.Spring.{Spring}
use de.Spring.Ends.{StepsDown, tick_returns}
use de.Window.{Wayland, WindowAnimState, WindowState, tick_anim, window_corner_radius}
use de.Window.Lifecycle.{tick, finish_opening, finish_restoring}

-- What the frames rely on: a frame lasts 100 ms at most, and each 1 ms step of such a frame
-- makes a measure smaller that is below a bound. `f64::min` is at most its second argument.
pub record FrameLaws ⦃fl : F64⦄ (measure : fl.Float → ℕ) (bound : ℕ) : Type 0 where
  pub down : StepsDown (fl.lit 1 1) measure
  pub few : (r : fl.Float) → fl.fle r (fl.lit 1 1) ≡ true → measure r < bound
  pub capped : (x : fl.Float) → fl.fle (fl.fmin x (fl.lit 1 1)) (fl.lit 1 1) ≡ true
  pub first : fl.fle (fl.lit 16 3) (fl.lit 1 1) ≡ true

module _ ⦃fl : F64⦄ {measure : fl.Float → ℕ} {bound : ℕ} (laws : FrameLaws measure bound) where
  open fl use {Float, lit, fle}

  spring_returns :
      (fuel : ℕ) (s : Spring) (dt : Float)
      → bound ≤ fuel
      → fle dt (lit 1 1) ≡ true
      → (s' : Spring) × (Spring.tick fuel s dt ≡ some s')
  spring_returns fuel s dt h c =
      tick_returns (lit 1 1) measure laws.down fuel s dt (omega (arith, laws.few dt c)) c

  tick_anim_returns :
      (fuel : ℕ) (a : WindowAnimState) (dt : Float)
      → bound ≤ fuel
      → fle dt (lit 1 1) ≡ true
      → (a' : WindowAnimState) × (tick_anim fuel a dt ≡ some a')
  unfolding tick_anim
  tick_anim_returns fuel a dt h c =
      let (opacity, e₁) = spring_returns fuel a.opacity dt h c in
      let (scale, e₂) = spring_returns fuel a.scale dt h c in
      let (geo_x, e₃) = spring_returns fuel a.geo_x dt h c in
      let (geo_y, e₄) = spring_returns fuel a.geo_y dt h c in
      let (geo_w, e₅) = spring_returns fuel a.geo_w dt h c in
      let (geo_h, e₆) = spring_returns fuel a.geo_h dt h c in
      let (corner_radius, e₇) = spring_returns fuel a.corner_radius dt h c in
      (
        record {
          opacity = opacity;
          scale = scale;
          geo_x = geo_x;
          geo_y = geo_y;
          geo_w = geo_w;
          geo_h = geo_h;
          corner_radius = corner_radius;
        },
        rw (e₁, e₂, e₃, e₄, e₅, e₆, e₇),
      )

  pub tick_returns_window :
      ⦃wl : Wayland⦄ (fuel : ℕ) (w : WindowState) (dt : Float)
      → bound ≤ fuel
      → fle dt (lit 1 1) ≡ true
      → (w' : WindowState) × (tick fuel w dt ≡ some w')
  unfolding tick
  tick_returns_window fuel w dt h c =
      let (a, e) =
        tick_anim_returns fuel
          (record (w.anim) {
            corner_radius =
                Spring.set_target w.anim.corner_radius
                  (if w.maximized || w.fullscreen then lit 0 0 else window_corner_radius);
          })
          dt h c in
      (finish_restoring (finish_opening (record w { anim = a })), rw e)

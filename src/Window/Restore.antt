-- ===== src/Window/Restore.antt =====
-- A window comes back to the geometry that it had: minimize and restore, maximize and unmaximize,
-- fullscreen and back, also where they are nested.
use Prim.Native.String.{String}
use de.Prelude.{
  ◌≡◌, refl, true, false, ◌⊎◌, inl, inr, Bool-cases, List, [], ◌∷◌, Option, none, some, ℤ, arith,
}
use de.F64.{F64}
use de.Spring
use de.Spring.{Spring}
use de.Window.{Wayland, WorkArea, WindowAnimState, WindowState, Geometry, set_geometry_target}
use de.Window.Lifecycle.{
  fade_to, start_minimize, start_restore, start_maximize_to, start_unmaximize, start_fullscreen,
  start_unfullscreen,
}

module _ ⦃fl : F64⦄ where
  open fl use {Float, of_i32, fsub, fabs, flt}

  -- A spring's target is the value, or nearer to it than 1e-9.
  abbrev pub HeadsFor : Spring → Float → Type 0
  HeadsFor s v = (s.target ≡ v) ⊎ (flt (fabs (fsub v s.target)) Spring.same_target ≡ true)

  pub set_target-HeadsFor : (s : Spring) (v : Float) → HeadsFor (Spring.set_target s v) v
  unfolding Spring.set_target
  set_target-HeadsFor s v = elim (Bool-cases (flt (fabs (fsub v s.target)) Spring.same_target)) [
    | inl near ↦ rw near (inr near)
    | inr far ↦ rw far (inl refl)
  ]

  -- The four geometry springs head for a geometry.
  pub record HeadsForGeometry (a : WindowAnimState) (g : Geometry) : Type 0 where
    pub towards_x : HeadsFor a.geo_x (of_i32 g.0)
    pub towards_y : HeadsFor a.geo_y (of_i32 g.1)
    pub towards_w : HeadsFor a.geo_w (of_i32 g.2)
    pub towards_h : HeadsFor a.geo_h (of_i32 g.3)

  pub set_geometry_target-HeadsForGeometry :
      (a : WindowAnimState) (x y w h : ℤ)
      → HeadsForGeometry (set_geometry_target a x y w h) (x, y, w, h)
  unfolding set_geometry_target
  set_geometry_target-HeadsForGeometry a x y w h = record {
    towards_x = set_target-HeadsFor _ _;
    towards_y = set_target-HeadsFor _ _;
    towards_w = set_target-HeadsFor _ _;
    towards_h = set_target-HeadsFor _ _;
  }

  pub fade_to-HeadsForGeometry :
      (a : WindowAnimState) (g : Geometry) (opacity scale : Float)
      → HeadsForGeometry a g
      → HeadsForGeometry (fade_to a opacity scale) g
  fade_to-HeadsForGeometry a g opacity scale h = record {
    towards_x = h.towards_x;
    towards_y = h.towards_y;
    towards_w = h.towards_w;
    towards_h = h.towards_h;
  }

module _ ⦃fl : F64⦄ ⦃wl : Wayland⦄ where
  abbrev pub geometry : WindowState → Geometry
  geometry s = (s.x, s.y, s.w, s.h)

  -- A minimized window that is restored has its old geometry, committed and as the target of its
  -- springs, is no longer minimized, and keeps no saved geometry.
  pub start_restore-start_minimize :
      (s : WindowState) (dock_target_y : ℤ)
      → let r = start_restore (start_minimize s dock_target_y) in
        (geometry r ≡ geometry s)
        × HeadsForGeometry r.anim (geometry s)
        × (r.minimized ≡ false)
        × (r.pre_minimize ≡ none)
  unfolding start_minimize start_restore
  start_restore-start_minimize s d = (
    refl,
    fade_to-HeadsForGeometry _ _ _ _ (set_geometry_target-HeadsForGeometry _ s.x s.y s.w s.h),
    refl,
    refl,
  )

  -- Unmaximizing a window that was just maximized, to any area, gives back its geometry, committed
  -- and as the target of its springs.
  start_unmaximize-start_maximize_to :
      (s : WindowState) (area : WorkArea)
      → let r = start_unmaximize (start_maximize_to s area) in
        (geometry r ≡ geometry s) × HeadsForGeometry r.anim (geometry s) × (r.maximized ≡ false)
  unfolding start_maximize_to start_unmaximize
  start_unmaximize-start_maximize_to s area =
      (refl, set_geometry_target-HeadsForGeometry _ s.x s.y s.w s.h, refl)

  -- Requests to go fullscreen, one after the other, each for an output.
  abbrev pub fullscreen_all : WindowState → List (Geometry × Option String) → WindowState
  fullscreen_all s [] = s
  fullscreen_all s ((o, name) ∷ rest) =
      fullscreen_all (start_fullscreen s o.0 o.1 o.2 o.3 name) rest

  -- What a window that went fullscreen from `s` remembers.
  record Remembers (s : WindowState) (t : WindowState) : Type 0 where
    full : t.fullscreen ≡ true
    saved : t.pre_fullscreen ≡ some (geometry s)
    saved_maximized : t.pre_fullscreen_maximized ≡ s.maximized
    saved_restore : t.pre_maximize ≡ s.pre_maximize

  start_fullscreen-Remembers :
      (s t : WindowState) (o : Geometry) (name : Option String)
      → Remembers s t
      → Remembers s (start_fullscreen t o.0 o.1 o.2 o.3 name)
  unfolding start_fullscreen
  start_fullscreen-Remembers s t o name r = ground arith

  fullscreen_all-Remembers :
      (s t : WindowState) (outputs : List (Geometry × Option String))
      → Remembers s t
      → Remembers s (fullscreen_all t outputs)
  fullscreen_all-Remembers s t [] r = r
  fullscreen_all-Remembers s t ((o, name) ∷ rest) r =
      fullscreen_all-Remembers s (start_fullscreen t o.0 o.1 o.2 o.3 name) rest
        (start_fullscreen-Remembers s t o name r)

  start_fullscreen_first :
      (s : WindowState) (o : Geometry) (name : Option String)
      → s.fullscreen ≡ false
      → Remembers s (start_fullscreen s o.0 o.1 o.2 o.3 name)
  unfolding start_fullscreen
  start_fullscreen_first s o name e = ground arith

  start_unfullscreen-Remembers :
      (s t : WindowState)
      → Remembers s t
      → let r = start_unfullscreen t in
        (geometry r ≡ geometry s)
        × HeadsForGeometry r.anim (geometry s)
        × (r.maximized ≡ s.maximized)
        × (r.fullscreen ≡ false)
        × (r.pre_maximize ≡ s.pre_maximize)
  unfolding start_unfullscreen
  start_unfullscreen-Remembers s t r =
      rw (r.saved, start_unfullscreen)
        (
          refl,
          set_geometry_target-HeadsForGeometry _ s.x s.y s.w s.h,
          r.saved_maximized,
          refl,
          r.saved_restore,
        )

  -- However often a window is told to go fullscreen, on whatever outputs, leaving fullscreen once
  -- gives back the geometry and the maximized flag from before the first request, and the geometry
  -- that unmaximizing it would restore is kept.
  pub start_unfullscreen-fullscreen_all :
      (s : WindowState) (o : Geometry) (name : Option String)
      (rest : List (Geometry × Option String))
      → s.fullscreen ≡ false
      → let r = start_unfullscreen (fullscreen_all s ((o, name) ∷ rest)) in
        (geometry r ≡ geometry s)
        × HeadsForGeometry r.anim (geometry s)
        × (r.maximized ≡ s.maximized)
        × (r.fullscreen ≡ false)
        × (r.pre_maximize ≡ s.pre_maximize)
  start_unfullscreen-fullscreen_all s o name rest e =
      start_unfullscreen-Remembers s (fullscreen_all s ((o, name) ∷ rest)) (
        fullscreen_all-Remembers s (start_fullscreen s o.0 o.1 o.2 o.3 name) rest
          (start_fullscreen_first s o name e))

-- ===== src/Desktop/Synced.antt =====
-- What a motion of the pointer makes of the dragged window.
use de.Prelude.{
  ℕ, ◌≡◌, refl, Bool, true, false, inl, inr, ◌⊎◌, [], ◌∷◌, Option, some, if◌then◌else◌, ℤ, pos,
  ltb_ℤ, ◌≤ℤ◌, max_ℤ, min_ℤ, max_ℤ-bounds, arith, get_elem?,
}
use de.Prelude.I32
use de.F64.{F64}
use de.Window.{WindowState, right, bottom}
use de.Wm.{work_area}
use de.Wm.Geometry.{set_geometry, set_geometry_by_id, set_position, set_position_by_id, modify_key}
use de.Resize.{ResizeEdge, resize, WindowGeomSnapshot, min_window_size, resize_by}
use de.Toplevel.{Toplevel}
use de.Desktop.{ProtocolIds, numbered_surfaces, Desktop}
use de.Desktop.Limits.{client_limit, constrain}
use de.Desktop.Drag.{
  Configure, resizing, if_alive, is_due, next_due, Ambient, client_w, client_h, window_of,
  resize_toplevel, resize_motion, move_motion, clamp, drag_x, drag_y, dock_snap,
}
use de.Desktop.Lookup.{get_elem?-place_at, window_of-modify_found, window_of-some}

client_limit-min : (a b v : ℤ) → min_window_size ≤ℤ client_limit a b v
client_limit-min a b v =
    (max_ℤ-bounds
      (let low = if ltb_ℤ (pos 0) a then max_ℤ v a else v in
        if ltb_ℤ (pos 0) b then min_ℤ low b else low)
      min_window_size).1

clamp_bounds : (lo hi v : ℤ) → lo ≤ℤ hi → (lo ≤ℤ clamp lo hi v) × (clamp lo hi v ≤ℤ hi)
unfolding max_ℤ min_ℤ
clamp_bounds lo hi v h = ground arith

sent_or_not :
    (due alive : Bool) (c : Configure)
    → ((if due then if_alive alive c else []) ≡ [])
      ⊎ ((if due then if_alive alive c else []) ≡ c ∷ [])
sent_or_not false alive c = inl refl
sent_or_not true false c = inl refl
sent_or_not true true c = inr refl

module _ ⦃fl : F64⦄ ⦃ids : ProtocolIds⦄ where
  open fl use {Float, to_i32, fsub}

  -- The toplevel at an index and the window of its surface stand at the same place.
  abbrev pub IsSynced : Desktop → (idx surface k : ℕ) → Toplevel → WindowState → Type 0
  IsSynced d idx surface k t win =
      (get_elem? d.shells.toplevels idx ≡ some t)
      × (t.surface ≡ surface)
      × (window_of d.wm surface ≡ some (k, win))
      × (win.x ≡ t.x)
      × (win.y ≡ t.y)

  resize_toplevel_lem :
      (a : Ambient) (d : Desktop) (idx k : ℕ) (last : Option ℕ) (g : WindowGeomSnapshot)
      (t : Toplevel) (win : WindowState)
      → get_elem? d.shells.toplevels idx ≡ some t
      → window_of d.wm t.surface ≡ some (k, win)
      → let r = resize_toplevel a d idx last g (some t) in
        (t' : Toplevel) × (win' : WindowState) × IsSynced r.0 idx t.surface k t' win'
        × (min_window_size ≤ℤ win'.w)
        × (min_window_size ≤ℤ win'.h)
        × ((r.1 ≡ []) ⊎ (r.1 ≡ resizing t.surface win'.w win'.h ∷ []))
  unfolding set_geometry_by_id modify_key
  resize_toplevel_lem a d idx k last g t win e w =
      let (id, by, found) = window_of-some d.wm t.surface k win w in
      let cw = client_w a t.surface g.w in
      let ch = client_h a t.surface g.h in
      let (by', found') =
        window_of-modify_found k (set_geometry g.x g.y cw ch) (λ w. refl) d.wm t.surface id win by
          found in
      (
        record t { x = g.x; y = g.y },
        set_geometry g.x g.y cw ch win,
        (
          get_elem?-place_at idx g.x g.y d.shells.toplevels t e,
          refl,
          rw (by, by') found',
          refl,
          refl,
        ),
        client_limit-min (a.min_size t.surface).0 (a.max_size t.surface).0 g.w,
        client_limit-min (a.min_size t.surface).1 (a.max_size t.surface).1 g.h,
        sent_or_not (is_due last a.now) (a.alive t.surface) (resizing t.surface cw ch),
      )

  -- While the toplevel that is resized has a window, a motion leaves the two at the same place; the
  -- window is at least 120 by 120, and what the client is told, if anything, is the window's size.
  pub resize_motion-IsSynced :
      (a : Ambient) (d : Desktop) (x y : Float) (idx : ℕ) (edge : ResizeEdge)
      (start_x start_y : Float) (start : WindowGeomSnapshot) (last : Option ℕ)
      (engaged : Option Float) (k : ℕ) (t : Toplevel) (win : WindowState)
      → get_elem? d.shells.toplevels idx ≡ some t
      → window_of d.wm t.surface ≡ some (k, win)
      → let r = resize_motion a d x y idx edge start_x start_y start last engaged in
        (t' : Toplevel) × (win' : WindowState) × IsSynced r.0 idx t.surface k t' win'
        × (min_window_size ≤ℤ win'.w)
        × (min_window_size ≤ℤ win'.h)
        × ((r.1 ≡ []) ⊎ (r.1 ≡ resizing t.surface win'.w win'.h ∷ []))
  unfolding resize_motion
  resize_motion-IsSynced a d x y idx edge start_x start_y start last engaged k t win e w =
      let free = resize_by edge start (to_i32 (fsub x start_x)) (to_i32 (fsub y start_y)) in
      let snapped =
        dock_snap edge engaged y (bottom (work_area d.wm))
          (constrain (work_area d.wm) edge start free) in
      rw e (
        resize_toplevel_lem a
          (record d {
            active_drag =
                some
                  (resize idx edge start_x start_y start (next_due (some t) last a.now) snapped.0);
          })
          idx k last snapped.1 t win e w)

  -- While the toplevel that is moved has a window, a motion leaves the two at the same place, with
  -- the upper left corner in the work area, 24 pixels or more from its right and lower edges if it is
  -- that large.
  pub move_motion-IsSynced :
      (d : Desktop) (x y : Float) (idx : ℕ) (offset_x offset_y : Float) (k : ℕ) (t : Toplevel)
      (win : WindowState)
      → get_elem? d.shells.toplevels idx ≡ some t
      → window_of d.wm t.surface ≡ some (k, win)
      → let area = work_area d.wm in
        let r = move_motion d x y idx offset_x offset_y in
        (t' : Toplevel) × (win' : WindowState) × IsSynced r idx t.surface k t' win'
        × (area.x ≤ℤ win'.x)
        × (win'.x ≤ℤ max_ℤ (I32.sub (right area) (pos 24)) area.x)
        × (area.y ≤ℤ win'.y)
        × (win'.y ≤ℤ max_ℤ (I32.sub (bottom area) (pos 24)) area.y)
        × (win'.w ≡ win.w)
        × (win'.h ≡ win.h)
  unfolding move_motion set_position_by_id modify_key
  move_motion-IsSynced d x y idx offset_x offset_y k t win e w =
      let area = work_area d.wm in
      let (id, by, found) = window_of-some d.wm t.surface k win w in
      let nx = drag_x area (to_i32 (fsub x offset_x)) in
      let ny = drag_y area (to_i32 (fsub y offset_y)) in
      let (by', found') =
        window_of-modify_found k (set_position nx ny) (λ w. refl) d.wm t.surface id win by found in
      let (a, b) =
        clamp_bounds area.x (max_ℤ (I32.sub (right area) (pos 24)) area.x)
          (to_i32 (fsub x offset_x)) (max_ℤ-bounds (I32.sub (right area) (pos 24)) area.x).1 in
      let (c, f) =
        clamp_bounds area.y (max_ℤ (I32.sub (bottom area) (pos 24)) area.y)
          (to_i32 (fsub y offset_y)) (max_ℤ-bounds (I32.sub (bottom area) (pos 24)) area.y).1 in
      rw (e, move_motion)
        (
          record t { x = nx; y = ny },
          set_position nx ny win,
          (
            get_elem?-place_at idx nx ny d.shells.toplevels t e,
            refl,
            rw (by, by') found',
            refl,
            refl,
          ),
          a,
          b,
          c,
          f,
          refl,
          refl,
        )

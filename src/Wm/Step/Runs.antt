-- ===== src/Wm/Step/Runs.antt =====
-- Runs of the window manager: from the start, any sequence of calls ends, in a state that
-- satisfies the invariant.
use de.Prelude.{
  ℕ, suc, ◌+◌, ◌<◌, ◌≤◌, ◌≡◌, refl, subst, true, Bool-cases, inl, inr, List, [], ◌∷◌, Option, none,
  some, eq_of_some, >>=-eq-some, ℤ, pos_part, neg_part, length, arith,
}
use de.HashMap.{contains_key}
use de.F64.{F64}
use de.Window.{Wayland}
use de.Window.Frames.{FrameLaws, tick_returns_window}
use de.Wm.{WindowManager, key, new, set_reserved_zones}
use de.Wm.Place.{begin_close}
use de.Wm.Geometry.{tick_windows, tick_all, tick_auto, frame_dt}
use de.Wm.Invariant.{Windows, Inv, new-Inv}
use de.Wm.Step.{
  Op, register, destroyed, removed, close, sweep, focus, focus_id, unfocus, click, minimize,
  restore, toggle_maximize, move, resize, commit_buffer, frame, reserve, tab_start, tab_next,
  tab_commit, tab_cancel, sync_new, sync_destroyed, step, run,
}
use de.Wm.Step.Keeps.{Budget, Advances, still-Advances, close_key-Advances}
use de.Wm.Step.Calls.{
  restore_by_id-Advances, focus_surface-Advances, focus_by_id-Advances, unfocus_all-Advances,
  begin_close_by_id-Advances, minimize_by_id-Advances, pointer_click_focus-Advances,
  remove_window-Advances, sweep_closed-Advances,
}
use de.Wm.Step.Changes.{
  add_window-Advances, toggle_maximize_by_id-Advances, set_position_by_id-Advances,
  set_geometry_by_id-Advances, update_geometry-Advances, alt_tab_start-Advances,
  alt_tab_next-Advances, alt_tab_commit-Advances, alt_tab_cancel-Advances, tick_auto-Advances,
}

module _ ⦃fl : F64⦄ ⦃wl : Wayland⦄ where
  sync_new-Advances :
      (m : WindowManager) (s : wl.Surface) → Budget m → Inv m → Advances m (sync_new m s)
  unfolding sync_new
  sync_new-Advances m s b v = elim (Bool-cases (contains_key (key s) m.windows)) [
    | inl known ↦ rw known (still-Advances m m b refl refl v)
    | inr unknown ↦ rw unknown (add_window-Advances m s unknown b v)
  ]

  sync_destroyed-Advances :
      (m : WindowManager) (s : wl.Surface) → Budget m → Inv m → Advances m (sync_destroyed m s)
  unfolding sync_destroyed begin_close
  sync_destroyed-Advances m s b v = elim (Bool-cases (contains_key (key s) m.windows)) [
    | inl known ↦ rw known (close_key-Advances m (key s) b v)
    | inr unknown ↦ rw unknown (still-Advances m m b refl refl v)
  ]

  set_reserved_zones-Advances :
      (m : WindowManager) (top bottom left right : ℤ)
      → Budget m
      → Inv m
      → Advances m (set_reserved_zones m top bottom left right)
  unfolding set_reserved_zones
  set_reserved_zones-Advances m t bo l r b v =
      still-Advances m _ b refl refl (record { formed = v.formed; focus = v.focus })

  -- The result of an operation.
  step-Advances :
      (m m' : WindowManager) (o : Op) → step m o ≡ some m' → Budget m → Inv m → Advances m m'
  step-Advances m m' (frame fuel now) e b v =
      let (r, f, g) = >>=-eq-some (tick_auto fuel m now) _ e in
      subst (Advances m) (eq_of_some g) (tick_auto-Advances fuel m now r f b v)
  step-Advances m m' (register s) e b v =
      subst (Advances m) (eq_of_some e) (sync_new-Advances m s b v)
  step-Advances m m' (destroyed s) e b v =
      subst (Advances m) (eq_of_some e) (sync_destroyed-Advances m s b v)
  step-Advances m m' (removed s) e b v =
      subst (Advances m) (eq_of_some e) (remove_window-Advances m s b v)
  step-Advances m m' (close id) e b v =
      subst (Advances m) (eq_of_some e) (begin_close_by_id-Advances m id b v)
  step-Advances m m' sweep e b v = subst (Advances m) (eq_of_some e) (sweep_closed-Advances m b v)
  step-Advances m m' (focus s) e b v =
      subst (Advances m) (eq_of_some e) (focus_surface-Advances m s b v)
  step-Advances m m' (focus_id id) e b v =
      subst (Advances m) (eq_of_some e) (focus_by_id-Advances m id b v)
  step-Advances m m' unfocus e b v = subst (Advances m) (eq_of_some e) (unfocus_all-Advances m b v)
  step-Advances m m' (click x y) e b v =
      subst (Advances m) (eq_of_some e) (pointer_click_focus-Advances m x y b v)
  step-Advances m m' (minimize id) e b v =
      subst (Advances m) (eq_of_some e) (minimize_by_id-Advances m id b v)
  step-Advances m m' (restore id) e b v =
      subst (Advances m) (eq_of_some e) (restore_by_id-Advances m id b v)
  step-Advances m m' (toggle_maximize id) e b v =
      subst (Advances m) (eq_of_some e) (toggle_maximize_by_id-Advances m id b v)
  step-Advances m m' (move id x y) e b v =
      subst (Advances m) (eq_of_some e) (set_position_by_id-Advances m id x y b v)
  step-Advances m m' (resize id x y w h) e b v =
      subst (Advances m) (eq_of_some e) (set_geometry_by_id-Advances m id x y w h b v)
  step-Advances m m' (commit_buffer s w h) e b v =
      subst (Advances m) (eq_of_some e) (update_geometry-Advances m s w h b v)
  step-Advances m m' (reserve t bo l r) e b v =
      subst (Advances m) (eq_of_some e) (set_reserved_zones-Advances m t bo l r b v)
  step-Advances m m' tab_start e b v =
      subst (Advances m) (eq_of_some e) (alt_tab_start-Advances m b v)
  step-Advances m m' tab_next e b v =
      subst (Advances m) (eq_of_some e) (alt_tab_next-Advances m b v)
  step-Advances m m' tab_commit e b v =
      subst (Advances m) (eq_of_some e) (alt_tab_commit-Advances m b v)
  step-Advances m m' tab_cancel e b v =
      subst (Advances m) (eq_of_some e) (alt_tab_cancel-Advances m b v)

  -- Room for the ids and z-orders of `n` more operations.
  abbrev RoomFor : ℕ → WindowManager → Type 0
  RoomFor n m =
      (m.next_z + n < 18446744073709551616)
      × (pos_part m.next_id + n ≤ 2147483647)
      × (neg_part m.next_id ≡ 0)

  RoomFor-Budget : (n : ℕ) (m : WindowManager) → RoomFor (suc n) m → Budget m
  RoomFor-Budget n m r = omega (arith, r)

  run-Inv :
      (os : List Op) (m m' : WindowManager)
      → run m os ≡ some m'
      → RoomFor (length os) m
      → Inv m
      → Inv m'
  unfolding run
  run-Inv [] m m' e r v = subst Inv (eq_of_some e) v
  run-Inv (o ∷ os) m m' e r v =
      let (m₁, f, g) = >>=-eq-some (step m o) _ e in
      let a = step-Advances m m₁ o f (RoomFor-Budget (length os) m r) v in
      run-Inv os m₁ m' g (omega (arith, a.z_step, a.id_step, a.id_stays_positive, r)) a.kept

  -- Every frame of the sequence has at least `bound` as its fuel.
  abbrev pub Fuelled : ℕ → List Op → Type 0
  Fuelled bound [] = Unit {0}
  Fuelled bound (frame fuel now ∷ os) = (bound ≤ fuel) × Fuelled bound os
  Fuelled bound (_ ∷ os) = Fuelled bound os

  module _ {measure : fl.Float → ℕ} {bound : ℕ} (laws : FrameLaws measure bound) where
    tick_windows_return :
        (fuel : ℕ) (ws : Windows) (dt : fl.Float)
        → bound ≤ fuel
        → fl.fle dt (fl.lit 1 1) ≡ true
        → (ws' : Windows) × (tick_windows fuel ws dt ≡ some ws')
    unfolding tick_windows
    tick_windows_return fuel [] dt h c = ([], refl)
    tick_windows_return fuel ((k, w) ∷ ws) dt h c =
        let (w', e) = tick_returns_window laws fuel w dt h c in
        let (ws', f) = tick_windows_return fuel ws dt h c in ((k, w') ∷ ws', rw (e, f))

    frame_dt_capped : (last : Option ℕ) (now : ℕ) → fl.fle (frame_dt last now) (fl.lit 1 1) ≡ true
    unfolding frame_dt
    frame_dt_capped none now = laws.first
    frame_dt_capped (some last) now = laws.capped _

    -- A frame of the window manager ends: with the fuel that a frame of 100 ms takes, `tick_auto`
    -- returns, at any time and whatever the last tick was.
    pub tick_auto_returns :
        (fuel : ℕ) (m : WindowManager) (now : ℕ)
        → bound ≤ fuel
        → (r : fl.Float × WindowManager) × (tick_auto fuel m now ≡ some r)
    unfolding tick_auto tick_all
    tick_auto_returns fuel m now h =
        let (ws, e) =
          tick_windows_return fuel m.windows (frame_dt m.last_tick now) h
            (frame_dt_capped m.last_tick now) in
        ((frame_dt m.last_tick now, record m { windows = ws; last_tick = some now }), rw e)

    step_returns :
        (m : WindowManager) (o : Op) (os : List Op)
        → Fuelled bound (o ∷ os)
        → (m' : WindowManager) × (step m o ≡ some m') × Fuelled bound os
    step_returns m (frame fuel now) os f =
        let (r, e) = tick_auto_returns fuel m now f.0 in (r.1, rw e, f.1)
    step_returns m (register s) os f = (_, refl, f)
    step_returns m _ os f = (_, refl, f)

    run_returns :
        (os : List Op) (m : WindowManager)
        → Fuelled bound os
        → (m' : WindowManager) × (run m os ≡ some m')
    unfolding run
    run_returns [] m f = (m, refl)
    run_returns (o ∷ os) m f =
        let (m₁, e, f') = step_returns m o os f in
        let (m', g) = run_returns os m₁ f' in (m', rw e g)

    -- From a new window manager, any sequence of fewer than 2^31 - 1 calls, whose frames have the
    -- fuel that a frame of 100 ms takes, ends in a state that satisfies the invariant: keys, ids and
    -- z-orders are distinct and below their counters, the focus stack holds each key once and only
    -- of windows that can take the focus, and at most one window is focused, its key on the stack.
    pub run-new-Inv :
        (output_w output_h : ℤ) (os : List Op)
        → length os < 2147483647
        → Fuelled bound os
        → (m : WindowManager) × (run (new output_w output_h) os ≡ some m) × Inv m
    unfolding new
    run-new-Inv output_w output_h os few f =
        let (m, e) = run_returns os (new output_w output_h) f in
        (m, e, run-Inv os _ m e (omega arith) (new-Inv output_w output_h))

-- ===== src/Compositor/Input/Touch.antt =====
-- A touch stays with the surface that it began on.
use de.Prelude.{
  ℕ, ◌≡◌, refl, Bool, true, false, not, ◌&&◌, ◌||◌, Bool-cases, inl, inr, List, [], ◌∷◌, Option,
  none, some, ◌==◌, if◌then◌else◌, arith, ◌∙◌, ap, is_some, ltb, ℤ,
}
use de.F64.{F64}
use de.HashMap.{get, get-insert, get-remove}
use de.Layer.{LayerInfo}
use de.Compositor.{SpikeState, or_else}
use de.Compositor.Hits.{SurfaceHit}
use de.Compositor.Outputs.{Screens, output_logical_size, register_output, unregister_output}
use de.Compositor.Layers.{
  Clients, fallback_size, push_layer, new_layer_surface, layer_destroyed, refresh_sized,
  refresh_outputs, refresh_layer_layout_for_output, refresh_layer_layout_for_outputs,
}
use de.Compositor.Lock.{
  lock, unlock, push_lock_surface, new_surface, confirm, commit_lock_surface, has_surface,
}
use de.Compositor.Input.{
  Constraint, move_on, down_on, forward_pointer_motion, forward_touch_down, forward_touch_motion,
  forward_touch_up, forward_touch_cancel, notify_activity, touch_motion,
}
use de.Compositor.Session.{
  Op, HitTest, plug, unplug, map_layer, unmap_layer, layout, ask_lock, end_lock, lock_surface,
  commit, move_pointer, press, release, cancel_touch, windows, step, run,
}

module _ ⦃fl : F64⦄ where
  open fl use {Float}

  -- The call neither begins nor ends a touch in the slot.
  abbrev keeps_touch : ℕ → Op → Bool
  keeps_touch slot (press k hit other x y) = not (other == slot)
  keeps_touch slot (release other) = not (other == slot)
  keeps_touch slot cancel_touch = false
  keeps_touch slot _ = true

  abbrev pub all_keep_touch : ℕ → List Op → Bool
  all_keep_touch slot [] = true
  all_keep_touch slot (op ∷ ops) = keeps_touch slot op && all_keep_touch slot ops

  abbrev TouchAs : SpikeState → SpikeState → Type 0
  TouchAs s s' = s'.touch_focus ≡ s.touch_focus

  push_layer-TouchAs :
      (s : SpikeState) (info : ℕ → LayerInfo) (o : Option ℕ) → TouchAs s (push_layer s info o)
  push_layer-TouchAs s info none = refl
  push_layer-TouchAs s info (some output) = refl

  push_lock_surface-TouchAs :
      (sc : Screens) (s : SpikeState) (surface : ℕ) (o : Option ℕ)
      → TouchAs s (push_lock_surface sc s surface o).1
  push_lock_surface-TouchAs sc s surface none = refl
  push_lock_surface-TouchAs sc s surface (some output) = refl

  lock-TouchAs : (s : SpikeState) (locker : ℕ) → TouchAs s (lock s locker).1
  unfolding lock
  lock-TouchAs s locker = elim (Bool-cases (s.session_locked || is_some s.pending_session_lock)) [
    | inl e ↦ rw e refl
    | inr e ↦ rw e refl
  ]

  confirm-TouchAs : (p : Option ℕ) (width : ℕ) (s : SpikeState) → TouchAs s (confirm p width s)
  confirm-TouchAs none width s = refl
  confirm-TouchAs (some locker) width s = elim (Bool-cases (ltb 0 width)) [
    | inl e ↦ rw e refl
    | inr e ↦ rw e refl
  ]

  commit-TouchAs :
      (s : SpikeState) (root width : ℕ) → TouchAs s (commit_lock_surface s root width).1
  unfolding commit_lock_surface
  commit-TouchAs s root width = elim (Bool-cases (has_surface root s.lock_surfaces)) [
    | inl e ↦ rw e (confirm-TouchAs s.pending_session_lock width _)
    | inr e ↦ rw e refl
  ]

  refresh-TouchAs :
      (cl : Clients) (s : SpikeState) (output : ℕ) (size : Option (ℤ × ℤ))
      → TouchAs s (refresh_sized cl s output size).0
  unfolding refresh_layer_layout_for_output
  refresh-TouchAs cl s output none = refl
  refresh-TouchAs cl s output (some (w, h)) = refl

  refreshes-TouchAs :
      (cl : Clients) (sc : Screens) (fallback : Option (ℤ × ℤ)) (outputs : List ℕ) (s : SpikeState)
      → TouchAs s (refresh_outputs cl sc s fallback outputs).0
  unfolding refresh_outputs
  refreshes-TouchAs cl sc fallback [] s = refl
  refreshes-TouchAs cl sc fallback (o ∷ os) s =
      refreshes-TouchAs cl sc fallback os _
      ∙ refresh-TouchAs cl s o (or_else (output_logical_size sc o) (fallback_size s o fallback))

  move_on-TouchAs :
      (stopped : Bool) (constraint : ℕ → Constraint) (s : SpikeState) (next : SurfaceHit)
      (x y : Float)
      → TouchAs s (move_on stopped constraint s next x y).1
  move_on-TouchAs true constraint s next x y = refl
  move_on-TouchAs false constraint s next x y = refl

  down_on-get :
      (k : Bool) (s : SpikeState) (other slot : ℕ) (hit : SurfaceHit)
      → get slot (down_on k s other hit).1.touch_focus
        ≡ (if other == slot then hit else get slot s.touch_focus)
  down_on-get k s other slot none = get-remove slot other s.touch_focus
  down_on-get k s other slot (some hit) = get-insert slot other hit s.touch_focus

  step-get :
      (s : SpikeState) (op : Op) (slot : ℕ)
      → keeps_touch slot op ≡ true
      → get slot (step s op).touch_focus ≡ get slot s.touch_focus
  unfolding step layer_destroyed new_layer_surface new_surface refresh_layer_layout_for_outputs
      forward_touch_down forward_touch_up forward_touch_cancel forward_pointer_motion
      register_output unregister_output unlock
  step-get s (plug output) slot h = refl
  step-get s (unplug output) slot h = refl
  step-get s (map_layer surface o layer namespace pending) slot h =
      ap (get slot) (push_layer-TouchAs s _ _)
  step-get s (unmap_layer surface) slot h = refl
  step-get s (layout cl sc fallback) slot h =
      ap (get slot) (refreshes-TouchAs cl sc fallback s.outputs s)
  step-get s (ask_lock locker) slot h = ap (get slot) (lock-TouchAs s locker)
  step-get s end_lock slot h = refl
  step-get s (lock_surface sc surface o) slot h =
      ap (get slot) (push_lock_surface-TouchAs sc s surface _)
  step-get s (commit root width) slot h = ap (get slot) (commit-TouchAs s root width)
  step-get s (move_pointer constraint hit x y) slot h =
      ap (get slot) (move_on-TouchAs _ constraint s (hit s x y) x y)
  step-get s (press k hit other x y) slot h =
      let e : (other == slot) ≡ false = ground arith in
      down_on-get k s other slot (hit s x y) ∙ rw e refl
  step-get s (release other) slot h =
      let e : (other == slot) ≡ false = ground arith in
      get-remove slot other s.touch_focus ∙ rw e refl
  step-get s cancel_touch slot h = cc
  step-get s (windows toplevels popups active) slot h = refl

  run-get :
      (s : SpikeState) (ops : List Op) (slot : ℕ)
      → all_keep_touch slot ops ≡ true
      → get slot (run s ops).touch_focus ≡ get slot s.touch_focus
  unfolding run
  run-get s [] slot h = refl
  run-get s (op ∷ ops) slot h =
      run-get (step s op) ops slot (ground arith) ∙ step-get s op slot (ground arith)

  -- A touch that has begun, through calls that do not end it.
  pub forward_touch_motion-run :
      (s : SpikeState) (ops : List Op) (k : Bool) (under : HitTest) (slot : ℕ) (x y : Float)
      → all_keep_touch slot ops ≡ true
      → forward_touch_motion (run (step s (press k under slot x y)) ops) slot
        ≡ notify_activity ∷ touch_motion slot (under s x y) ∷ []
  unfolding forward_touch_motion forward_touch_down step
  forward_touch_motion-run s ops k under slot x y h =
      let same : (slot == slot) ≡ true = ground arith in
      ap (λ hit. notify_activity ∷ touch_motion slot hit ∷ [])
        (run-get _ ops slot h ∙ down_on-get k s slot slot (under s x y) ∙ rw same refl)

-- ===== src/Examples/Sessions.antt =====
-- The theorems on the compositor's session at a concrete session: one output, a lock client and a
-- touch that begins before the lock.
use de.Prelude.{ℕ, ◌≡◌, refl, true, List, [], ◌∷◌, none, some, pos}
use de.F64.Billionths.{billionths}
use de.Compositor.{SpikeState, new}
use de.Compositor.Outputs.{Screens, resolve_wl_output}
use de.Compositor.Lock.{has_surface}
use de.Compositor.Hits.{state_surface_under}
use de.Compositor.Input.{
  no_constraint, forward_keyboard_keycode, forward_pointer_motion, forward_touch_down,
  forward_touch_motion, notify_activity, touch_motion,
}
use de.Compositor.Input.Locked.{keys_to, all_reach_only, locked_keyboard, locked_pointer}
use de.Compositor.Input.Touch.{forward_touch_motion-run}
use de.Compositor.Session.{
  Op, HitTest, plug, ask_lock, lock_surface, commit, windows, press, step, run,
}
use de.Compositor.Session.Coherent.{IsCoherent, run-new-IsCoherent}

abbrev screens : Screens
screens = record {
  current_mode = λ output. some (pos 1920, pos 1080);
  fractional_scale = λ output. pos 1_000_000_000;
  current_location = λ output. (pos 0, pos 0);
}

abbrev locking : List Op
locking =
    plug 1
    ∷ lock_surface screens 7 (some 1)
    ∷ ask_lock 3
    ∷ commit 7 640
    ∷ windows [] [] (some 9)
    ∷ []

abbrev locked : SpikeState
locked = run new locking

locked_is_locked : locked.session_locked ≡ true
unfolding run step new resolve_wl_output
locked_is_locked = refl

run-new-IsCoherent_example : IsCoherent (run new locking)
run-new-IsCoherent_example = run-new-IsCoherent locking

locked_keyboard_example :
    (surface : ℕ) × (keys_to
        (some 9)
        (forward_keyboard_keycode screens true (some 9) (run new locking))
      ≡ some surface ∷ [])
    × (has_surface surface (run new locking).lock_surfaces ≡ true)
locked_keyboard_example = locked_keyboard screens (some 9) locking locked_is_locked

locked_pointer_example :
    let under = state_surface_under (λ s p o. none) screens in
    (all_reach_only locked.lock_surfaces
        (forward_pointer_motion (λ s. no_constraint) under locked (pos 5) (pos 6)).0
      ≡ true)
    × (all_reach_only locked.lock_surfaces
          (forward_touch_down true under locked 0 (pos 5) (pos 6)).0
        ≡ true)
locked_pointer_example =
    locked_pointer (λ s p o. none) screens (λ s. no_constraint) true locked 0 (pos 5) (pos 6)
      locked_is_locked

abbrev on_nine : HitTest
on_nine = λ s x y. some (9, pos 0, pos 0)

forward_touch_motion-run_example :
    forward_touch_motion (run (step new (press true on_nine 0 (pos 5) (pos 6))) locking) 0
    ≡ notify_activity ∷ touch_motion 0 (on_nine new (pos 5) (pos 6)) ∷ []
forward_touch_motion-run_example =
    forward_touch_motion-run new locking true on_nine 0 (pos 5) (pos 6) refl

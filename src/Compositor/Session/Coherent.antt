-- ===== src/Compositor/Session/Coherent.antt =====
-- What holds of the compositor's state after any calls: the scopes are those of the outputs, the
-- primary output is one of them, and a locked session has a lock surface and no pending locker.
mod Scopes
use de.Prelude.{
  ℕ, ◌≡◌, refl, Bool, true, false, ◌&&◌, ◌||◌, Bool-cases, inl, inr, List, [], ◌∷◌, ◌++◌, Option,
  none, some, ◌==◌, if◌then◌else◌, is_some, is_none, is_some_and, contains, without, push, Distinct,
  arith, ltb, without-Distinct, push-Distinct, contains-without, contains-push, ℤ, sym, ◌∙◌, ap,
  subst,
}
use de.F64.{F64}
use de.HashMap.{keys, insert, contains_key, keys-remove}
use de.Layer.{LayerInfo, ReservedZones, no_zones}
use de.Compositor.{SpikeState, new, LockSurfaceInfo, or_else}
use de.Compositor.Outputs.{Screens, first, register_output, unregister_output, output_logical_size}
use de.Compositor.Layers.{
  Clients, push_layer, fallback_size, new_layer_surface, layer_destroyed,
  refresh_layer_layout_for_output, refresh_sized, refresh_outputs, refresh_layer_layout_for_outputs,
}
use de.Compositor.Lock.{
  lock, unlock, new_surface, commit_lock_surface, has_surface, import_width, confirm,
  push_lock_surface,
}
use de.Compositor.Hits.{SurfaceHit}
use de.Compositor.Input.{
  down_on, move_on, Constraint, forward_pointer_motion, forward_touch_down, forward_touch_up,
  forward_touch_cancel,
}
use de.Compositor.Session.{
  Op, plug, unplug, map_layer, unmap_layer, layout, ask_lock, end_lock, lock_surface, commit,
  move_pointer, press, release, cancel_touch, windows, step, run,
}
pub use de.Compositor.Session.Coherent.Scopes.{is_empty}
use de.Compositor.Session.Coherent.Scopes.{
  is_primary, registered-Distinct, registered_keys, registered_primary, unregistered_primary,
  appended_shown, import-is_empty, nonempty, keys-insert_old, all_in, all_in_self,
}

module _ ⦃fl : F64⦄ where
  open fl use {Float}

  pub record IsCoherent (s : SpikeState) : Type 0 where
    pub distinct : Distinct s.outputs
    pub scoped : keys s.output_scopes ≡ s.outputs
    pub primary : is_primary s.output s.outputs ≡ true
    pub shown : (s.session_locked && is_empty s.lock_surfaces) ≡ false
    pub confirmed : (s.session_locked && is_some s.pending_session_lock) ≡ false

  -- A call that leaves the outputs and the lock alone.
  unchanged :
      {s s' : SpikeState}
      → s'.outputs ≡ s.outputs
      → keys s'.output_scopes ≡ keys s.output_scopes
      → s'.output ≡ s.output
      → s'.session_locked ≡ s.session_locked
      → s'.lock_surfaces ≡ s.lock_surfaces
      → s'.pending_session_lock ≡ s.pending_session_lock
      → IsCoherent s
      → IsCoherent s'
  unchanged a b c d e f h = record {
    distinct = subst Distinct (sym a) h.distinct;
    scoped = b ∙ h.scoped ∙ sym a;
    primary = rw (a, c) h.primary;
    shown = rw (d, e) h.shown;
    confirmed = rw (d, f) h.confirmed;
  }

  register-IsCoherent :
      (s : SpikeState) (output : ℕ) → IsCoherent s → IsCoherent (register_output s output)
  unfolding register_output
  register-IsCoherent s output h = record {
    distinct = registered-Distinct output s.outputs h.distinct;
    scoped = registered_keys output s.output_scopes s.outputs h.scoped;
    primary = registered_primary output s.output s.outputs h.primary;
    shown = h.shown;
    confirmed = h.confirmed;
  }

  unregister-IsCoherent :
      (s : SpikeState) (output : ℕ) → IsCoherent s → IsCoherent (unregister_output s output)
  unfolding unregister_output
  unregister-IsCoherent s output h = record {
    distinct = without-Distinct output s.outputs h.distinct;
    scoped = keys-remove output s.output_scopes ∙ ap (without output) h.scoped;
    primary = unregistered_primary output s.output s.outputs h.primary;
    shown = h.shown;
    confirmed = h.confirmed;
  }

  push_layer-IsCoherent :
      (s : SpikeState) (info : ℕ → LayerInfo) (o : Option ℕ)
      → IsCoherent s
      → IsCoherent (push_layer s info o)
  push_layer-IsCoherent s info none h = h
  push_layer-IsCoherent s info (some output) h = unchanged {s = s} refl refl refl refl refl refl h

  push_lock_surface-IsCoherent :
      (sc : Screens) (s : SpikeState) (surface : ℕ) (o : Option ℕ)
      → IsCoherent s
      → IsCoherent (push_lock_surface sc s surface o).1
  push_lock_surface-IsCoherent sc s surface none h = h
  push_lock_surface-IsCoherent sc s surface (some output) h =
      let shown =
        appended_shown s.lock_surfaces (record { surface = surface; output = output; width = 0 }) in
      record {
        distinct = h.distinct;
        scoped = h.scoped;
        primary = h.primary;
        shown = rw shown (ground arith);
        confirmed = h.confirmed;
      }

  lock-IsCoherent : (s : SpikeState) (locker : ℕ) → IsCoherent s → IsCoherent (lock s locker).1
  unfolding lock
  lock-IsCoherent s locker h =
      elim (Bool-cases (s.session_locked || is_some s.pending_session_lock)) [
        | inl e ↦ rw e h
        | inr e ↦
            let unlocked : s.session_locked ≡ false = ground arith in
            rw e (record {
              distinct = h.distinct;
              scoped = h.scoped;
              primary = h.primary;
              shown = h.shown;
              confirmed = rw unlocked refl;
            })
      ]

  unlock-IsCoherent : (s : SpikeState) → IsCoherent s → IsCoherent (unlock s)
  unfolding unlock
  unlock-IsCoherent s h = record {
    distinct = h.distinct;
    scoped = h.scoped;
    primary = h.primary;
    shown = refl;
    confirmed = refl;
  }

  confirm-IsCoherent :
      (p : Option ℕ) (width : ℕ) (s : SpikeState)
      → is_empty s.lock_surfaces ≡ false
      → IsCoherent s
      → IsCoherent (confirm p width s)
  confirm-IsCoherent none width s shown h = h
  confirm-IsCoherent (some locker) width s shown h = elim (Bool-cases (ltb 0 width)) [
    | inl w ↦ rw w (record {
      distinct = h.distinct;
      scoped = h.scoped;
      primary = h.primary;
      shown = shown;
      confirmed = refl;
    })
    | inr w ↦ rw w h
  ]

  commit-IsCoherent :
      (s : SpikeState) (root width : ℕ)
      → IsCoherent s
      → IsCoherent (commit_lock_surface s root width).1
  unfolding commit_lock_surface
  commit-IsCoherent s root width h = elim (Bool-cases (has_surface root s.lock_surfaces)) [
    | inr e ↦ rw e h
    | inl e ↦
        let empty = import-is_empty root width s.lock_surfaces in
        rw e (
          confirm-IsCoherent s.pending_session_lock width _
            (empty ∙ nonempty root s.lock_surfaces e)
            (record {
              distinct = h.distinct;
              scoped = h.scoped;
              primary = h.primary;
              shown = rw empty h.shown;
              confirmed = h.confirmed;
            }))
  ]

  layout-IsCoherent :
      (cl : Clients) (s : SpikeState) (output : ℕ) (size : Option (ℤ × ℤ))
      → contains output s.outputs ≡ true
      → IsCoherent s
      → IsCoherent (refresh_sized cl s output size).0
        × ((refresh_sized cl s output size).0.outputs ≡ s.outputs)
  unfolding refresh_layer_layout_for_output
  layout-IsCoherent cl s output none c h = (h, refl)
  layout-IsCoherent cl s output (some (w, y)) c h =
      let here = subst (λ ks. contains output ks ≡ true) (sym h.scoped) c in
      (
        record {
          distinct = h.distinct;
          scoped = keys-insert_old output _ s.output_scopes here ∙ h.scoped;
          primary = h.primary;
          shown = h.shown;
          confirmed = h.confirmed;
        },
        refl,
      )

  layouts-IsCoherent :
      (cl : Clients) (sc : Screens) (fallback : Option (ℤ × ℤ)) (outputs : List ℕ) (s : SpikeState)
      → all_in outputs s.outputs ≡ true
      → IsCoherent s
      → IsCoherent (refresh_outputs cl sc s fallback outputs).0
  unfolding refresh_outputs
  layouts-IsCoherent cl sc fallback [] s c h = h
  layouts-IsCoherent cl sc fallback (o ∷ os) s c h =
      let (h', e) =
        layout-IsCoherent cl s o (or_else (output_logical_size sc o) (fallback_size s o fallback))
          (ground arith) h in
      layouts-IsCoherent cl sc fallback os _ (rw e (ground arith)) h'

  down-IsCoherent :
      (k : Bool) (s : SpikeState) (slot : ℕ) (hit : SurfaceHit)
      → IsCoherent s
      → IsCoherent (down_on k s slot hit).1
  down-IsCoherent k s slot none h = unchanged {s = s} refl refl refl refl refl refl h
  down-IsCoherent k s slot (some hit) h = unchanged {s = s} refl refl refl refl refl refl h

  move_on-IsCoherent :
      (stopped : Bool) (constraint : ℕ → Constraint) (s : SpikeState) (next : SurfaceHit)
      (x y : Float)
      → IsCoherent s
      → IsCoherent (move_on stopped constraint s next x y).1
  move_on-IsCoherent true constraint s next x y h = h
  move_on-IsCoherent false constraint s next x y h =
      unchanged {s = s} refl refl refl refl refl refl h

  step-IsCoherent : (s : SpikeState) (op : Op) → IsCoherent s → IsCoherent (step s op)
  unfolding step layer_destroyed new_layer_surface new_surface refresh_layer_layout_for_outputs
      forward_touch_down forward_touch_up forward_touch_cancel forward_pointer_motion
  step-IsCoherent s (plug output) h = register-IsCoherent s output h
  step-IsCoherent s (unplug output) h = unregister-IsCoherent s output h
  step-IsCoherent s (map_layer surface o layer namespace pending) h = push_layer-IsCoherent s _ _ h
  step-IsCoherent s (unmap_layer surface) h = unchanged {s = s} refl refl refl refl refl refl h
  step-IsCoherent s (layout cl sc fallback) h =
      layouts-IsCoherent cl sc fallback s.outputs s (all_in_self s.outputs) h
  step-IsCoherent s (ask_lock locker) h = lock-IsCoherent s locker h
  step-IsCoherent s end_lock h = unlock-IsCoherent s h
  step-IsCoherent s (lock_surface sc surface o) h = push_lock_surface-IsCoherent sc s surface _ h
  step-IsCoherent s (commit root width) h = commit-IsCoherent s root width h
  step-IsCoherent s (move_pointer constraint hit x y) h =
      move_on-IsCoherent _ constraint s (hit s x y) x y h
  step-IsCoherent s (press k hit slot x y) h = down-IsCoherent k s slot (hit s x y) h
  step-IsCoherent s (release slot) h = unchanged {s = s} refl refl refl refl refl refl h
  step-IsCoherent s cancel_touch h = unchanged {s = s} refl refl refl refl refl refl h
  step-IsCoherent s (windows toplevels popups active) h =
      unchanged {s = s} refl refl refl refl refl refl h

  run-IsCoherent : (s : SpikeState) (ops : List Op) → IsCoherent s → IsCoherent (run s ops)
  unfolding run
  run-IsCoherent s [] h = h
  run-IsCoherent s (op ∷ ops) h = run-IsCoherent (step s op) ops (step-IsCoherent s op h)

  -- Whatever is called on a new compositor.
  pub run-new-IsCoherent : (ops : List Op) → IsCoherent (run new ops)
  unfolding new
  run-new-IsCoherent ops =
      run-IsCoherent new ops
        (record { distinct = tt; scoped = refl; primary = refl; shown = refl; confirmed = refl })

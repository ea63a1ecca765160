-- ===== src/Compositor/Input/Locked.antt =====
-- While the session is locked, input goes to lock surfaces and to nothing else.
use de.Prelude.{
  ℕ, ◌≡◌, refl, Bool, true, false, ◌&&◌, Bool-cases, Option-cases, inl, inr, List, [], ◌∷◌, ◌++◌,
  Option, none, some, ◌==◌, ==_iff, arith, ap, subst,
}
use de.F64.{F64}
use de.Compositor.{new, SpikeState, LockSurfaceInfo, or_else}
use de.Compositor.Outputs.{Screens, first, find, lock_surface_for_point}
use de.Compositor.Lock.{has_surface}
use de.Compositor.Hits.{SurfaceHit, Trees, lock_hit, state_surface_under}
use de.Compositor.Session.{Op, run}
use de.Compositor.Session.Coherent.{is_empty, run-new-IsCoherent}
use de.Compositor.Input.{
  no_constraint, lock_pointer, confine_pointer, inactive, local, activates, SeatCall, set_focus,
  input_forward, relative_motion, motion, activate, touch_down, touch_motion, Constraint, move_on,
  keyboard_target, forward_keyboard_keycode, forward_pointer_motion, forward_touch_down,
  lock_surface_of, to_keyboard, down_on, activations,
}

abbrev on_locks : List LockSurfaceInfo → Option LockSurfaceInfo → Bool
on_locks locks none = true
on_locks locks (some l) = has_surface l.surface locks

on_locks_more :
    (k : LockSurfaceInfo) (locks : List LockSurfaceInfo) (o : Option LockSurfaceInfo)
    → on_locks locks o ≡ true
    → on_locks (k ∷ locks) o ≡ true
on_locks_more k locks none h = refl
on_locks_more k locks (some l) h = ground arith

on_locks-find :
    (p : LockSurfaceInfo → Bool) (locks : List LockSurfaceInfo)
    → on_locks locks (find p locks) ≡ true
on_locks-find p [] = refl
on_locks-find p (k ∷ ks) = elim (Bool-cases (p k)) [
  | inl t ↦ rw t (ground arith)
  | inr t ↦ rw t (on_locks_more k ks (find p ks) (on_locks-find p ks))
]

on_locks-first : (locks : List LockSurfaceInfo) → on_locks locks (first locks) ≡ true
on_locks-first [] = refl
on_locks-first (k ∷ ks) = ground arith

on_locks-or_else :
    (locks : List LockSurfaceInfo) (o o' : Option LockSurfaceInfo)
    → on_locks locks o ≡ true
    → on_locks locks o' ≡ true
    → on_locks locks (or_else o o') ≡ true
on_locks-or_else locks none o' h h' = h'
on_locks-or_else locks (some l) o' h h' = h

module _ ⦃fl : F64⦄ where
  open fl use {Float}

  abbrev hits_only : List LockSurfaceInfo → SurfaceHit → Bool
  hits_only locks none = true
  hits_only locks (some hit) = has_surface hit.0 locks

  -- The surfaces that a call reaches are lock surfaces.
  abbrev pub reaches_only : List LockSurfaceInfo → SeatCall → Bool
  reaches_only locks (set_focus surface) = has_surface surface locks
  reaches_only locks (relative_motion hit dx dy) = hits_only locks hit
  reaches_only locks (motion hit x y) = hits_only locks hit
  reaches_only locks (activate surface) = has_surface surface locks
  reaches_only locks (touch_down slot hit) = hits_only locks hit
  reaches_only locks (touch_motion slot hit) = hits_only locks hit
  reaches_only locks _ = true

  abbrev pub all_reach_only : List LockSurfaceInfo → List SeatCall → Bool
  all_reach_only locks [] = true
  all_reach_only locks (c ∷ cs) = reaches_only locks c && all_reach_only locks cs

  -- Where keys go: the focus that each `input_forward` finds.
  abbrev pub keys_to : Option ℕ → List SeatCall → List (Option ℕ)
  keys_to focus [] = []
  keys_to focus (set_focus surface ∷ cs) = keys_to (some surface) cs
  keys_to focus (input_forward ∷ cs) = focus ∷ keys_to focus cs
  keys_to focus (_ ∷ cs) = keys_to focus cs

  on_locks-lock_surface_for_point :
      (sc : Screens) (s : SpikeState) (x y : Float)
      → on_locks s.lock_surfaces (lock_surface_for_point sc s x y) ≡ true
  unfolding lock_surface_for_point
  on_locks-lock_surface_for_point sc s x y =
      on_locks-or_else s.lock_surfaces _ (first s.lock_surfaces) (on_locks-find _ s.lock_surfaces)
        (on_locks-first s.lock_surfaces)

  hits_only-lock_hit :
      (locks : List LockSurfaceInfo) (o : Option LockSurfaceInfo)
      → on_locks locks o ≡ true
      → hits_only locks (lock_hit o) ≡ true
  hits_only-lock_hit locks none h = refl
  hits_only-lock_hit locks (some l) h = h

  hits_only-locked :
      (tree : Trees) (sc : Screens) (s : SpikeState) (x y : Float)
      → s.session_locked ≡ true
      → hits_only s.lock_surfaces (state_surface_under tree sc s x y) ≡ true
  unfolding state_surface_under
  hits_only-locked tree sc s x y locked =
      rw locked (hits_only-lock_hit s.lock_surfaces _ (on_locks-lock_surface_for_point sc s x y))

  activates-reach :
      (locks : List LockSurfaceInfo) (c : Constraint) (hit : ℕ × Float × Float) (x y : Float)
      → has_surface hit.0 locks ≡ true
      → (rest : List SeatCall) → all_reach_only locks rest ≡ true
      → all_reach_only locks (activates c hit x y ++ rest) ≡ true
  activates-reach locks no_constraint hit x y h rest r = r
  activates-reach locks (lock_pointer region) hit x y h rest r = r
  activates-reach locks (confine_pointer region) hit x y h rest r = r
  activates-reach locks (inactive region) hit x y h rest r =
      elim (Bool-cases (local region hit x y)) [ inl e ↦ rw (e, h) r | inr e ↦ rw e r ]

  activations-reach :
      (locks : List LockSurfaceInfo) (constraint : ℕ → Constraint) (next : SurfaceHit) (x y : Float)
      → hits_only locks next ≡ true
      → (rest : List SeatCall) → all_reach_only locks rest ≡ true
      → all_reach_only locks (activations constraint next x y ++ rest) ≡ true
  activations-reach locks constraint none x y h rest r = r
  activations-reach locks constraint (some hit) x y h rest r =
      activates-reach locks (constraint hit.0) hit x y h rest r

  move_on-reach :
      (stopped : Bool) (constraint : ℕ → Constraint) (s : SpikeState) (next : SurfaceHit)
      (x y : Float)
      → hits_only s.lock_surfaces next ≡ true
      → all_reach_only s.lock_surfaces (move_on stopped constraint s next x y).0 ≡ true
  move_on-reach true constraint s next x y h = refl
  move_on-reach false constraint s next x y h =
      activations-reach s.lock_surfaces constraint next x y h _ (ground arith)

  down_on-reach :
      (k : Bool) (s : SpikeState) (slot : ℕ) (hit : SurfaceHit)
      → hits_only s.lock_surfaces hit ≡ true
      → all_reach_only s.lock_surfaces (down_on k s slot hit).0 ≡ true
  down_on-reach k s slot none h = refl
  down_on-reach true s slot (some hit) h = rw h refl
  down_on-reach false s slot (some hit) h = rw h refl

  -- The pointer and new touches, while the session is locked.
  pub locked_pointer :
      (tree : Trees) (sc : Screens) (constraint : ℕ → Constraint) (k : Bool) (s : SpikeState)
      (slot : ℕ) (x y : Float)
      → s.session_locked ≡ true
      → let under = state_surface_under tree sc in
        (all_reach_only s.lock_surfaces (forward_pointer_motion constraint under s x y).0 ≡ true)
        × (all_reach_only s.lock_surfaces (forward_touch_down k under s slot x y).0 ≡ true)
  unfolding forward_pointer_motion forward_touch_down
  locked_pointer tree sc constraint k s slot x y locked =
      let here = hits_only-locked tree sc s s.pointer_pos.0 s.pointer_pos.1 locked in
      let there = hits_only-locked tree sc s x y locked in
      (rw here (move_on-reach _ constraint s _ x y there), down_on-reach k s slot _ there)

  keys_to-to_keyboard :
      (surface : ℕ) (focus : Option ℕ)
      → keys_to focus (to_keyboard true (some surface) focus) ≡ some surface ∷ []
  keys_to-to_keyboard surface none = refl
  keys_to-to_keyboard surface (some current) = elim (Bool-cases (current == surface)) [
    | inl e ↦ rw e (ap (λ c. some c ∷ []) ((==_iff current surface).0 e))
    | inr e ↦ rw e refl
  ]

  sent_to_lock :
      (locks : List LockSurfaceInfo) (p : LockSurfaceInfo → Bool) (focus : Option ℕ)
      → is_empty locks ≡ false
      → (surface : ℕ) × (keys_to focus
            (to_keyboard true (lock_surface_of (or_else (find p locks) (first locks))) focus)
          ≡ some surface ∷ [])
        × (has_surface surface locks ≡ true)
  sent_to_lock [] p focus h = cc
  sent_to_lock (l ∷ ls) p focus h = elim (Option-cases (find p (l ∷ ls))) [
    | inl e ↦ rw e (l.surface, keys_to-to_keyboard l.surface focus, ground arith)
    | inr (k, e) ↦
        let on = on_locks-find p (l ∷ ls) in
        rw e (
          k.surface,
          keys_to-to_keyboard k.surface focus,
          subst (λ o. on_locks (l ∷ ls) o ≡ true) e on,
        )
  ]

  -- Keys, while the session is locked: each goes to a lock surface.
  pub locked_keyboard :
      (sc : Screens) (focus : Option ℕ) (ops : List Op)
      → (run new ops).session_locked ≡ true
      → (surface : ℕ) × (keys_to focus (forward_keyboard_keycode sc true focus (run new ops))
          ≡ some surface ∷ [])
        × (has_surface surface (run new ops).lock_surfaces ≡ true)
  unfolding forward_keyboard_keycode keyboard_target lock_surface_for_point
  locked_keyboard sc focus ops locked =
      let s = run new ops in
      let shown = (run-new-IsCoherent ops).shown in
      rw locked (sent_to_lock s.lock_surfaces _ focus (ground arith))

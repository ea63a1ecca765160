-- ===== src/Wm/Place/Sweep.antt =====
-- Which windows a sweep drops.
use de.Prelude.{
  ℕ, ◌≡◌, refl, false, not, ◌&&◌, List, [], ◌∷◌, none, is_some_and, if◌then◌else◌, contains,
  Distinct, contains-without, arith,
}
use de.HashMap.{get, keys, get-remove, get-eq-none}
use de.F64.{F64}
use de.Window.{Wayland}
use de.Window.Lifecycle.{close_done}
use de.Wm.{WindowManager}
use de.Wm.Invariant.{Windows, Inv}
use de.Wm.Place.{done_keys, drop_key, sweep, sweep_closed}

module _ ⦃fl : F64⦄ ⦃wl : Wayland⦄ where
  sweep-get :
      (k : ℕ) (ks : List ℕ) (m : WindowManager)
      → (get k (sweep ks m).1.windows ≡ (if contains k ks then none else get k m.windows))
        × (contains k (sweep ks m).1.focus_stack
            ≡ (contains k m.focus_stack && not (contains k ks)))
  unfolding sweep
  sweep-get k [] m = ground arith
  sweep-get k (j ∷ ks) m =
      let (e, f) = sweep-get k ks (drop_key m j) in
      let g = get-remove k j m.windows in let c = contains-without k j m.focus_stack in ground arith

  done_keys-known :
      (k : ℕ) (ws : Windows) → contains k (keys ws) ≡ false → contains k (done_keys ws) ≡ false
  unfolding done_keys
  done_keys-known k [] h = refl
  done_keys-known k ((j, w) ∷ ws) h = ground (arith, done_keys-known k ws)

  contains-done_keys :
      (k : ℕ) (ws : Windows)
      → Distinct (keys ws)
      → contains k (done_keys ws) ≡ is_some_and (get k ws) close_done
  unfolding done_keys
  contains-done_keys k [] d = refl
  contains-done_keys k ((j, w) ∷ ws) d =
      ground (arith, contains-done_keys k ws d.1, done_keys-known k ws, get-eq-none k ws)

  -- In a state that satisfies the invariant, a sweep drops the window of a key if its close animation
  -- is done, from the windows and from the focus stack, and leaves the key's window and its place
  -- on the stack otherwise.
  sweep_closed-get :
      (m : WindowManager) (k : ℕ)
      → Inv m
      → let m' = (sweep_closed m).1 in
        let done = is_some_and (get k m.windows) close_done in
        (get k m'.windows ≡ (if done then none else get k m.windows))
        × (contains k m'.focus_stack ≡ (contains k m.focus_stack && not done))
  unfolding sweep_closed
  sweep_closed-get m k v =
      let e = contains-done_keys k m.windows v.formed.keys_distinct in
      rw (← e) (sweep-get k (done_keys m.windows) m)

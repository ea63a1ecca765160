-- ===== src/Notification/Server/Ids.antt =====
-- The ids that the server hands out, as long as its counter has not wrapped around.
use de.Prelude.{
  ℕ, suc, ◌+◌, ◌≤◌, ◌<◌, ◌≡◌, refl, false, List, [], ◌∷◌, Bool-cases, inl, inr, length, arith,
}
use de.HashMap.{contains_key}
use de.Notification.{Notification}
use de.Notification.History.{has_id}
use de.Notification.Hints.{Zvariant}
use de.Notification.Stored.{
  Every, push_history-Every, replace-Every, remove_by_id-Every, Entries, insert-Entries,
  remove-Entries, contains-Entries,
}
use de.Notification.Server.{NotificationState, new, succ_id, is_replacement, post, Call, step, run}
use de.Notification.Server.Invariant.{step-cases}

-- Every id in use is below the next one.
record IsFresh (s : NotificationState) : Type 0 where
  pub active_old : Entries (λ k _. k < s.next_id) s.active
  pub history_old : Every (λ n. n.id < s.next_id) s.history

Entries-mono :
    (a b : ℕ) (m : List (ℕ × Notification))
    → a ≤ b
    → Entries (λ k _. k < a) m
    → Entries (λ k _. k < b) m
Entries-mono a b [] h q = tt
Entries-mono a b ((k, n) ∷ m) h q = (omega (arith, q.0), Entries-mono a b m h q.1)

Every-mono :
    (a b : ℕ) (ns : List Notification) → a ≤ b → Every (λ n. n.id < a) ns → Every (λ n. n.id < b) ns
Every-mono a b [] h q = tt
Every-mono a b (n ∷ ns) h q = (omega (arith, q.0), Every-mono a b ns h q.1)

-- Kept by a call that adds at most one id.
abbrev Grows : NotificationState → NotificationState → Type 0
Grows s s' = IsFresh s' × (s'.next_id ≤ s.next_id + 1)

post-Grows :
    (s : NotificationState) (r : ℕ) (build : ℕ → Notification)
    → ((id : ℕ) → (build id).id ≡ id)
    → s.next_id < 4294967295
    → IsFresh s
    → Grows s (post s r build).2
unfolding post is_replacement
post-Grows s r build named b v = elim (Bool-cases (is_replacement s r)) [
  | inl old ↦
      let (_, below) = contains-Entries _ r s.active (ground arith) v.active_old in
      let named_r = named r in
      rw old (
        record {
          active_old = insert-Entries _ r (build r) s.active below v.active_old;
          history_old = replace-Every _ s.history r (build r) (λ _. omega arith) v.history_old;
        },
        omega arith,
      )
  | inr fresh ↦
      let bump : succ_id s.next_id ≡ suc s.next_id = ground arith in
      let named_n = named s.next_id in
      let older =
        Entries-mono s.next_id (succ_id s.next_id) s.active (omega (arith, bump)) v.active_old in
      let old =
        Every-mono s.next_id (succ_id s.next_id) s.history (omega (arith, bump)) v.history_old in
      rw fresh (
        record {
          active_old =
              insert-Entries _ s.next_id (build s.next_id) s.active (omega (arith, bump)) older;
          history_old =
              push_history-Every _ s.history (build s.next_id) (λ _. omega (arith, bump)) old;
        },
        omega (arith, bump),
      )
]

module _ ⦃zv : Zvariant⦄ where
  step-Grows :
      (s : NotificationState) (c : Call) → s.next_id < 4294967295 → IsFresh s → Grows s (step s c)
  step-Grows s c b v =
      step-cases (Grows s) s c (v, omega arith) (λ r build named. post-Grows s r build named b v)
        (λ id. (
          record {
            active_old = remove-Entries _ id s.active v.active_old;
            history_old = v.history_old;
          },
          omega arith,
        ))
        (λ id. (
          record {
            active_old = v.active_old;
            history_old = remove_by_id-Every _ s.history id v.history_old;
          },
          omega arith,
        ))

  run-IsFresh :
      (s : NotificationState) (cs : List Call)
      → s.next_id + length cs < 4294967296
      → IsFresh s
      → IsFresh (run s cs)
  unfolding run
  run-IsFresh s [] b v = v
  run-IsFresh s (c ∷ cs) b v =
      let (v', grown) = step-Grows s c (omega arith) v in run-IsFresh (step s c) cs (omega arith) v'

has_id-fresh : (id : ℕ) (ns : List Notification) → Every (λ n. n.id < id) ns → has_id id ns ≡ false
has_id-fresh id [] q = refl
has_id-fresh id (n ∷ ns) q = let below = q.0 in ground (arith, has_id-fresh id ns q.1)

keys-fresh :
    (id : ℕ) (m : List (ℕ × Notification)) → Entries (λ k _. k < id) m → contains_key id m ≡ false
keys-fresh id [] q = refl
keys-fresh id ((k, n) ∷ m) q = let below = q.0 in ground (arith, keys-fresh id m q.1)

module _ ⦃zv : Zvariant⦄ where
  -- After fewer than 4294967295 calls on a new server, the next id is that of no active
  -- notification and of no history entry.
  pub run-new_fresh :
      (cs : List Call)
      → length cs < 4294967295
      → let s = run new cs in
        (contains_key s.next_id s.active ≡ false) × (has_id s.next_id s.history ≡ false)
  unfolding new
  run-new_fresh cs b =
      let v = run-IsFresh new cs (omega arith) (record { active_old = tt; history_old = tt }) in
      (keys-fresh _ _ v.active_old, has_id-fresh _ _ v.history_old)

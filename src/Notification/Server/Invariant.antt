-- ===== src/Notification/Server/Invariant.antt =====
-- What every sequence of calls keeps: what is stored, under which ids, and which ids are new.
use Prim.Native.String.{String}
use de.Prelude.{
  is_some, ℕ, ◌≤◌, ◌<◌, ◌≡◌, refl, sym, subst, Bool, true, false, not, List, [], ◌∷◌, Bool-cases,
  inl, inr, ◌==◌, if◌then◌else◌, length, length-retain, arith, Distinct,
}
use de.HashMap.{get, keys, remove, insert-Distinct, remove-Distinct}
use de.Notification.{Notification, CloseReason, dismissed}
use de.Notification.History.{max_history, remove_by_id}
use de.Notification.Hints.{Zvariant}
use de.Notification.Server.{
  NotificationState, new, succ_id, closed_reply, is_resident, is_replacement, post, notification_of,
  notify, remove_active, close_notification, close, invoke_action, clear_history_entry, Call,
  call_notify, call_close_notification, call_close, call_invoke, call_clear, step, run,
}
use de.Notification.Stored.{
  Every, push_history-Every, replace-Every, remove_by_id-Every, Entries, insert-Entries,
  remove-Entries, push_history-length, replace-length,
}

-- At most a hundred entries in the history, none transient; one active notification for each
-- id, stored under its own; and a next id that a `u32` holds and that is not 0.
pub record IsSound (s : NotificationState) : Type 0 where
  pub bounded : length s.history ≤ max_history
  pub stored : Every (λ n. n.transient ≡ false) s.history
  pub distinct : Distinct (keys s.active)
  pub keyed : Entries (λ k n. n.id ≡ k) s.active
  pub id_positive : 1 ≤ s.next_id
  pub id_fits : s.next_id < 4294967296

succ_id-positive : (id : ℕ) → 1 ≤ succ_id id
succ_id-positive id = ground arith

succ_id-fits : (id : ℕ) → id < 4294967296 → succ_id id < 4294967296
succ_id-fits id h = ground arith

post-IsSound :
    (s : NotificationState) (replaces_id : ℕ) (build : ℕ → Notification)
    → ((id : ℕ) → (build id).id ≡ id)
    → IsSound s
    → IsSound (post s replaces_id build).2
unfolding post
post-IsSound s r build named v = elim (Bool-cases (is_replacement s r)) [
  | inl old ↦ rw old (record {
    bounded = replace-length s.history r (build r) v.bounded;
    stored = replace-Every _ s.history r (build r) (λ t. t) v.stored;
    distinct = insert-Distinct r (build r) s.active v.distinct;
    keyed = insert-Entries _ r (build r) s.active (named r) v.keyed;
    id_positive = v.id_positive;
    id_fits = v.id_fits;
  })
  | inr fresh ↦ rw fresh (record {
    bounded = push_history-length s.history (build s.next_id) v.bounded;
    stored = push_history-Every _ s.history (build s.next_id) (λ t. t) v.stored;
    distinct = insert-Distinct s.next_id (build s.next_id) s.active v.distinct;
    keyed = insert-Entries _ s.next_id (build s.next_id) s.active (named s.next_id) v.keyed;
    id_positive = succ_id-positive s.next_id;
    id_fits = succ_id-fits s.next_id v.id_fits;
  })
]

-- A state with fewer active notifications.
dropped-IsSound :
    (s : NotificationState) (id : ℕ)
    → IsSound s
    → IsSound (record s { active = remove id s.active })
dropped-IsSound s id v = record {
  bounded = v.bounded;
  stored = v.stored;
  distinct = remove-Distinct id s.active v.distinct;
  keyed = remove-Entries _ id s.active v.keyed;
  id_positive = v.id_positive;
  id_fits = v.id_fits;
}

cleared-IsSound :
    (s : NotificationState) (id : ℕ)
    → IsSound s
    → IsSound (record s { history = remove_by_id s.history id })
unfolding remove_by_id
cleared-IsSound s id v = record {
  bounded = ground (arith, length-retain (λ n. not (n.id == id)) s.history, v.bounded);
  stored = remove_by_id-Every _ s.history id v.stored;
  distinct = v.distinct;
  keyed = v.keyed;
  id_positive = v.id_positive;
  id_fits = v.id_fits;
}

pub closed_reply-state :
    (emits found : Bool) (id : ℕ) (s : NotificationState) → (closed_reply emits found id s).2 ≡ s
closed_reply-state emits false id s = refl
closed_reply-state false true id s = refl
closed_reply-state true true id s = refl

pub close-state :
    (emits : Bool) (s : NotificationState) (id : ℕ) (reason : CloseReason)
    → (close emits s id reason).1 ≡ record s { active = remove id s.active }
unfolding close remove_active
close-state emits s id reason = ground arith

invoke_action-state :
    (emits closes : Bool) (earlier s : NotificationState) (id : ℕ) (action : String)
    → (invoke_action emits closes earlier s id action).1
      ≡ (if is_resident earlier id then s else record s { active = remove id s.active })
unfolding invoke_action
invoke_action-state emits closes earlier s id action =
    let e = close-state closes s id dismissed in ground arith

module _ ⦃zv : Zvariant⦄ where
  -- The locked part of a call leaves the state, posts, drops or clears.
  pub step-cases :
      (P : NotificationState → Type 0) (s : NotificationState) (c : Call)
      → P s
      → ((r : ℕ) (build : ℕ → Notification)
          → ((id : ℕ) → (build id).id ≡ id)
          → P (post s r build).2)
      → ((id : ℕ) → P (record s { active = remove id s.active }))
      → ((id : ℕ) → P (record s { history = remove_by_id s.history id }))
      → P (step s c)
  unfolding step notify notification_of close_notification remove_active clear_history_entry
  step-cases P s (call_notify true r) same posted dropped cleared = same
  step-cases P s (call_notify false r) same posted dropped cleared =
      posted r.replaces_id (notification_of r) (λ id. refl)
  step-cases P s (call_close_notification true emits id) same posted dropped cleared = same
  step-cases P s (call_close_notification false emits id) same posted dropped cleared =
      subst P
        (sym (
          closed_reply-state emits (is_some (get id s.active)) id
            (record s { active = remove id s.active })))
        (dropped id)
  step-cases P s (call_close emits id reason) same posted dropped cleared =
      subst P (sym (close-state emits s id reason)) (dropped id)
  step-cases P s (call_invoke emits closes earlier id action) same posted dropped cleared =
      subst P (sym (invoke_action-state emits closes earlier s id action))
        (chosen (is_resident earlier id))
    where
      chosen : (b : Bool) → P (if b then s else record s { active = remove id s.active })
      chosen true = same
      chosen false = dropped id
  step-cases P s (call_clear id) same posted dropped cleared = cleared id

  step-IsSound : (s : NotificationState) (c : Call) → IsSound s → IsSound (step s c)
  step-IsSound s c v =
      step-cases IsSound s c v (λ r build named. post-IsSound s r build named v)
        (λ id. dropped-IsSound s id v) (λ id. cleared-IsSound s id v)

  run-IsSound : (s : NotificationState) (cs : List Call) → IsSound s → IsSound (run s cs)
  unfolding run
  run-IsSound s [] v = v
  run-IsSound s (c ∷ cs) v = run-IsSound (step s c) cs (step-IsSound s c v)

  -- After any sequence of calls on a new server, in any interleaving, the history has at most a
  -- hundred entries and none is transient, each active notification is stored once and under its
  -- own id, and the next id is at least 1 and fits a `u32`.
  pub run-new-IsSound : (cs : List Call) → IsSound (run new cs)
  unfolding new
  run-new-IsSound cs = run-IsSound new cs (record {
    bounded = omega arith;
    stored = tt;
    distinct = tt;
    keyed = tt;
    id_positive = omega arith;
    id_fits = omega arith;
  })

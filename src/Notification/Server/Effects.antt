-- ===== src/Notification/Server/Effects.antt =====
-- What a handler does to the active notifications, and what it sends.
use Prim.Native.String.{String}
use de.Prelude.{
  ℕ, ◌≡◌, refl, ap, Bool, true, false, List, [], ◌∷◌, none, some, ◌⊎◌, Bool-cases, inl, inr,
  if◌then◌else◌, is_some, arith,
}
use de.HashMap.{get, insert, remove, get-insert, get-remove}
use de.Notification.{Notification, CloseReason, dismissed, closed_by_app, closed, invoked}
use de.Notification.Hints.{Zvariant}
use de.Notification.Server.{
  NotificationState, event, ok, emit_failed, Request, notification_of, notify, post, is_replacement,
  remove_active, close_notification, close, is_resident, invoke_action,
}
use de.Notification.Server.Invariant.{close-state}

-- The id that a notification gets.
abbrev pub id_for : NotificationState → ℕ → ℕ
id_for s r = if is_replacement s r then r else s.next_id

get-insert-other :
    (k : ℕ) (n : Notification) (m : List (ℕ × Notification)) (j : ℕ)
    → (k ≡ j) ⊎ (get j (insert k n m) ≡ get j m)
get-insert-other k n m j = let e = get-insert j k n m in ground arith

get-insert-same :
    (k : ℕ) (n : Notification) (m : List (ℕ × Notification)) → get k (insert k n m) ≡ some n
get-insert-same k n m = let e = get-insert k k n m in ground arith

post-active :
    (s : NotificationState) (r : ℕ) (build : ℕ → Notification)
    → let (id, _, s') = post s r build in
      (id ≡ id_for s r)
      × (get (id_for s r) s'.active ≡ some (build (id_for s r)))
      × ((j : ℕ) → (id_for s r ≡ j) ⊎ (get j s'.active ≡ get j s.active))
      × ((is_replacement s r ≡ false) ⊎ (s'.next_id ≡ s.next_id))
unfolding post
post-active s r build = elim (Bool-cases (is_replacement s r)) [
  | inl old ↦ rw old (refl, get-insert-same r _ s.active, get-insert-other r _ s.active, inr refl)
  | inr fresh ↦
      rw fresh (
        refl,
        get-insert-same s.next_id _ s.active,
        get-insert-other s.next_id _ s.active,
        inl refl,
      )
]

module _ ⦃zv : Zvariant⦄ where
  -- A request is answered with an id: the notification of the request is active under it, and
  -- what is active under every other id is unchanged. The id is the one to replace if that is
  -- active and not 0, and the next id stays; otherwise it is the next id.
  notify-active :
      (s : NotificationState) (r : Request)
      → let (reply, _, s') = notify false s r in
        let id = id_for s r.replaces_id in
        (reply ≡ ok id)
        × (get id s'.active ≡ some (notification_of r id))
        × ((j : ℕ) → (id ≡ j) ⊎ (get j s'.active ≡ get j s.active))
        × ((is_replacement s r.replaces_id ≡ false) ⊎ (s'.next_id ≡ s.next_id))
  unfolding notify
  notify-active s r =
      let (same, found, others, next) = post-active s r.replaces_id (notification_of r) in
      (ap ok same, found, others, next)

remove-remove : (k : ℕ) (m : List (ℕ × Notification)) → remove k (remove k m) ≡ remove k m
remove-remove k [] = refl
remove-remove k ((j, n) ∷ m) = ground (arith, remove-remove k m)

close-unknown :
    (emits : Bool) (s : NotificationState) (id : ℕ) (reason : CloseReason)
    → get id s.active ≡ none
    → remove id s.active ≡ s.active
    → close emits s id reason ≡ ([], s)
unfolding close remove_active
close-unknown emits s id reason e f = ground arith

-- A closed notification is not active, and closing it again sends nothing and changes nothing.
pub close-close :
    (emits emits' : Bool) (s : NotificationState) (id : ℕ) (reason reason' : CloseReason)
    → let s' = (close emits s id reason).1 in
      (get id s'.active ≡ none) × (close emits' s' id reason' ≡ ([], s'))
close-close emits emits' s id reason reason' =
    let gone = get-remove id id s.active in
    let none_left = remove-remove id s.active in
    rw (close-state emits s id reason)
      (ground arith, close-unknown emits' _ id reason' (ground arith) none_left)

-- Where the lock is not poisoned: the client's CloseNotification and the shell's close with the same
-- reason, whether a signal can be
-- emitted or not, and whether the notification is active or not: they leave the same state, without the
-- notification and with the others as they are. They send the same and the client gets a reply without
-- error, unless the notification is active and the signal cannot be emitted; then the client gets an
-- error, and only close tells the shell.
pub close_notification-close :
    (emits : Bool) (s : NotificationState) (id j : ℕ)
    → let (reply, sent, s') = close_notification false emits s id in
      let (sent', s'') = close emits s id closed_by_app in
      (s'' ≡ s')
      × (get id s'.active ≡ none)
      × ((id ≡ j) ⊎ (get j s'.active ≡ get j s.active))
      × (((reply ≡ ok tt) × (sent ≡ sent'))
          ⊎ ((emits ≡ false)
              × (is_some (get id s.active) ≡ true)
              × (reply ≡ emit_failed)
              × (sent ≡ [])
              × (sent' ≡ event (closed id closed_by_app) ∷ [])))
unfolding close_notification close remove_active
close_notification-close emits s id j =
    let gone = get-remove id id s.active in
    let others = get-remove j id s.active in
    elim (Bool-cases (is_some (get id s.active))) [
      | inr e ↦ rw e (refl, ground arith, ground arith, inl (refl, refl))
      | inl e ↦ elim (Bool-cases emits) [
        | inl f ↦ rw (e, f) (refl, ground arith, ground arith, inl (refl, refl))
        | inr f ↦ rw (e, f) (refl, ground arith, ground arith, inr (refl, refl, refl, refl, refl))
      ]
    ]

-- An action of an active notification, when no signal can be emitted: the shell is told of the
-- action. One that is not resident is then closed, the shell is told that too, and it is active
-- no more; with one that is resident nothing else happens.
invoke_action_lem :
    (s : NotificationState) (id : ℕ) (action : String) (n : Notification)
    → get id s.active ≡ some n
    → let (sent, s') = invoke_action false false s s id action in
      ((n.resident ≡ false) ⊎ ((sent ≡ event (invoked id action) ∷ []) × (s' ≡ s)))
      × ((n.resident ≡ true)
          ⊎ ((sent ≡ event (invoked id action) ∷ event (closed id dismissed) ∷ [])
              × (get id s'.active ≡ none)))
unfolding invoke_action is_resident close remove_active
invoke_action_lem s id action n e = let gone = get-remove id id s.active in rw e (ground arith)

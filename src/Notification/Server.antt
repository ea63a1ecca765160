-- ===== src/Notification/Server.antt =====
-- crates/notification/src/server.rs: the D-Bus server. A handler returns what it sends, in order,
-- and the new state. Each of them holds the lock once, except `invoke_action`, which locks to read
-- and again to close. Whether the lock is poisoned and whether a signal can be emitted are
-- arguments.
pub mod Invariant
pub mod Effects
pub mod Ids
use Prim.Native.String.{String}
use de.Prelude.{
  ℕ, ◌+◌, Bool, true, false, not, ◌&&◌, List, [], ◌∷◌, ◌++◌, Option, none, some, ◌==◌,
  if◌then◌else◌, is_some, ℤ,
}
use de.HashMap.{get, insert, remove, contains_key}
use de.Notification.{
  Notification, NotificationEvent, arrived, replaced, closed, invoked, CloseReason, dismissed,
  closed_by_app, as_u32,
}
use de.Notification.History.{push_history, remove_by_id, replace}
use de.Notification.Hints.{Zvariant, ParsedHints, parse_hints, parse_actions}

pub record NotificationState : Type 0 where
  pub active : List (ℕ × Notification)
  pub history : List Notification
  pub next_id : ℕ

unfoldable pub new : NotificationState
new = record { active = []; history = []; next_id = 1 }

-- What leaves the server: a D-Bus signal or an event on the channel.
pub data Sent : Type 0 where
  notification_closed : (id code : ℕ) → Sent
  action_invoked : (id : ℕ) → (action : String) → Sent
  event : NotificationEvent → Sent

-- The reply of a D-Bus method.
pub data Reply {ℓ} (A : Type ℓ) : Type ℓ where
  lock_poisoned : Reply A
  emit_failed : Reply A
  ok : A → Reply A

-- `checked_add(1).unwrap_or(1)` of a `u32`
abbrev pub succ_id : ℕ → ℕ
succ_id id = if id == 4294967295 then 1 else id + 1

unfoldable pub is_replacement : NotificationState → ℕ → Bool
is_replacement s replaces_id = not (replaces_id == 0) && contains_key replaces_id s.active

-- The locked part of `notify`, for the notification that it builds from its id.
unfoldable pub post :
    NotificationState → ℕ → (ℕ → Notification) → ℕ × NotificationEvent × NotificationState
unfolding is_replacement
post s replaces_id build =
    if is_replacement s replaces_id
    then (
      replaces_id,
      replaced replaces_id (build replaces_id),
      record s {
        active = insert replaces_id (build replaces_id) s.active;
        history = replace s.history replaces_id (build replaces_id);
      },
    )
    else (
      s.next_id,
      arrived (build s.next_id),
      record s {
        active = insert s.next_id (build s.next_id) s.active;
        history = push_history s.history (build s.next_id);
        next_id = succ_id s.next_id;
      },
    )

module _ ⦃zv : Zvariant⦄ where
  open zv use {Value}

  -- The arguments of the D-Bus method `Notify`, and the time.
  pub record Request : Type 0 where
    pub app_name : String
    pub replaces_id : ℕ
    pub app_icon : String
    pub summary : String
    pub body : String
    pub actions : List String
    pub hints : String → Option Value
    pub expire_timeout : ℤ
    pub now : ℕ

  unfoldable pub notification_of : Request → ℕ → Notification
  notification_of r id =
      let (parsed, timeout) = parse_hints r.hints r.expire_timeout in
      record {
        id = id;
        app_name = r.app_name;
        app_icon = r.app_icon;
        summary = r.summary;
        body = r.body;
        actions = parse_actions r.actions;
        urgency = parsed.urgency;
        image = parsed.image;
        expire_timeout = timeout;
        timestamp = r.now;
        category = parsed.category;
        desktop_entry = parsed.desktop_entry;
        transient = parsed.transient;
        resident = parsed.resident;
      }

  unfoldable pub notify :
      (poisoned : Bool) → NotificationState → Request → Reply ℕ × List Sent × NotificationState
  unfolding post notification_of
  notify true s r = (lock_poisoned, [], s)
  notify false s r =
      let (id, e, s') = post s r.replaces_id (notification_of r) in (ok id, event e ∷ [], s')

unfoldable pub remove_active : NotificationState → ℕ → Bool × NotificationState
remove_active s id = (is_some (get id s.active), record s { active = remove id s.active })

abbrev pub closed_reply :
    (emits found : Bool) → ℕ → NotificationState → Reply (Unit {0}) × List Sent × NotificationState
closed_reply emits false id s = (ok tt, [], s)
closed_reply false true id s = (emit_failed, [], s)
closed_reply true true id s =
    (ok tt, notification_closed id (as_u32 closed_by_app) ∷ event (closed id closed_by_app) ∷ [], s)

unfoldable pub close_notification :
    (poisoned emits : Bool)
    → NotificationState
    → ℕ
    → Reply (Unit {0}) × List Sent × NotificationState
unfolding remove_active
close_notification true emits s id = (lock_poisoned, [], s)
close_notification false emits s id =
    let (found, s') = remove_active s id in closed_reply emits found id s'

-- What an attempt to emit a signal sends.
abbrev pub emitted : Bool → Sent → List Sent
emitted true signal = signal ∷ []
emitted false signal = []

unfoldable pub close :
    (emits : Bool) → NotificationState → ℕ → CloseReason → List Sent × NotificationState
unfolding remove_active
close emits s id reason =
    let (found, s') = remove_active s id in
    if found
    then (
      emitted emits (notification_closed id (as_u32 reason)) ++ event (closed id reason) ∷ [],
      s',
    )
    else ([], s')

abbrev resident_of : Option Notification → Bool
resident_of none = false
resident_of (some n) = n.resident

-- The first lock of `invoke_action`.
unfoldable pub is_resident : NotificationState → ℕ → Bool
is_resident s id = resident_of (get id s.active)

-- `s` is the state of the first lock and `later` that of the second.
unfoldable pub invoke_action :
    (emits closes : Bool) (s later : NotificationState) → ℕ → String → List Sent × NotificationState
unfolding is_resident close
invoke_action emits closes s later id action =
    let (sent, later') = close closes later id dismissed in
    let first = emitted emits (action_invoked id action) ++ event (invoked id action) ∷ [] in
    if is_resident s id then (first, later) else (first ++ sent, later')

unfoldable pub clear_history_entry : NotificationState → ℕ → NotificationState
clear_history_entry s id = record s { history = remove_by_id s.history id }

-- One handler, or one part of `invoke_action`: `earlier` is any state in which its first lock
-- found the server, so that a sequence of calls has every interleaving of the locked parts.
module _ ⦃zv : Zvariant⦄ where
  pub data Call : Type 1 where
    call_notify : (poisoned : Bool) → Request → Call
    call_close_notification : (poisoned emits : Bool) → (id : ℕ) → Call
    call_close : (emits : Bool) → (id : ℕ) → CloseReason → Call
    call_invoke : (emits closes : Bool) → (earlier : NotificationState) → (id : ℕ) → String → Call
    call_clear : (id : ℕ) → Call

  unfoldable pub step : NotificationState → Call → NotificationState
  unfolding notify close_notification close invoke_action clear_history_entry
  step s (call_notify poisoned r) = (notify poisoned s r).2
  step s (call_close_notification poisoned emits id) = (close_notification poisoned emits s id).2
  step s (call_close emits id reason) = (close emits s id reason).1
  step s (call_invoke emits closes earlier id action) =
      (invoke_action emits closes earlier s id action).1
  step s (call_clear id) = clear_history_entry s id

  unfoldable pub run : NotificationState → List Call → NotificationState
  run s [] = s
  run s (c ∷ cs) = run (step s c) cs

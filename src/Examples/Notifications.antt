-- ===== src/Examples/Notifications.antt =====
-- The theorems on the notification server at concrete calls.
use de.Prelude.{ℕ, ◌≡◌, ◌⊎◌, is_some, true, false, not, List, [], ◌∷◌, none, retain, pos, arith}
use de.HashMap.{get, contains_key}
use de.Notification.{Notification, expired, closed, closed_by_app}
use de.Notification.History.{has_id, max_history}
use de.Notification.History.Recent.{push_all, last_n, push_all-last_n}
use de.Notification.Server
use de.Notification.Server.{
  NotificationState, Request, Call, call_notify, call_close, call_invoke, event, ok, emit_failed,
  notification_of, notify, is_replacement, close_notification, close, invoke_action, run,
}
use de.Notification.Server.Effects.{close_notification-close}
use de.Notification.Server.Ids.{run-new_fresh}
use de.Notification.Server.Invariant.{IsSound, run-new-IsSound}
use de.Examples.{plain}

abbrev request : Request
request = record {
  app_name = "mail";
  replaces_id = 0;
  app_icon = "";
  summary = "New message";
  body = "";
  actions = "default" ∷ "Open" ∷ [];
  hints = λ _. none;
  expire_timeout = pos 5000;
  now = 0;
}

abbrev calls : List Call
calls =
    call_notify false request
    ∷ call_notify false (record request { replaces_id = 1 })
    ∷ call_invoke true true Server.new 1 "default"
    ∷ call_close true 1 expired
    ∷ []

abbrev mail : Notification
mail = notification_of request 1

run-new-IsSound_example : IsSound (run Server.new calls)
run-new-IsSound_example = run-new-IsSound calls

run-new_fresh_example :
    let s = run Server.new calls in
    (contains_key s.next_id s.active ≡ false) × (has_id s.next_id s.history ≡ false)
run-new_fresh_example = run-new_fresh calls (omega arith)

abbrev posted : NotificationState
posted = record { active = (1, mail) ∷ []; history = mail ∷ []; next_id = 2 }

close_notification-close_example :
    let (reply, sent, s') = close_notification false false posted 1 in
    let (sent', s'') = close false posted 1 closed_by_app in
    (s'' ≡ s')
    × (get 1 s'.active ≡ none)
    × ((◌≡◌ {A = ℕ} 1 2) ⊎ (get 2 s'.active ≡ get 2 posted.active))
    × (((reply ≡ ok tt) × (sent ≡ sent'))
        ⊎ ((false ≡ false)
            × (is_some (get 1 posted.active) ≡ true)
            × (reply ≡ emit_failed)
            × (sent ≡ [])
            × (sent' ≡ event (closed 1 closed_by_app) ∷ [])))
close_notification-close_example = close_notification-close false posted 1 2

push_all-last_n_example :
    push_all [] (mail ∷ mail ∷ [])
    ≡ last_n max_history (retain (λ n. not n.transient) (mail ∷ mail ∷ []))
push_all-last_n_example = push_all-last_n (mail ∷ mail ∷ [])

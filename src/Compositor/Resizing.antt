-- ===== src/Compositor/Resizing.antt =====
-- The resize transactions of crates/compositor-slint/src/wayland_state.rs: after an interactive
-- resize, the final configure event of a toplevel must be acknowledged and then committed.
pub mod Stages
use de.Prelude.{
  ℕ, ◌≡◌, refl, Bool, true, false, not, ◌&&◌, ◌||◌, Bool-cases, inl, inr, List, [], ◌∷◌, ◌++◌,
  Option, none, some, ◌==◌, if◌then◌else◌, is_some, arith, retain, push, contains, Distinct,
  without,
}

pub data XdgResizeTransactionPhase : Type 0 where
  waiting_for_final_ack waiting_for_commit : XdgResizeTransactionPhase

pub record XdgResizeTransaction : Type 0 where
  pub surface : ℕ
  pub final_serial : ℕ
  pub phase : XdgResizeTransactionPhase

abbrev pub Transactions : Type 0
Transactions = List XdgResizeTransaction

abbrev pub drop_surface : ℕ → Transactions → Transactions
drop_surface surface = retain (λ tx. not (tx.surface == surface))

unfoldable pub begin_xdg_resize_transaction :
    Transactions → (surface final_serial : ℕ) → Transactions
begin_xdg_resize_transaction txs surface final_serial =
    drop_surface surface txs
    ++ record { surface = surface; final_serial = final_serial; phase = waiting_for_final_ack } ∷ []

abbrev pub acked : ℕ → ℕ → XdgResizeTransactionPhase → XdgResizeTransactionPhase
acked final_serial serial waiting_for_final_ack =
    if final_serial == serial then waiting_for_commit else waiting_for_final_ack
acked final_serial serial waiting_for_commit = waiting_for_commit

-- The first transaction of the surface is the one that is acknowledged.
unfoldable pub ack_xdg_resize_transaction : Transactions → (surface serial : ℕ) → Transactions
ack_xdg_resize_transaction [] surface serial = []
ack_xdg_resize_transaction (tx ∷ rest) surface serial =
    if tx.surface == surface
    then record tx { phase = acked tx.final_serial serial tx.phase } ∷ rest
    else tx ∷ ack_xdg_resize_transaction rest surface serial

abbrev pub is_waiting_for_commit : XdgResizeTransactionPhase → Bool
is_waiting_for_commit waiting_for_final_ack = false
is_waiting_for_commit waiting_for_commit = true

abbrev pub is_finished : ℕ → XdgResizeTransaction → Bool
is_finished surface tx = tx.surface == surface && is_waiting_for_commit tx.phase

-- The answer tells whether a transaction ends with this commit.
unfoldable pub finish_xdg_resize_transaction_commit :
    Transactions → (surface : ℕ) → Bool × Transactions
finish_xdg_resize_transaction_commit [] surface = (false, [])
finish_xdg_resize_transaction_commit (tx ∷ rest) surface =
    let (found, others) = finish_xdg_resize_transaction_commit rest surface in
    if is_finished surface tx then (true, rest) else (found, tx ∷ others)

unfoldable pub has_pending_xdg_resize_transaction : Transactions → (surface : ℕ) → Bool
has_pending_xdg_resize_transaction [] surface = false
has_pending_xdg_resize_transaction (tx ∷ rest) surface =
    tx.surface == surface || has_pending_xdg_resize_transaction rest surface

-- The call of `toplevel_destroyed`.
unfoldable pub forget_surface : Transactions → (surface : ℕ) → Transactions
forget_surface txs surface = drop_surface surface txs

pub data Call : Type 0 where
  begin ack : (surface serial : ℕ) → Call
  finish destroyed : (surface : ℕ) → Call

unfoldable pub step : Transactions → Call → Transactions
unfolding begin_xdg_resize_transaction ack_xdg_resize_transaction
    finish_xdg_resize_transaction_commit forget_surface
step txs (begin surface serial) = begin_xdg_resize_transaction txs surface serial
step txs (ack surface serial) = ack_xdg_resize_transaction txs surface serial
step txs (finish surface) = (finish_xdg_resize_transaction_commit txs surface).1
step txs (destroyed surface) = forget_surface txs surface

unfoldable pub run : Transactions → List Call → Transactions
unfolding step
run txs [] = txs
run txs (c ∷ cs) = run (step txs c) cs

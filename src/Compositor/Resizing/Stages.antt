-- ===== src/Compositor/Resizing/Stages.antt =====
-- The resize transactions refine one small state machine for each surface.
use de.Prelude.{
  ℕ, ◌≡◌, refl, Bool, true, false, not, Bool-cases, inl, inr, List, [], ◌∷◌, ◌++◌, ◌==◌,
  if◌then◌else◌, arith, contains, Distinct, without, push, without-Distinct, push-Distinct,
  contains-without, subst, sym, ◌∙◌, ap,
}
use de.Compositor.Resizing.{
  XdgResizeTransactionPhase, waiting_for_final_ack, waiting_for_commit, XdgResizeTransaction,
  Transactions, drop_surface, acked, is_waiting_for_commit, is_finished,
  begin_xdg_resize_transaction, ack_xdg_resize_transaction, finish_xdg_resize_transaction_commit,
  has_pending_xdg_resize_transaction, forget_surface, Call, begin, ack, finish, destroyed, step,
  run,
}

-- The abstract view: each surface has a state of its own.
pub data Stage : Type 0 where
  idle : Stage
  unacked : (serial : ℕ) → Stage
  ready : Stage

abbrev stage_of : ℕ → XdgResizeTransactionPhase → Stage
stage_of serial waiting_for_final_ack = unacked serial
stage_of serial waiting_for_commit = ready

abbrev pub stage : ℕ → Transactions → Stage
stage k [] = idle
stage k (tx ∷ rest) = if tx.surface == k then stage_of tx.final_serial tx.phase else stage k rest

abbrev acknowledge : ℕ → Stage → Stage
acknowledge serial (unacked final) = if final == serial then ready else unacked final
acknowledge serial s = s

abbrev conclude : Stage → Stage
conclude ready = idle
conclude s = s

-- What a call does to the stage of surface `k`.
abbrev pub after_call : ℕ → Stage → Call → Stage
after_call k s (begin surface serial) = if surface == k then unacked serial else s
after_call k s (ack surface serial) = if surface == k then acknowledge serial s else s
after_call k s (finish surface) = if surface == k then conclude s else s
after_call k s (destroyed surface) = if surface == k then idle else s

abbrev pub after_calls : ℕ → Stage → List Call → Stage
after_calls k s [] = s
after_calls k s (c ∷ cs) = after_calls k (after_call k s c) cs

abbrev surfaces : Transactions → List ℕ
surfaces [] = []
surfaces (tx ∷ rest) = tx.surface ∷ surfaces rest

surfaces-drop :
    (j : ℕ) (txs : Transactions) → surfaces (drop_surface j txs) ≡ without j (surfaces txs)
surfaces-drop j [] = refl
surfaces-drop j (tx ∷ rest) = ground (arith, surfaces-drop j rest)

surfaces-append :
    (tx : XdgResizeTransaction) (txs : Transactions)
    → surfaces (txs ++ tx ∷ []) ≡ push (surfaces txs) tx.surface
surfaces-append tx [] = refl
surfaces-append tx (t ∷ rest) = ap (λ l. t.surface ∷ l) (surfaces-append tx rest)

surfaces-ack :
    (j serial : ℕ) (txs : Transactions)
    → surfaces (ack_xdg_resize_transaction txs j serial) ≡ surfaces txs
unfolding ack_xdg_resize_transaction
surfaces-ack j serial [] = refl
surfaces-ack j serial (tx ∷ rest) = elim (Bool-cases (tx.surface == j)) [
  | inl e ↦ rw e refl
  | inr e ↦ rw e (ap (λ l. tx.surface ∷ l) (surfaces-ack j serial rest))
]

contains-finish :
    (i j : ℕ) (txs : Transactions)
    → contains i (surfaces txs) ≡ false
    → contains i (surfaces (finish_xdg_resize_transaction_commit txs j).1) ≡ false
unfolding finish_xdg_resize_transaction_commit
contains-finish i j [] h = refl
contains-finish i j (tx ∷ rest) h = elim (Bool-cases (is_finished j tx)) [
  | inl e ↦ rw e (ground arith)
  | inr e ↦ rw e (ground (arith, contains-finish i j rest))
]

finish-Distinct :
    (j : ℕ) (txs : Transactions)
    → Distinct (surfaces txs)
    → Distinct (surfaces (finish_xdg_resize_transaction_commit txs j).1)
unfolding finish_xdg_resize_transaction_commit
finish-Distinct j [] d = tt
finish-Distinct j (tx ∷ rest) d = elim (Bool-cases (is_finished j tx)) [
  | inl e ↦ rw e d.1
  | inr e ↦ rw e (contains-finish tx.surface j rest d.0, finish-Distinct j rest d.1)
]

step-Distinct :
    (txs : Transactions) (c : Call) → Distinct (surfaces txs) → Distinct (surfaces (step txs c))
unfolding step begin_xdg_resize_transaction forget_surface
step-Distinct txs (begin j serial) d =
    rw
      (
        surfaces-append
            (record { surface = j; final_serial = serial; phase = waiting_for_final_ack })
            (drop_surface j txs),
        surfaces-drop j txs,
      )
      (push-Distinct j (without j (surfaces txs)) (without-Distinct j (surfaces txs) d)
        (ground (arith, contains-without j j (surfaces txs))))
step-Distinct txs (ack j serial) d = subst Distinct (sym (surfaces-ack j serial txs)) d
step-Distinct txs (finish j) d = finish-Distinct j txs d
step-Distinct txs (destroyed j) d = rw (surfaces-drop j txs) (without-Distinct j (surfaces txs) d)

stage-absent : (k : ℕ) (txs : Transactions) → contains k (surfaces txs) ≡ false → stage k txs ≡ idle
stage-absent k [] h = refl
stage-absent k (tx ∷ rest) h = ground (arith, stage-absent k rest)

stage-drop :
    (k j : ℕ) (txs : Transactions)
    → stage k (drop_surface j txs) ≡ (if j == k then idle else stage k txs)
stage-drop k j [] = ground arith
stage-drop k j (tx ∷ rest) = ground (arith, stage-drop k j rest)

stage-append :
    (k : ℕ) (tx : XdgResizeTransaction) (txs : Transactions)
    → contains tx.surface (surfaces txs) ≡ false
    → stage k (txs ++ tx ∷ [])
      ≡ (if tx.surface == k then stage_of tx.final_serial tx.phase else stage k txs)
stage-append k tx [] h = refl
stage-append k tx (t ∷ rest) h = ground (arith, stage-append k tx rest)

stage_of-acked :
    (final serial : ℕ) (p : XdgResizeTransactionPhase)
    → stage_of final (acked final serial p) ≡ acknowledge serial (stage_of final p)
stage_of-acked final serial waiting_for_final_ack = elim (Bool-cases (final == serial)) [
  | inl e ↦ rw e refl
  | inr e ↦ rw e refl
]
stage_of-acked final serial waiting_for_commit = refl

stage-ack :
    (k j serial : ℕ) (txs : Transactions)
    → stage k (ack_xdg_resize_transaction txs j serial)
      ≡ (if j == k then acknowledge serial (stage k txs) else stage k txs)
unfolding ack_xdg_resize_transaction
stage-ack k j serial [] = ground arith
stage-ack k j serial (tx ∷ rest) =
    ground (arith, stage-ack k j serial rest, stage_of-acked tx.final_serial serial tx.phase)

conclude-stage_of :
    (final : ℕ) (p : XdgResizeTransactionPhase)
    → conclude (stage_of final p) ≡ (if is_waiting_for_commit p then idle else stage_of final p)
conclude-stage_of final waiting_for_final_ack = refl
conclude-stage_of final waiting_for_commit = refl

stage-finish :
    (k j : ℕ) (txs : Transactions)
    → Distinct (surfaces txs)
    → stage k (finish_xdg_resize_transaction_commit txs j).1
      ≡ (if j == k then conclude (stage k txs) else stage k txs)
unfolding finish_xdg_resize_transaction_commit
stage-finish k j [] d = ground arith
stage-finish k j (tx ∷ rest) d = ground (
  arith,
  stage-finish k j rest d.1,
  stage-absent j rest,
  stage-absent k rest,
  conclude-stage_of tx.final_serial tx.phase,
)

step-stage :
    (k : ℕ) (txs : Transactions) (c : Call)
    → Distinct (surfaces txs)
    → stage k (step txs c) ≡ after_call k (stage k txs) c
unfolding step begin_xdg_resize_transaction forget_surface
step-stage k txs (begin j serial) d =
    let absent : contains j (surfaces (drop_surface j txs)) ≡ false =
      rw (surfaces-drop j txs) (ground (arith, contains-without j j (surfaces txs))) in
    ground (
      arith,
      stage-append k (record { surface = j; final_serial = serial; phase = waiting_for_final_ack })
          (drop_surface j txs) absent,
      stage-drop k j txs,
    )
step-stage k txs (ack j serial) d = stage-ack k j serial txs
step-stage k txs (finish j) d = stage-finish k j txs d
step-stage k txs (destroyed j) d = stage-drop k j txs

run-stage :
    (k : ℕ) (cs : List Call) (txs : Transactions)
    → Distinct (surfaces txs)
    → stage k (run txs cs) ≡ after_calls k (stage k txs) cs
unfolding run
run-stage k [] txs d = refl
run-stage k (c ∷ cs) txs d =
    run-stage k cs (step txs c) (step-Distinct txs c d)
    ∙ ap (λ s. after_calls k s cs) (step-stage k txs c d)

abbrev pub is_idle : Stage → Bool
is_idle idle = true
is_idle _ = false

abbrev pub is_ready : Stage → Bool
is_ready ready = true
is_ready _ = false

stage_of-idle : (final : ℕ) (p : XdgResizeTransactionPhase) → is_idle (stage_of final p) ≡ false
stage_of-idle final waiting_for_final_ack = refl
stage_of-idle final waiting_for_commit = refl

stage_of-ready :
    (final : ℕ) (p : XdgResizeTransactionPhase)
    → is_ready (stage_of final p) ≡ is_waiting_for_commit p
stage_of-ready final waiting_for_final_ack = refl
stage_of-ready final waiting_for_commit = refl

pending-stage :
    (k : ℕ) (txs : Transactions)
    → has_pending_xdg_resize_transaction txs k ≡ not (is_idle (stage k txs))
unfolding has_pending_xdg_resize_transaction
pending-stage k [] = refl
pending-stage k (tx ∷ rest) =
    ground (arith, pending-stage k rest, stage_of-idle tx.final_serial tx.phase)

finish-stage :
    (k : ℕ) (txs : Transactions)
    → Distinct (surfaces txs)
    → (finish_xdg_resize_transaction_commit txs k).0 ≡ is_ready (stage k txs)
unfolding finish_xdg_resize_transaction_commit
finish-stage k [] d = refl
finish-stage k (tx ∷ rest) d =
    ground
      (arith, finish-stage k rest d.1, stage-absent k rest, stage_of-ready tx.final_serial tx.phase)

run-Distinct :
    (cs : List Call) (txs : Transactions)
    → Distinct (surfaces txs)
    → Distinct (surfaces (run txs cs))
unfolding run
run-Distinct [] txs d = d
run-Distinct (c ∷ cs) txs d = run-Distinct cs (step txs c) (step-Distinct txs c d)

-- After any calls, what the code answers about a surface is what its own state machine says.
pub run-refines :
    (k : ℕ) (cs : List Call)
    → (has_pending_xdg_resize_transaction (run [] cs) k ≡ not (is_idle (after_calls k idle cs)))
      × ((finish_xdg_resize_transaction_commit (run [] cs) k).0 ≡ is_ready (after_calls k idle cs))
run-refines k cs =
    let view = run-stage k cs [] tt in
    (
      pending-stage k (run [] cs) ∙ ap (λ s. not (is_idle s)) view,
      finish-stage k (run [] cs) (run-Distinct cs [] tt) ∙ ap is_ready view,
    )

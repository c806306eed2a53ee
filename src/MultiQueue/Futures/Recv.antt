-- ===== src/MultiQueue/Futures/Recv.antt =====
-- `FutInnerRecv` of src/multiqueue.rs, and what it shares with `FutInnerUniRecv`: the loop of `poll`,
-- and `Drop`.
use multiqueue.Prelude.{
  ℕ, List, [], ◌∷◌, Bool, Option, none, some, Result, ok, err, Fault, null_read, wait_called,
  out_of_steps, ◌>>=◌, if◌then◌else◌,
}
use multiqueue.ReadCursor.Attempt.{Reader, load_count}
use multiqueue.MultiQueue.Policy.{QueueRw}
use multiqueue.MultiQueue.State.{MultiQueue, InnerRecv}
use multiqueue.MultiQueue.Recv
use multiqueue.MultiQueue.Recv.{TryRecvError, empty, disconnected, Refusal, Received}
use multiqueue.MultiQueue.Handles
use multiqueue.MultiQueue.Blocking.{RecvError, recv_error}
use multiqueue.MultiQueue.Futures.State.{
  FutQueue, FutInnerRecv, FutInnerUniRecv, notify_producers, notify_all_producers, relay,
}
use multiqueue.MultiQueue.Futures.Park.{Change, fut_wait}

-- `futures::Async`
pub data Async {ℓ} (A : Type ℓ) : Type ℓ where
  ready : A → Async A
  not_ready : Async A

-- `&*pt`
unfoldable pub deref : Option ℕ → Result Fault ℕ
deref none = err null_read
deref (some at) = ok at

-- The waiter of a futures queue panics when `InnerRecv::recv` or `InnerRecv::recv_view` call its
-- `wait`.
unfoldable pub recv_or_panic {ℓ μ} :
    {T : Type ℓ} {R : Type μ}
    → Received T R
    → Result Fault (MultiQueue T × Reader × Result RecvError R)
recv_or_panic (q, reader, ok val) = ok (q, reader, ok val)
recv_or_panic (q, reader, err (_, disconnected)) = ok (q, reader, err recv_error)
recv_or_panic (q, reader, err (_, empty)) = err wait_called

module _ {ℓ κ} (Task : Type κ) (T : Type ℓ) where
  -- A time round the loop of `poll`: the outcomes of the weak compare-exchanges of its `try_recv`, and
  -- what the others do before each check of its wait.
  pub record PollTurn : Type (ℓ ⊔ κ) where
    pub outcomes : List Bool
    pub changes : List (Change Task T)

module _ {ℓ κ} {Task : Type κ} {T : Type ℓ} where
  -- The loop of both `poll`s, for the try that each makes.
  unfoldable pub poll_loop {μ} :
      {R : Type μ}
      → (List Bool → MultiQueue T → Reader → Result Fault (Received T R))
      → Task
      → List (PollTurn Task T)
      → FutQueue Task T
      → InnerRecv
      → Result Fault (FutQueue Task T × InnerRecv × Async (Option R))
  poll_loop try_once task [] fq rx = err out_of_steps
  poll_loop try_once task (turn ∷ turns) fq rx = do
    (q, reader, result) ← try_once turn.outcomes fq.queue rx.reader
    let fq1 : FutQueue Task T = relay fq q
    let rx1 : InnerRecv = record rx { reader = reader }
    let waiting = λ (pt : Option ℕ). do
      at ← deref pt
      (parked, fq2) ← fut_wait task (load_count q.manager.heap reader) at turn.changes fq1
      let again = poll_loop try_once task turns fq2 rx1
      if parked then ok (fq2, rx1, not_ready) else again
    elim result [
      | ok msg ↦ ok (notify_all_producers fq1, rx1, ready (some msg))
      | err refusal ↦ elim refusal.1 [
        | disconnected ↦ ok (fq1, rx1, ready none)
        | empty ↦ waiting refusal.0
      ]
    ]

  -- `InnerRecv::examine_signals` on the queue.
  abbrev pub examine : InnerRecv → FutQueue Task T → FutQueue Task T
  examine rx fq = record fq { queue = Handles.examine_signals rx fq.queue }

  -- `Drop` of either receiver: the producers are notified behind the unsubscription, unless the
  -- receiver had unsubscribed before.
  unfoldable pub drop_recv : FutQueue Task T → InnerRecv → Result Fault (FutQueue Task T)
  drop_recv fq rx = do
    (q, _) ← Handles.do_unsubscribe fq.queue rx
    let fq1 = relay fq q
    ok (if rx.alive then notify_producers fq1 else fq1)

  unfoldable pub add_stream :
      FutQueue Task T → FutInnerRecv → Result Fault (FutQueue Task T × FutInnerRecv)
  add_stream fq rx = do
    (q, reader) ← Handles.add_stream fq.queue rx.reader
    ok (relay fq q, record { reader = reader })

  -- `Clone`: the handle itself, and the new one.
  unfoldable pub clone_receiver :
      FutQueue Task T → FutInnerRecv → FutQueue Task T × FutInnerRecv × FutInnerRecv
  clone_receiver fq rx =
      let (q, old, fresh) = Handles.clone_recv fq.queue rx.reader in
      (relay fq q, record { reader = old }, record { reader = fresh })

  -- The handle is dropped at the end of the call.
  unfoldable pub unsubscribe :
      FutQueue Task T → FutInnerRecv → Result Fault (FutQueue Task T × Bool)
  unsubscribe fq rx = do
    fq' ← drop_recv fq rx.reader
    ok (fq', Handles.is_single fq.queue rx.reader)

  -- A clone is made and the handle dropped before the count of the consumers is looked at.
  unfoldable pub into_single {μ} :
      {R : Type μ}
      → (T → R)
      → FutQueue Task T
      → FutInnerRecv
      → Result Fault (FutQueue Task T × Result FutInnerRecv (FutInnerUniRecv T R))
  into_single op fq rx = do
    let (fq1, old, new_mreader) = clone_receiver fq rx
    fq2 ← drop_recv fq1 old.reader
    ok (
      fq2,
      if Handles.is_single fq2.queue new_mreader.reader
          then ok (record { reader = new_mreader.reader; op = op })
          else err new_mreader,
    )

  module _ (p : QueueRw T) where
    unfoldable pub try_recv :
        List Bool
        → FutQueue Task T
        → FutInnerRecv
        → Result Fault (FutQueue Task T × FutInnerRecv × Result TryRecvError T)
    try_recv outcomes fq rx = do
      (q, reader, result) ← Handles.try_recv p outcomes fq.queue rx.reader
      ok (relay fq q, record { reader = reader }, result)

    unfoldable pub recv :
        List Bool
        → FutQueue Task T
        → FutInnerRecv
        → Result Fault (FutQueue Task T × FutInnerRecv × Result RecvError T)
    recv outcomes fq rx = do
      received ← Recv.try_recv p outcomes (examine rx.reader fq).queue rx.reader.reader
      (q, reader, result) ← recv_or_panic received
      ok (relay fq q, record { reader = record (rx.reader) { reader = reader } }, result)

    -- `poll` of the trait `Stream`.
    unfoldable pub poll :
        Task
        → List (PollTurn Task T)
        → FutQueue Task T
        → FutInnerRecv
        → Result Fault (FutQueue Task T × FutInnerRecv × Async (Option T))
    poll task turns fq rx = do
      (fq', reader, result) ←
          poll_loop (Recv.try_recv p) task turns (examine rx.reader fq) rx.reader
      ok (fq', record { reader = reader }, result)

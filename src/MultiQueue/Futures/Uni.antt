-- ===== src/MultiQueue/Futures/Uni.antt =====
-- `FutInnerUniRecv` of src/multiqueue.rs: the only consumer of its stream, with the function that it
-- runs on each value. What the function changes besides is not modelled.
use multiqueue.Prelude.{List, Bool, Option, Result, ok, Fault, ◌>>=◌}
use multiqueue.MultiQueue.Policy.{QueueRw}
use multiqueue.MultiQueue.Recv
use multiqueue.MultiQueue.Recv.{TryRecvError}
use multiqueue.MultiQueue.Handles
use multiqueue.MultiQueue.Blocking.{RecvError}
use multiqueue.MultiQueue.Futures.State.{
  FutQueue, FutInnerRecv, FutInnerUniRecv, notify_all_producers, relay,
}
use multiqueue.MultiQueue.Futures.Recv.{
  Async, PollTurn, poll_loop, examine, recv_or_panic, drop_recv,
}

module _ {ℓ κ μ} {Task : Type κ} {T : Type ℓ} {R : Type μ} where
  -- The producers are notified whatever the result is.
  unfoldable pub try_recv :
      QueueRw T
      → FutQueue Task T
      → FutInnerUniRecv T R
      → Result Fault (FutQueue Task T × FutInnerUniRecv T R × Result TryRecvError R)
  try_recv p fq rx = do
    (q, reader, rval) ← Handles.try_recv_view p rx.op fq.queue rx.reader
    ok (notify_all_producers (relay fq q), record rx { reader = reader }, rval)

  unfoldable pub recv :
      QueueRw T
      → FutQueue Task T
      → FutInnerUniRecv T R
      → Result Fault (FutQueue Task T × FutInnerUniRecv T R × Result RecvError R)
  recv p fq rx = do
    received ← Recv.try_recv_view p rx.op (examine rx.reader fq).queue rx.reader.reader
    (q, reader, rval) ← recv_or_panic received
    ok (
      notify_all_producers (relay fq q),
      record rx { reader = record (rx.reader) { reader = reader } },
      rval,
    )

  -- `poll` of the trait `Stream`.
  unfoldable pub poll :
      QueueRw T
      → Task
      → List (PollTurn Task T)
      → FutQueue Task T
      → FutInnerUniRecv T R
      → Result Fault (FutQueue Task T × FutInnerUniRecv T R × Async (Option R))
  poll p task turns fq rx = do
    (fq', reader, result) ←
        poll_loop (λ _. Recv.try_recv_view p rx.op) task turns (examine rx.reader fq) rx.reader
    ok (fq', record rx { reader = reader }, result)

  unfoldable pub add_stream_with {ν} :
      {Q : Type ν}
      → (T → Q)
      → FutQueue Task T
      → FutInnerUniRecv T R
      → Result Fault (FutQueue Task T × FutInnerUniRecv T Q)
  add_stream_with op fq rx = do
    (q, reader) ← Handles.add_stream fq.queue rx.reader
    ok (relay fq q, record { reader = reader; op = op })

  -- The handle is dropped at the end of this call, and of the next.
  unfoldable pub unsubscribe :
      FutQueue Task T → FutInnerUniRecv T R → Result Fault (FutQueue Task T × Bool)
  unsubscribe fq rx = do
    fq' ← drop_recv fq rx.reader
    ok (fq', Handles.is_single fq.queue rx.reader)

  unfoldable pub into_multi :
      FutQueue Task T → FutInnerUniRecv T R → Result Fault (FutQueue Task T × FutInnerRecv)
  into_multi fq rx = do
    (q, new_reader) ← Handles.add_stream fq.queue rx.reader
    fq' ← drop_recv (relay fq q) rx.reader
    ok (fq', record { reader = new_reader })

-- ===== src/Broadcast/Futures/Receiver.antt =====
-- `BroadcastFutReceiver` of src/broadcast.rs.
use multiqueue.Prelude.{List, Bool, Option, Result, ok, err, Fault, ◌>>=◌}
use multiqueue.MultiQueue.Policy.{bcast}
use multiqueue.MultiQueue.Recv.{TryRecvError}
use multiqueue.MultiQueue.Blocking.{RecvError}
use multiqueue.MultiQueue.Futures.State.{FutQueue, FutInnerRecv, FutInnerUniRecv}
use multiqueue.MultiQueue.Futures.Recv
use multiqueue.MultiQueue.Futures.Recv.{Async, PollTurn}
use multiqueue.Broadcast.Futures.{BroadcastFutReceiver, BroadcastFutUniReceiver}

-- What `into_single` makes of the result of the inner handle.
unfoldable pub wrap_single {ℓ μ} :
    {T : Type ℓ} {R : Type μ}
    → Result FutInnerRecv (FutInnerUniRecv T R)
    → Result BroadcastFutReceiver (BroadcastFutUniReceiver T R)
wrap_single (ok sreceiver) = ok (record { receiver = sreceiver })
wrap_single (err receiver) = err (record { receiver = receiver })

module _ {ℓ κ} {Task : Type κ} {T : Type ℓ} (clone : T → T) where
  unfoldable pub try_recv :
      List Bool
      → FutQueue Task T
      → BroadcastFutReceiver
      → Result Fault (FutQueue Task T × BroadcastFutReceiver × Result TryRecvError T)
  try_recv outcomes fq rx = do
    (fq', receiver, result) ← Recv.try_recv (bcast clone) outcomes fq rx.receiver
    ok (fq', record { receiver = receiver }, result)

  unfoldable pub recv :
      List Bool
      → FutQueue Task T
      → BroadcastFutReceiver
      → Result Fault (FutQueue Task T × BroadcastFutReceiver × Result RecvError T)
  recv outcomes fq rx = do
    (fq', receiver, result) ← Recv.recv (bcast clone) outcomes fq rx.receiver
    ok (fq', record { receiver = receiver }, result)

  -- `poll` of the trait `Stream`.
  unfoldable pub poll :
      Task
      → List (PollTurn Task T)
      → FutQueue Task T
      → BroadcastFutReceiver
      → Result Fault (FutQueue Task T × BroadcastFutReceiver × Async (Option T))
  poll task turns fq rx = do
    (fq', receiver, result) ← Recv.poll (bcast clone) task turns fq rx.receiver
    ok (fq', record { receiver = receiver }, result)

module _ {ℓ κ} {Task : Type κ} {T : Type ℓ} where
  unfoldable pub add_stream :
      FutQueue Task T → BroadcastFutReceiver → Result Fault (FutQueue Task T × BroadcastFutReceiver)
  add_stream fq rx = do
    (fq', receiver) ← Recv.add_stream fq rx.receiver
    ok (fq', record { receiver = receiver })

  -- The handle is dropped at the end of the call.
  unfoldable pub unsubscribe :
      FutQueue Task T → BroadcastFutReceiver → Result Fault (FutQueue Task T × Bool)
  unsubscribe fq rx = Recv.unsubscribe fq rx.receiver

  -- `Clone`: the handle itself, and the new one.
  unfoldable pub clone_receiver :
      FutQueue Task T
      → BroadcastFutReceiver
      → FutQueue Task T × BroadcastFutReceiver × BroadcastFutReceiver
  clone_receiver fq rx =
      let (fq', old, fresh) = Recv.clone_receiver fq rx.receiver in
      (fq', record { receiver = old }, record { receiver = fresh })

  unfoldable pub into_single {μ} :
      {R : Type μ}
      → (T → R)
      → FutQueue Task T
      → BroadcastFutReceiver
      → Result Fault (FutQueue Task T × Result BroadcastFutReceiver (BroadcastFutUniReceiver T R))
  into_single op fq rx = do
    (fq', result) ← Recv.into_single op fq rx.receiver
    ok (fq', wrap_single result)

-- ===== src/Mpmc/Futures/Receiver.antt =====
-- `MPMCFutReceiver` of src/mpmc.rs.
use multiqueue.Prelude.{List, Bool, Option, Result, ok, err, Fault, ◌>>=◌}
use multiqueue.MultiQueue.Policy.{mpmc}
use multiqueue.MultiQueue.Recv.{TryRecvError}
use multiqueue.MultiQueue.Blocking.{RecvError}
use multiqueue.MultiQueue.Futures.State.{FutQueue, FutInnerRecv, FutInnerUniRecv}
use multiqueue.MultiQueue.Futures.Recv
use multiqueue.MultiQueue.Futures.Recv.{Async, PollTurn}
use multiqueue.Mpmc.Futures.{MpmcFutReceiver, MpmcFutUniReceiver}

-- What `into_single` makes of the result of the inner handle.
unfoldable pub wrap_single {ℓ μ} :
    {T : Type ℓ} {R : Type μ}
    → Result FutInnerRecv (FutInnerUniRecv T R)
    → Result MpmcFutReceiver (MpmcFutUniReceiver T R)
wrap_single (ok sreceiver) = ok (record { receiver = sreceiver })
wrap_single (err receiver) = err (record { receiver = receiver })

module _ {ℓ κ} {Task : Type κ} {T : Type ℓ} where
  unfoldable pub try_recv :
      List Bool
      → FutQueue Task T
      → MpmcFutReceiver
      → Result Fault (FutQueue Task T × MpmcFutReceiver × Result TryRecvError T)
  try_recv outcomes fq rx = do
    (fq', receiver, result) ← Recv.try_recv mpmc outcomes fq rx.receiver
    ok (fq', record { receiver = receiver }, result)

  unfoldable pub recv :
      List Bool
      → FutQueue Task T
      → MpmcFutReceiver
      → Result Fault (FutQueue Task T × MpmcFutReceiver × Result RecvError T)
  recv outcomes fq rx = do
    (fq', receiver, result) ← Recv.recv mpmc outcomes fq rx.receiver
    ok (fq', record { receiver = receiver }, result)

  -- `poll` of the trait `Stream`.
  unfoldable pub poll :
      Task
      → List (PollTurn Task T)
      → FutQueue Task T
      → MpmcFutReceiver
      → Result Fault (FutQueue Task T × MpmcFutReceiver × Async (Option T))
  poll task turns fq rx = do
    (fq', receiver, result) ← Recv.poll mpmc task turns fq rx.receiver
    ok (fq', record { receiver = receiver }, result)

module _ {ℓ κ} {Task : Type κ} {T : Type ℓ} where
  -- The handle is dropped at the end of the call.
  unfoldable pub unsubscribe :
      FutQueue Task T → MpmcFutReceiver → Result Fault (FutQueue Task T × Bool)
  unsubscribe fq rx = Recv.unsubscribe fq rx.receiver

  -- `Clone`: the handle itself, and the new one.
  unfoldable pub clone_receiver :
      FutQueue Task T → MpmcFutReceiver → FutQueue Task T × MpmcFutReceiver × MpmcFutReceiver
  clone_receiver fq rx =
      let (fq', old, fresh) = Recv.clone_receiver fq rx.receiver in
      (fq', record { receiver = old }, record { receiver = fresh })

  unfoldable pub into_single {μ} :
      {R : Type μ}
      → (T → R)
      → FutQueue Task T
      → MpmcFutReceiver
      → Result Fault (FutQueue Task T × Result MpmcFutReceiver (MpmcFutUniReceiver T R))
  into_single op fq rx = do
    (fq', result) ← Recv.into_single op fq rx.receiver
    ok (fq', wrap_single result)

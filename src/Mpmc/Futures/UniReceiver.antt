-- ===== src/Mpmc/Futures/UniReceiver.antt =====
-- `MPMCFutUniReceiver` of src/mpmc.rs.
use multiqueue.Prelude.{List, Bool, Option, Result, ok, Fault, ◌>>=◌}
use multiqueue.MultiQueue.Policy.{mpmc}
use multiqueue.MultiQueue.Recv.{TryRecvError}
use multiqueue.MultiQueue.Blocking.{RecvError}
use multiqueue.MultiQueue.Futures.State.{FutQueue}
use multiqueue.MultiQueue.Futures.Recv.{Async, PollTurn, drop_recv}
use multiqueue.MultiQueue.Futures.Uni
use multiqueue.Mpmc.Futures.{MpmcFutReceiver, MpmcFutUniReceiver}

module _ {ℓ κ μ} {Task : Type κ} {T : Type ℓ} {R : Type μ} where
  unfoldable pub try_recv :
      FutQueue Task T
      → MpmcFutUniReceiver T R
      → Result Fault (FutQueue Task T × MpmcFutUniReceiver T R × Result TryRecvError R)
  try_recv fq rx = do
    (fq', receiver, result) ← Uni.try_recv mpmc fq rx.receiver
    ok (fq', record { receiver = receiver }, result)

  unfoldable pub recv :
      FutQueue Task T
      → MpmcFutUniReceiver T R
      → Result Fault (FutQueue Task T × MpmcFutUniReceiver T R × Result RecvError R)
  recv fq rx = do
    (fq', receiver, result) ← Uni.recv mpmc fq rx.receiver
    ok (fq', record { receiver = receiver }, result)

  -- `poll` of the trait `Stream`.
  unfoldable pub poll :
      Task
      → List (PollTurn Task T)
      → FutQueue Task T
      → MpmcFutUniReceiver T R
      → Result Fault (FutQueue Task T × MpmcFutUniReceiver T R × Async (Option R))
  poll task turns fq rx = do
    (fq', receiver, result) ← Uni.poll mpmc task turns fq rx.receiver
    ok (fq', record { receiver = receiver }, result)

module _ {ℓ κ μ} {Task : Type κ} {T : Type ℓ} {R : Type μ} where
  unfoldable pub add_stream_with {ν} :
      {Q : Type ν}
      → (T → Q)
      → FutQueue Task T
      → MpmcFutUniReceiver T R
      → Result Fault (FutQueue Task T × MpmcFutUniReceiver T Q)
  add_stream_with op fq rx = do
    (fq', receiver) ← Uni.add_stream_with op fq rx.receiver
    ok (fq', record { receiver = receiver })

  -- The handle is dropped at the end of this call, and of the two that follow.
  unfoldable pub transform_operation {ν} :
      {Q : Type ν}
      → (T → Q)
      → FutQueue Task T
      → MpmcFutUniReceiver T R
      → Result Fault (FutQueue Task T × MpmcFutUniReceiver T Q)
  transform_operation op fq rx = do
    (fq1, receiver) ← Uni.add_stream_with op fq rx.receiver
    fq2 ← drop_recv fq1 rx.receiver.reader
    ok (fq2, record { receiver = receiver })

  unfoldable pub unsubscribe :
      FutQueue Task T → MpmcFutUniReceiver T R → Result Fault (FutQueue Task T × Bool)
  unsubscribe fq rx = Uni.unsubscribe fq rx.receiver

  unfoldable pub into_multi :
      FutQueue Task T → MpmcFutUniReceiver T R → Result Fault (FutQueue Task T × MpmcFutReceiver)
  into_multi fq rx = do
    (fq', receiver) ← Uni.into_multi fq rx.receiver
    ok (fq', record { receiver = receiver })

-- ===== src/Broadcast/Futures/Sender.antt =====
-- `BroadcastFutSender` of src/broadcast.rs.
use multiqueue.Prelude.{List, Bool, Result, ok, Fault, ◌>>=◌}
use multiqueue.MultiQueue.Policy.{bcast}
use multiqueue.MultiQueue.Send.{TrySendError}
use multiqueue.MultiQueue.Futures.State.{FutQueue}
use multiqueue.MultiQueue.Futures.Recv.{Async, ready}
use multiqueue.MultiQueue.Futures.Send
use multiqueue.MultiQueue.Futures.Send.{AsyncSink, SendError, Offer}
use multiqueue.Broadcast.Futures.{BroadcastFutSender}

module _ {ℓ κ} {Task : Type κ} {T : Type ℓ} (clone : T → T) where
  unfoldable pub try_send :
      List Bool
      → FutQueue Task T
      → BroadcastFutSender
      → T
      → Result Fault (FutQueue Task T × BroadcastFutSender × Result (TrySendError T) (Unit {0}))
  try_send outcomes fq tx val = do
    (fq', sender, result) ← Send.try_send (bcast clone) outcomes fq tx.sender val
    ok (fq', record { sender = sender }, result)

  -- `start_send` of the trait `Sink`.
  unfoldable pub start_send :
      Task
      → List (Offer Task T)
      → FutQueue Task T
      → BroadcastFutSender
      → T
      → Result Fault (FutQueue Task T × BroadcastFutSender × Result (SendError T) (AsyncSink T))
  start_send task offers fq tx msg = do
    (fq', sender, result) ← Send.start_send (bcast clone) task offers fq tx.sender msg
    ok (fq', record { sender = sender }, result)

-- `poll_complete` of the trait `Sink`: nothing is ever held back.
unfoldable pub poll_complete {ℓ} :
    {T : Type ℓ} → BroadcastFutSender → Result (SendError T) (Async (Unit {0}))
poll_complete tx = ok (ready tt)

module _ {ℓ κ} {Task : Type κ} {T : Type ℓ} where
  -- The handle is dropped at the end of the call.
  unfoldable pub unsubscribe : FutQueue Task T → BroadcastFutSender → FutQueue Task T
  unsubscribe fq tx = Send.unsubscribe fq tx.sender

  -- `Clone`: the handle itself, and the new one.
  unfoldable pub clone_sender :
      FutQueue Task T
      → BroadcastFutSender
      → FutQueue Task T × BroadcastFutSender × BroadcastFutSender
  clone_sender fq tx =
      let (fq', old, fresh) = Send.clone_sender fq tx.sender in
      (fq', record { sender = old }, record { sender = fresh })

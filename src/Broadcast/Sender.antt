-- ===== src/Broadcast/Sender.antt =====
-- `BroadcastSender` of src/broadcast.rs.
use multiqueue.Prelude.{List, Bool, Result, ok, Fault, ◌>>=◌}
use multiqueue.MultiQueue.Policy.{bcast}
use multiqueue.MultiQueue.State.{MultiQueue}
use multiqueue.MultiQueue.Send.{Sent}
use multiqueue.MultiQueue.Handles
use multiqueue.Broadcast.{BroadcastSender}

unfoldable pub try_send {ℓ} :
    {T : Type ℓ} (clone : T → T)
    → List Bool
    → MultiQueue T
    → BroadcastSender
    → T
    → Result Fault (BroadcastSender × Sent T)
try_send clone outcomes q tx val = do
  (sender, sent) ← Handles.try_send (bcast clone) outcomes q tx.sender val
  ok (record tx { sender = sender }, sent)

-- `#[derive(Clone)]`: the handle itself, and the new one.
unfoldable pub clone_sender {ℓ} :
    {T : Type ℓ} → MultiQueue T → BroadcastSender → MultiQueue T × BroadcastSender × BroadcastSender
clone_sender q tx =
    let (q', old, fresh) = Handles.clone_send q tx.sender in
    (q', record { sender = old }, record { sender = fresh })

-- The handle is dropped at the end of the call.
unfoldable pub unsubscribe {ℓ} : {T : Type ℓ} → MultiQueue T → BroadcastSender → MultiQueue T
unsubscribe q tx = Handles.drop_send q tx.sender

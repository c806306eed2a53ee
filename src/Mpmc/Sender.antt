-- ===== src/Mpmc/Sender.antt =====
-- `MPMCSender` of src/mpmc.rs.
use multiqueue.Prelude.{List, Bool, Result, ok, Fault, ◌>>=◌}
use multiqueue.MultiQueue.Policy.{mpmc}
use multiqueue.MultiQueue.State.{MultiQueue}
use multiqueue.MultiQueue.Send.{Sent}
use multiqueue.MultiQueue.Handles
use multiqueue.Mpmc.{MpmcSender}

unfoldable pub try_send {ℓ} :
    {T : Type ℓ} → List Bool → MultiQueue T → MpmcSender → T → Result Fault (MpmcSender × Sent T)
try_send outcomes q tx val = do
  (sender, sent) ← Handles.try_send mpmc outcomes q tx.sender val
  ok (record tx { sender = sender }, sent)

-- `#[derive(Clone)]`: the handle itself, and the new one.
unfoldable pub clone_sender {ℓ} :
    {T : Type ℓ} → MultiQueue T → MpmcSender → MultiQueue T × MpmcSender × MpmcSender
clone_sender q tx =
    let (q', old, fresh) = Handles.clone_send q tx.sender in
    (q', record { sender = old }, record { sender = fresh })

-- The handle is dropped at the end of the call.
unfoldable pub unsubscribe {ℓ} : {T : Type ℓ} → MultiQueue T → MpmcSender → MultiQueue T
unsubscribe q tx = Handles.drop_send q tx.sender

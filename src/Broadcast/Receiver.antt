-- ===== src/Broadcast/Receiver.antt =====
-- `BroadcastReceiver` of src/broadcast.rs and its iterators.
use multiqueue.Prelude.{
  List, Bool, Option, none, some, Result, ok, err, Fault, ◌>>=◌, if◌then◌else◌,
}
use multiqueue.MultiQueue.Policy.{bcast}
use multiqueue.MultiQueue.State.{MultiQueue}
use multiqueue.MultiQueue.Recv.{TryRecvError}
use multiqueue.MultiQueue.Handles
use multiqueue.MultiQueue.Blocking
use multiqueue.MultiQueue.Blocking.{RecvError, Turn, Waiter, Handled}
use multiqueue.Broadcast.{BroadcastReceiver, BroadcastUniReceiver}

-- What a call leaves behind, with the handle wrapped again.
abbrev Left {ℓ κ μ} : Type ℓ → Type κ → Type μ → Type (ℓ ⊔ κ ⊔ μ)
Left T E R = Result Fault (MultiQueue T × BroadcastReceiver × Result E R)

-- An iterator gives the value, or ends on any error.
abbrev Next {ℓ κ} : Type ℓ → Type κ → Type (ℓ ⊔ κ)
Next T R = Result Fault (MultiQueue T × BroadcastReceiver × Option R)

wrap {ℓ κ μ} : {T : Type ℓ} {E : Type κ} {R : Type μ} → Handled T E R → Left T E R
wrap call = do (q, receiver, result) ← call; ok (q, record { receiver = receiver }, result)

to_next {ℓ κ μ} : {T : Type ℓ} {E : Type κ} {R : Type μ} → Left T E R → Next T R
to_next call = do
  (q, rx, result) ← call
  ok (q, rx, elim result [ ok val ↦ some val | err e ↦ none ])

module _ {ℓ} {T : Type ℓ} (clone : T → T) where
  unfoldable pub try_recv : List Bool → MultiQueue T → BroadcastReceiver → Left T TryRecvError T
  unfolding wrap
  try_recv outcomes q rx = wrap (Handles.try_recv (bcast clone) outcomes q rx.receiver)

  unfoldable pub recv :
      Waiter → List (Turn T) → MultiQueue T → BroadcastReceiver → Left T RecvError T
  unfolding wrap
  recv wait turns q rx = wrap (Blocking.recv (bcast clone) wait turns q rx.receiver)

  -- `next` of `BroadcastIter`, which waits.
  unfoldable pub iter_next : Waiter → List (Turn T) → MultiQueue T → BroadcastReceiver → Next T T
  unfolding to_next
  iter_next wait turns q rx = to_next (recv wait turns q rx)

  -- `next` of `BroadcastRefIter`, which does not.
  unfoldable pub ref_iter_next : List Bool → MultiQueue T → BroadcastReceiver → Next T T
  unfolding to_next
  ref_iter_next outcomes q rx = to_next (try_recv outcomes q rx)

module _ {ℓ} {T : Type ℓ} where
  unfoldable pub add_stream :
      MultiQueue T → BroadcastReceiver → Result Fault (MultiQueue T × BroadcastReceiver)
  add_stream q rx = do
    (q', receiver) ← Handles.add_stream q rx.receiver
    ok (q', record { receiver = receiver })

  -- `Clone`: the handle itself, and the new one.
  unfoldable pub clone_receiver :
      MultiQueue T → BroadcastReceiver → MultiQueue T × BroadcastReceiver × BroadcastReceiver
  clone_receiver q rx =
      let (q', old, fresh) = Handles.clone_recv q rx.receiver in
      (q', record { receiver = old }, record { receiver = fresh })

  -- What `unsubscribe` of the inner handle says; the handle is then dropped.
  unfoldable pub unsubscribe : MultiQueue T → BroadcastReceiver → Result Fault (MultiQueue T × Bool)
  unsubscribe q rx = do
    (q', _) ← Handles.do_unsubscribe q rx.receiver
    ok (q', Handles.is_single q rx.receiver)

  -- The handle for a single consumer, or the handle given back.
  unfoldable pub into_single :
      MultiQueue T → BroadcastReceiver → Result BroadcastReceiver BroadcastUniReceiver
  into_single q rx =
      if Handles.is_single q rx.receiver then ok (record { receiver = rx.receiver }) else err rx

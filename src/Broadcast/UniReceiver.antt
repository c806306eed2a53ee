-- ===== src/Broadcast/UniReceiver.antt =====
-- `BroadcastUniReceiver` of src/broadcast.rs and its iterators.
use multiqueue.Prelude.{List, Bool, Option, none, some, Result, ok, err, Fault, ◌>>=◌}
use multiqueue.MultiQueue.Policy.{bcast}
use multiqueue.MultiQueue.State.{MultiQueue}
use multiqueue.MultiQueue.Recv.{TryRecvError}
use multiqueue.MultiQueue.Handles
use multiqueue.MultiQueue.Blocking
use multiqueue.MultiQueue.Blocking.{RecvError, Turn, Waiter, Handled}
use multiqueue.Broadcast.{BroadcastReceiver, BroadcastUniReceiver}

-- What a call leaves behind, with the handle wrapped again.
abbrev Left {ℓ κ μ} : Type ℓ → Type κ → Type μ → Type (ℓ ⊔ κ ⊔ μ)
Left T E R = Result Fault (MultiQueue T × BroadcastUniReceiver × Result E R)

-- An iterator gives the value, or ends on any error.
abbrev Next {ℓ κ} : Type ℓ → Type κ → Type (ℓ ⊔ κ)
Next T R = Result Fault (MultiQueue T × BroadcastUniReceiver × Option R)

wrap {ℓ κ μ} : {T : Type ℓ} {E : Type κ} {R : Type μ} → Handled T E R → Left T E R
wrap call = do (q, receiver, result) ← call; ok (q, record { receiver = receiver }, result)

to_next {ℓ κ μ} : {T : Type ℓ} {E : Type κ} {R : Type μ} → Left T E R → Next T R
to_next call = do
  (q, rx, result) ← call
  ok (q, rx, elim result [ ok val ↦ some val | err e ↦ none ])

module _ {ℓ} {T : Type ℓ} (clone : T → T) where
  unfoldable pub try_recv : List Bool → MultiQueue T → BroadcastUniReceiver → Left T TryRecvError T
  unfolding wrap
  try_recv outcomes q rx = wrap (Handles.try_recv (bcast clone) outcomes q rx.receiver)

  unfoldable pub recv :
      Waiter → List (Turn T) → MultiQueue T → BroadcastUniReceiver → Left T RecvError T
  unfolding wrap
  recv wait turns q rx = wrap (Blocking.recv (bcast clone) wait turns q rx.receiver)

  -- What the source gives back of the function on an error is left out.
  unfoldable pub try_recv_view {κ} :
      {R : Type κ} → (T → R) → MultiQueue T → BroadcastUniReceiver → Left T TryRecvError R
  unfolding wrap
  try_recv_view op q rx = wrap (Handles.try_recv_view (bcast clone) op q rx.receiver)

  unfoldable pub recv_view {κ} :
      {R : Type κ}
      → (T → R)
      → Waiter
      → List (Turn T)
      → MultiQueue T
      → BroadcastUniReceiver
      → Left T RecvError R
  unfolding wrap
  recv_view op wait turns q rx = wrap (Blocking.recv_view (bcast clone) op wait turns q rx.receiver)

  -- `next` of `BroadcastSCIter`, which waits.
  unfoldable pub iter_next : Waiter → List (Turn T) → MultiQueue T → BroadcastUniReceiver → Next T T
  unfolding to_next
  iter_next wait turns q rx = to_next (recv wait turns q rx)

  -- `next` of `BroadcastSCRefIter`, which does not.
  unfoldable pub ref_iter_next : List Bool → MultiQueue T → BroadcastUniReceiver → Next T T
  unfolding to_next
  ref_iter_next outcomes q rx = to_next (try_recv outcomes q rx)

  -- `next` of `BroadcastUniIter`, which waits.
  unfoldable pub uni_iter_next {κ} :
      {R : Type κ}
      → (T → R)
      → Waiter
      → List (Turn T)
      → MultiQueue T
      → BroadcastUniReceiver
      → Next T R
  unfolding to_next
  uni_iter_next op wait turns q rx = to_next (recv_view op wait turns q rx)

  -- `next` of `BroadcastUniRefIter`, which does not.
  unfoldable pub uni_ref_iter_next {κ} :
      {R : Type κ} → (T → R) → MultiQueue T → BroadcastUniReceiver → Next T R
  unfolding to_next
  uni_ref_iter_next op q rx = to_next (try_recv_view op q rx)

module _ {ℓ} {T : Type ℓ} where
  -- The handle is dropped at the end of the call.
  unfoldable pub unsubscribe : MultiQueue T → BroadcastUniReceiver → Result Fault (MultiQueue T)
  unsubscribe q rx = do (q', _) ← Handles.do_unsubscribe q rx.receiver; ok q'

unfoldable pub into_multi : BroadcastUniReceiver → BroadcastReceiver
into_multi rx = record { receiver = rx.receiver }

-- ===== src/Broadcast/Futures.antt =====
-- The futures part of src/broadcast.rs: handles over those of MultiQueue/Futures.antt.
pub mod Sender
pub mod Receiver
pub mod UniReceiver
use multiqueue.Prelude.{ℕ, Result, ok, Fault, ◌>>=◌}
use multiqueue.Heap.{Heap}
use multiqueue.MultiQueue.Futures.State.{
  FutQueue, FutInnerSend, FutInnerRecv, FutInnerUniRecv, futures_multiqueue,
  futures_multiqueue_with,
}

pub record BroadcastFutSender : Type 0 where
  pub sender : FutInnerSend

pub record BroadcastFutReceiver : Type 0 where
  pub receiver : FutInnerRecv

pub record BroadcastFutUniReceiver {ℓ κ} (T : Type ℓ) (R : Type κ) : Type (ℓ ⊔ κ) where
  pub receiver : FutInnerUniRecv T R

unfoldable pub broadcast_fut_queue {ℓ κ} :
    {Task : Type κ} {T : Type ℓ}
    → Heap
    → ℕ
    → ℕ
    → Result Fault (FutQueue Task T × BroadcastFutSender × BroadcastFutReceiver)
broadcast_fut_queue heap entry_size capacity = do
  (fq, isend, irecv) ← futures_multiqueue heap entry_size capacity
  ok (fq, record { sender = isend }, record { receiver = irecv })

unfoldable pub broadcast_fut_queue_with {ℓ κ} :
    {Task : Type κ} {T : Type ℓ}
    → Heap
    → ℕ
    → ℕ
    → ℕ
    → ℕ
    → Result Fault (FutQueue Task T × BroadcastFutSender × BroadcastFutReceiver)
broadcast_fut_queue_with heap entry_size capacity try_spins yield_spins = do
  (fq, send, recv) ← futures_multiqueue_with heap entry_size capacity try_spins yield_spins
  ok (fq, record { sender = send }, record { receiver = recv })

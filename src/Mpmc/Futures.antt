-- ===== src/Mpmc/Futures.antt =====
-- The futures part of src/mpmc.rs: handles over those of MultiQueue/Futures.antt.
pub mod Sender
pub mod Receiver
pub mod UniReceiver
use multiqueue.Prelude.{ℕ, Result, ok, Fault, ◌>>=◌}
use multiqueue.Heap.{Heap}
use multiqueue.MultiQueue.Futures.State.{
  FutQueue, FutInnerSend, FutInnerRecv, FutInnerUniRecv, futures_multiqueue,
}

pub record MpmcFutSender : Type 0 where
  pub sender : FutInnerSend

pub record MpmcFutReceiver : Type 0 where
  pub receiver : FutInnerRecv

pub record MpmcFutUniReceiver {ℓ κ} (T : Type ℓ) (R : Type κ) : Type (ℓ ⊔ κ) where
  pub receiver : FutInnerUniRecv T R

unfoldable pub mpmc_fut_queue {ℓ κ} :
    {Task : Type κ} {T : Type ℓ}
    → Heap
    → ℕ
    → ℕ
    → Result Fault (FutQueue Task T × MpmcFutSender × MpmcFutReceiver)
mpmc_fut_queue heap entry_size capacity = do
  (fq, isend, irecv) ← futures_multiqueue heap entry_size capacity
  ok (fq, record { sender = isend }, record { receiver = irecv })

-- ===== src/Mpmc.antt =====
-- src/mpmc.rs: the handles that a user of a multi-producer, multi-consumer queue gets; values are moved out of the queue.
pub mod Sender
pub mod Receiver
pub mod UniReceiver
pub mod Futures
use multiqueue.Prelude.{ℕ, Bool, true, Result, ok, Fault, ◌>>=◌}
use multiqueue.Heap.{Heap}
use multiqueue.MultiQueue.State.{MultiQueue, InnerSend, InnerRecv, new_internal}

pub record MpmcSender : Type 0 where
  pub sender : InnerSend

pub record MpmcReceiver : Type 0 where
  pub receiver : InnerRecv

pub record MpmcUniReceiver : Type 0 where
  pub receiver : InnerRecv

-- The waiter is known by what its `needs_notify` says, and a cell by the bytes that it takes.
unfoldable pub mpmc_queue_with {ℓ} :
    {T : Type ℓ} → Heap → ℕ → ℕ → Bool → Result Fault (MultiQueue T × MpmcSender × MpmcReceiver)
mpmc_queue_with heap entry_size capacity needs_notify = do
  (q, send, recv) ← new_internal heap entry_size capacity needs_notify
  ok (q, record { sender = send }, record { receiver = recv })

-- With a `BlockingWait`, which asks to be notified.
unfoldable pub mpmc_queue {ℓ} :
    {T : Type ℓ} → Heap → ℕ → ℕ → Result Fault (MultiQueue T × MpmcSender × MpmcReceiver)
mpmc_queue heap entry_size capacity = mpmc_queue_with heap entry_size capacity true

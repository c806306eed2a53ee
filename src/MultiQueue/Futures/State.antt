-- ===== src/MultiQueue/Futures/State.antt =====
-- The handles of the futures part of src/multiqueue.rs, and the queue with its two `FutWait`s. `wait`
-- is the queue's own waiter, so that each call of `notify` in the queue is one on `wait`.
use multiqueue.Prelude.{ℕ, zero, suc, ◌-◌, List, [], true, Result, ok, Fault, ◌>>=◌, get_or}
use multiqueue.Heap.{Heap}
use multiqueue.Wait.{Sight}
use multiqueue.MultiQueue.State.{MultiQueue, InnerSend, InnerRecv, blank, new_internal}
use multiqueue.MultiQueue.Futures.Wait
use multiqueue.MultiQueue.Futures.Wait.{FutWait, with_spins}

-- `woken` lists the tasks notified so far.
pub record FutQueue {ℓ κ} (Task : Type κ) (T : Type ℓ) : Type (ℓ ⊔ κ) where
  pub queue : MultiQueue T
  pub wait : FutWait Task
  pub prod_wait : FutWait Task
  pub woken : List Task

pub record FutInnerSend : Type 0 where
  pub writer : InnerSend

pub record FutInnerRecv : Type 0 where
  pub reader : InnerRecv

pub record FutInnerUniRecv {ℓ κ} (T : Type ℓ) (R : Type κ) : Type (ℓ ⊔ κ) where
  pub reader : InnerRecv
  pub op : T → R

module _ {ℓ κ} {Task : Type κ} {T : Type ℓ} where
  unfoldable pub notify_wait : FutQueue Task T → FutQueue Task T
  notify_wait fq =
      let (wait, woken) = Wait.notify fq.wait fq.woken in record fq { wait = wait; woken = woken }

  unfoldable pub notify_producers : FutQueue Task T → FutQueue Task T
  notify_producers fq =
      let (prod_wait, woken) = Wait.notify fq.prod_wait fq.woken in
      record fq { prod_wait = prod_wait; woken = woken }

  unfoldable pub notify_all_producers : FutQueue Task T → FutQueue Task T
  notify_all_producers fq =
      let (prod_wait, woken) = Wait.notify_all fq.prod_wait fq.woken in
      record fq { prod_wait = prod_wait; woken = woken }

  unfoldable pub notify_times : ℕ → FutQueue Task T → FutQueue Task T
  notify_times zero fq = fq
  notify_times (suc n) fq = notify_times n (notify_wait fq)

  -- A call of the queue has left `q` behind, and called `notify` on the waiter as often as it counts.
  unfoldable pub relay : FutQueue Task T → MultiQueue T → FutQueue Task T
  unfolding notify_times
  relay fq q = notify_times (q.notified - fq.queue.notified) (record fq { queue = q })

  -- What `check` sees of the cell `i`.
  abbrev pub sight_of : FutQueue Task T → ℕ → Sight
  sight_of fq i = record { at = (get_or fq.queue.cells i blank).wraps; wc = fq.queue.writers }

  unfoldable pub futures_multiqueue_with :
      Heap → ℕ → ℕ → ℕ → ℕ → Result Fault (FutQueue Task T × FutInnerSend × FutInnerRecv)
  futures_multiqueue_with heap entry_size capacity try_spins yield_spins = do
    (q, tx, rx) ← new_internal heap entry_size capacity true
    ok (
      record {
        queue = q;
        wait = with_spins try_spins yield_spins;
        prod_wait = with_spins try_spins yield_spins;
        woken = [];
      },
      record { writer = tx },
      record { reader = rx },
    )

  unfoldable pub futures_multiqueue :
      Heap → ℕ → ℕ → Result Fault (FutQueue Task T × FutInnerSend × FutInnerRecv)
  futures_multiqueue heap entry_size capacity = do
    (q, tx, rx) ← new_internal heap entry_size capacity true
    ok (
      record { queue = q; wait = Wait.new; prod_wait = Wait.new; woken = [] },
      record { writer = tx },
      record { reader = rx },
    )

-- ===== src/Refinement/Futures/Waking.antt =====
-- Which tasks the calls of `notify` wake.
use multiqueue.Prelude.{
  ℕ, ◌+◌, ◌-◌, ◌≡◌, refl, sym, ap, List, [], ◌∷◌, ◌++◌, arith, Bool, true, false, if◌then◌else◌,
  ltb, lt→ltb, length,
}
use mathlib.Core.List.{append-nil}
use multiqueue.MultiQueue.State.{MultiQueue}
use multiqueue.MultiQueue.Futures.Wait.{FutWait, notify_all, notify}
use multiqueue.MultiQueue.Futures.State.{FutQueue, notify_wait, notify_times, relay}

-- `notify` leaves the same list behind as `notify_all`, and notifies the same tasks in the same
-- order.
pub notify-eq-notify_all {ℓ} :
    {Task : Type ℓ} (w : FutWait Task) (woken : List Task) → notify w woken ≡ notify_all w woken
unfolding notify notify_all
notify-eq-notify_all {Task} w woken = by_tasks w.spins_first w.spins_yield w.parked
  where
    by_tasks :
        (first yield : ℕ) (parked : List Task)
        → notify (record { spins_first = first; spins_yield = yield; parked = parked }) woken
          ≡ notify_all (record { spins_first = first; spins_yield = yield; parked = parked }) woken
    by_tasks first yield [] =
        ap
          (λ (l : List Task). (record { spins_first = first; spins_yield = yield; parked = [] }, l))
          (sym (append-nil woken))
    by_tasks first yield (t ∷ ts) =
        rw (lt→ltb 0 (length (t ∷ ts)) (omega arith)) (same (ltb 8 (length (t ∷ ts))))
      where
        same : {A : Type ℓ} {a : A} (b : Bool) → (if b then a else a) ≡ a
        same true = refl
        same false = refl

module _ {ℓ κ} {Task : Type κ} {T : Type ℓ} where
  pub relay-zero :
      (fq : FutQueue Task T) (q : MultiQueue T)
      → q.notified ≡ fq.queue.notified
      → relay fq q ≡ record fq { queue = q }
  unfolding relay notify_times
  relay-zero fq q e = rw (ap (λ (n : ℕ). n - fq.queue.notified) e, none fq.queue.notified) refl
    where
      none : (n : ℕ) → n - n ≡ 0
      none n = omega arith

  pub relay-one :
      (fq : FutQueue Task T) (q : MultiQueue T)
      → q.notified ≡ fq.queue.notified + 1
      → relay fq q ≡ notify_wait (record fq { queue = q })
  unfolding relay notify_times
  relay-one fq q e = rw (ap (λ (n : ℕ). n - fq.queue.notified) e, one fq.queue.notified) refl
    where
      one : (n : ℕ) → (n + 1) - n ≡ 1
      one n = omega arith

  -- A notification of the waiter wakes all parked consumers, and leaves the rest alone.
  pub notify_wait_lem :
      (fq : FutQueue Task T)
      → notify_wait fq
        ≡ record fq { wait = record (fq.wait) { parked = [] }; woken = fq.woken ++ fq.wait.parked }
  unfolding notify_wait notify_all
  notify_wait_lem fq =
      ap (λ (w : FutWait Task × List Task). record fq { wait = w.0; woken = w.1 })
        (notify-eq-notify_all fq.wait fq.woken)

-- ===== src/Refinement/Futures/Rescue.antt =====
-- A `start_send` on a full queue, and the `poll` that makes room: the two sides of the futures part
-- together.
use multiqueue.Prelude.{
  ℕ, ◌+◌, ◌-◌, ◌^◌, ◌≤◌, ◌<◌, ◌≡◌, refl, ap, ◌∙◌, inl, inr, List, [], ◌∷◌, ◌++◌, some, arith, All,
  All-Elem, Elem, length, get_elem?,
}
use multiqueue.MultiQueue.Policy.{QueueRw, IsLawful}
use multiqueue.MultiQueue.State.{InnerRecv}
use multiqueue.MultiQueue.Recv
use multiqueue.MultiQueue.Futures.State.{FutQueue, FutInnerSend}
use multiqueue.MultiQueue.Futures.Send.{Offer, start_send}
use multiqueue.MultiQueue.Futures.Recv.{PollTurn, poll_loop}
use multiqueue.Refinement.Log.{readers, position, pow_bounds}
use multiqueue.Refinement.Futures.Offers.{IsQuiet, IsOpen}
use multiqueue.Refinement.Futures.Start.{Stalls, start_send_lem}
use multiqueue.Refinement.Futures.Polling.{IsAlone, Turns, Yields}
use multiqueue.Refinement.Futures.Poll.{polls_lem}

module _ {ℓ κ} {Task : Type κ} {T : Type ℓ} (p : QueueRw T) where
  -- The sender's task is parked, and woken again by a poll on the slowest stream.
  pub record Rescued (k : ℕ) (fq : FutQueue Task T) (sent : List T) (msg : T) (task poller : Task)
      (offers : List (Offer Task T)) (tx : FutInnerSend) (turn : PollTurn Task T)
      (turns : List (PollTurn Task T)) (rx : InnerRecv) : Type (ℓ ⊔ κ) where
    pub stalled : Stalls k fq sent msg task (start_send p task offers fq tx msg)
    pub next : T
    pub is_next : get_elem? sent (position fq.queue rx.reader.pos).val ≡ some next
    pub polled :
        Yields k stalled.state sent rx next
          (poll_loop (Recv.try_recv p) poller (turn ∷ turns) stalled.state rx)
    pub woken : polled.state.woken ≡ stalled.state.woken ++ (fq.prod_wait.parked ++ (task ∷ []))

  module _ (lawful : IsLawful p) where
    -- On a queue that stands for a log with fewer than 2 ^ 63 - 2 values and does not say that
    -- its readers are gone, with a lawful policy, nobody else at work, enough tries, and a stream
    -- that is a whole queue behind, `start_send` parks the task and returns `NotReady`, and the
    -- next time round the loop of `poll` on that stream takes its next value and wakes the
    -- producers that were parked before and then this task.
    pub start_send-Rescued :
        {k : ℕ} {sent : List T} (fq : FutQueue Task T) (msg : T) (task poller : Task)
        (offers : List (Offer Task T)) (tx : FutInnerSend) (turn : PollTurn Task T)
        (turns : List (PollTurn Task T)) (rx : InnerRecv)
        → IsOpen k fq sent
        → length sent + 1 < 2 ^ 63 - 1
        → All IsQuiet offers
        → fq.prod_wait.spins_first + fq.prod_wait.spins_yield < length offers
        → Elem rx.reader.pos (readers fq.queue)
        → length sent ≡ (position fq.queue rx.reader.pos).val + 2 ^ k
        → IsAlone fq.wait turn
        → Rescued k fq sent msg task poller offers tx turn turns rx
    start_send-Rescued {k} {sent} fq msg task poller offers tx turn turns rx v fits quiet enough at
          lags alone =
        elim (start_send_lem p lawful task offers fq tx msg v fits quiet enough) [
          | inl s ↦ absurd (
              omega (
                arith,
                lags,
                All-Elem (λ r. length sent < (position fq.queue r).val + 2 ^ k) rx.reader.pos
                    (readers fq.queue) s.room at,
              ))
          | inr s ↦
              by_turn s
                (polls_lem p lawful (λ x. x) poller turn turns s.state rx s.log
                  (rw s.streams_kept.1 at) (rw s.wait_kept alone)).0
        ]
      where
        first :
            (s : Stalls k fq sent msg task (start_send p task offers fq tx msg))
            → (position s.state.queue rx.reader.pos).val ≡ (position fq.queue rx.reader.pos).val
        first s = rw s.streams_kept.0 refl

        bounds : (0 < 2 ^ k) × (2 ^ k ≤ 2 ^ 61)
        bounds = pow_bounds k v.log.small

        by_turn :
            (s : Stalls k fq sent msg task (start_send p task offers fq tx msg))
            → Turns k s.state sent rx poller
                (λ x. x)
                (poll_loop (Recv.try_recv p) poller (turn ∷ turns) s.state rx)
                (poll_loop (Recv.try_recv p) poller turns s.state)
            → Rescued k fq sent msg task poller offers tx turn turns rx
        by_turn s (inl (x, next, y)) = record {
          stalled = s;
          next = x;
          is_next = rw (first s) at next;
          polled = y;
          woken = y.woken ∙ ap (λ (l : List Task). s.state.woken ++ l) s.parked;
        }
        by_turn s (inr (inl f)) = absurd (omega (arith, f.all_read, first s, lags, bounds))
        by_turn s (inr (inr (inl (round, f)))) =
            absurd (omega (arith, f.all_read, first s, lags, bounds))
        by_turn s (inr (inr (inr r))) = absurd (omega (arith, r.all_read, first s, lags, bounds))

-- ===== src/Refinement/Futures/Poll.antt =====
-- The two `poll`s of src/multiqueue.rs against the log, with no other thread at work during the call.
use multiqueue.Prelude.{
  ℕ, ◌^◌, ◌<◌, ◌≡◌, refl, ◌∙◌, ◌≢◌, inl, inr, List, [], ◌∷◌, arith, All, Elem, length,
  lt_of_get_elem?, Bool, false, err, out_of_steps,
}
use multiqueue.ReadCursor.Attempt.{Reader}
use multiqueue.MultiQueue.Policy.{QueueRw, IsLawful}
use multiqueue.MultiQueue.State.{MultiQueue, InnerRecv}
use multiqueue.MultiQueue.Recv
use multiqueue.MultiQueue.Handles.{examine_signals}
use multiqueue.MultiQueue.Futures.State.{FutQueue, FutInnerRecv}
use multiqueue.MultiQueue.Futures.Recv.{PollTurn, poll_loop, poll}
use multiqueue.Refinement.Log.{readers, position, IsLog}
use multiqueue.Refinement.Taking.{try_recv_view-Took}
use multiqueue.Refinement.Loop.{try_recv-Took}
use multiqueue.Refinement.Waiting.{recv_at_end}
use multiqueue.Refinement.Runs.{try_recv-Waits}
use multiqueue.Refinement.Signals.{examine_signals-Refreshed, Refreshed-IsLog, Refreshed-position}
use multiqueue.Refinement.Futures.Polling.{Serves, IsAlone, Turns, Retries, poll_loop_lem}

module _ {ℓ} {T : Type ℓ} (p : QueueRw T) where
  try_recv-Serves :
      (outcomes : List Bool) {k : ℕ} {q : MultiQueue T} {sent : List T} (r : Reader)
      → IsLawful p
      → IsLog k q sent
      → Elem r.pos (readers q)
      → Elem false outcomes
      → Serves k q sent r (λ x. x) (Recv.try_recv p outcomes q r)
  try_recv-Serves outcomes r lawful v at succeeds = record {
    takes = λ x next. try_recv-Took p outcomes r x lawful v at next succeeds;
    waits = λ e. try_recv-Waits p outcomes r v at e succeeds;
  }

  try_recv_view-Serves {μ} :
      {R : Type μ} (op : T → R) {k : ℕ} {q : MultiQueue T} {sent : List T} (r : Reader)
      → IsLog k q sent
      → Elem r.pos (readers q)
      → Serves k q sent r op (Recv.try_recv_view p op q r)
  try_recv_view-Serves op r v at = record {
    takes = λ x next. try_recv_view-Took p op r x v at next;
    waits = λ e. (recv_at_end p op false [] r v at e).1;
  }

module _ {ℓ κ} {Task : Type κ} {T : Type ℓ} (p : QueueRw T) (lawful : IsLawful p) where
  -- On a queue that stands for a log, with a lawful policy, for a stream of it and with nobody
  -- else at work, a time round the loop of `poll`, on the receiver for several consumers and on
  -- that for one, takes the next value, moves the stream past it and wakes all parked producers;
  -- or at the end of the log returns `None` if no writer is left; or, if one is, parks the task
  -- when the log is at least as long as the queue; or else, as the cell has never been written,
  -- goes round again with the same state.
  pub polls_lem {μ} :
      {R : Type μ} (op : T → R) (task : Task) (turn : PollTurn Task T)
      (turns : List (PollTurn Task T)) {k : ℕ} {sent : List T} (fq : FutQueue Task T)
      (rx : InnerRecv)
      → IsLog k fq.queue sent
      → Elem rx.reader.pos (readers fq.queue)
      → IsAlone fq.wait turn
      → Turns k fq sent rx task
          (λ x. x)
          (poll_loop (Recv.try_recv p) task (turn ∷ turns) fq rx)
          (poll_loop (Recv.try_recv p) task turns fq)
        × Turns k fq sent rx task op
            (poll_loop (λ _. Recv.try_recv_view p op) task (turn ∷ turns) fq rx)
            (poll_loop (λ _. Recv.try_recv_view p op) task turns fq)
  polls_lem op task turn turns {k} {sent} fq rx v at alone = (
    poll_loop_lem (Recv.try_recv p) (λ x. x) task turn turns sent fq rx v at
        (try_recv-Serves p turn.outcomes rx.reader lawful v at alone.succeeds) alone,
    poll_loop_lem (λ _. Recv.try_recv_view p op) op task turn turns sent fq rx v at
        (try_recv_view-Serves p op rx.reader v at) alone,
  )

  poll_loop-hangs :
      (task : Task) (turns : List (PollTurn Task T)) {k : ℕ} {sent : List T} (fq : FutQueue Task T)
      (rx : InnerRecv)
      → IsLog k fq.queue sent
      → Elem rx.reader.pos (readers fq.queue)
      → All (IsAlone fq.wait) turns
      → (position fq.queue rx.reader.pos).val ≡ length sent
      → length sent < 2 ^ k
      → fq.queue.writers ≢ 0
      → poll_loop (Recv.try_recv p) task turns fq rx ≡ err out_of_steps
  unfolding poll_loop
  poll_loop-hangs task [] fq rx v at alone e first writer = refl
  poll_loop-hangs task (turn ∷ turns) {k} {sent} fq rx v at alone e first writer =
      by_turn (polls_lem (λ x. x) task turn turns fq rx v at alone.0).0 (λ r.
        poll_loop-hangs task turns fq r.handle v (rw r.same_stream at) alone.1 (rw r.same_stream e)
          first writer)
    where
      by_turn :
          Turns k fq sent rx task
            (λ x. x)
            (poll_loop (Recv.try_recv p) task (turn ∷ turns) fq rx)
            (poll_loop (Recv.try_recv p) task turns fq)
          → ((r : Retries k fq sent rx
                (poll_loop (Recv.try_recv p) task (turn ∷ turns) fq rx)
                (poll_loop (Recv.try_recv p) task turns fq))
              → poll_loop (Recv.try_recv p) task turns fq r.handle ≡ err out_of_steps)
          → poll_loop (Recv.try_recv p) task (turn ∷ turns) fq rx ≡ err out_of_steps
      by_turn (inl (x, next, y)) again = absurd (omega (arith, lt_of_get_elem? sent _ x next, e))
      by_turn (inr (inl f)) again = absurd (writer f.writers_left)
      by_turn (inr (inr (inl (round, f)))) again = absurd (omega arith)
      by_turn (inr (inr (inr r))) again = r.continues ∙ again r

  -- On a queue that stands for a log shorter than the queue is long, with a lawful policy, for a
  -- stream at its end, with a writer left and nobody else at work, `poll` of `FutInnerRecv` does
  -- not end in any number of rounds.
  pub poll-hangs :
      (task : Task) (turns : List (PollTurn Task T)) {k : ℕ} {sent : List T} (fq : FutQueue Task T)
      (rx : FutInnerRecv)
      → IsLog k fq.queue sent
      → Elem rx.reader.reader.pos (readers fq.queue)
      → All (IsAlone fq.wait) turns
      → (position fq.queue rx.reader.reader.pos).val ≡ length sent
      → length sent < 2 ^ k
      → fq.queue.writers ≢ 0
      → poll p task turns fq rx ≡ err out_of_steps
  unfolding poll
  poll-hangs task turns fq rx v at alone e first writer =
      let r = examine_signals-Refreshed rx.reader fq.queue in
      let same = Refreshed-position r in
      rw
        (poll_loop-hangs task turns (record fq { queue = examine_signals rx.reader fq.queue })
          rx.reader (Refreshed-IsLog r v) (rw same.1 at) alone (rw same.0 e) first
          (λ z. writer (rw r.only_manager at z)))
        refl

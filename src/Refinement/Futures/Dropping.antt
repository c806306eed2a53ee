-- ===== src/Refinement/Futures/Dropping.antt =====
-- `Drop` of the receivers for futures against the log.
use multiqueue.Prelude.{
  ℕ, ◌<◌, ◌≡◌, ◌≢◌, refl, ap, ◌⊎◌, inl, inr, List, [], ◌++◌, true, false, Result, ok, Fault,
}
use multiqueue.Memory.Frame.{IsWord}
use multiqueue.ReadCursor.Removal.{without}
use multiqueue.MultiQueue.State.{MultiQueue, InnerRecv}
use multiqueue.MultiQueue.Handles
use multiqueue.MultiQueue.Futures.Wait.{FutWait, notify_all}
use multiqueue.MultiQueue.Futures.State.{FutQueue, notify_producers}
use multiqueue.MultiQueue.Futures.Recv.{drop_recv}
use multiqueue.Refinement.Log.{readers, position, IsLog}
use multiqueue.Refinement.Leaving.{do_unsubscribe_lem}
use multiqueue.Refinement.Futures.Waking.{notify-eq-notify_all, relay-zero}

module _ {ℓ κ} {Task : Type κ} {T : Type ℓ} where
  -- A receiver that is gone, with all parked producers woken.
  pub record Dropped (k : ℕ) (fq : FutQueue Task T) (sent : List T) (streams : List ℕ)
      (call : Result Fault (FutQueue Task T)) : Type (ℓ ⊔ κ) where
    pub state : FutQueue Task T
    pub returned : call ≡ ok state
    pub log : IsLog k state.queue sent
    pub positions : position state.queue ≡ position fq.queue
    pub streams_left : readers state.queue ≡ streams
    pub none_parked : state.prod_wait.parked ≡ []
    pub woken : state.woken ≡ fq.woken ++ fq.prod_wait.parked
    pub wait_kept : state.wait ≡ fq.wait

  unsubscribed-Dropped :
      {k : ℕ} {sent : List T} {streams : List ℕ} (fq : FutQueue Task T) (rx : InnerRecv)
      (q : MultiQueue T)
      → rx.alive ≡ true
      → Handles.do_unsubscribe fq.queue rx ≡ ok (q, record rx { alive = false })
      → q.notified ≡ fq.queue.notified
      → IsLog k q sent
      → (position q ≡ position fq.queue) × (readers q ≡ streams)
      → Dropped k fq sent streams (drop_recv fq rx)
  unfolding drop_recv notify_producers notify_all
  unsubscribed-Dropped fq rx q alive returned told log kept = record {
    state = record fq {
      queue = q;
      prod_wait = record (fq.prod_wait) { parked = [] };
      woken = fq.woken ++ fq.prod_wait.parked;
    };
    returned =
        rw (returned, alive, relay-zero fq q told)
          (ap
            (λ (w : FutWait Task × List Task).
              ok (record fq { queue = q; prod_wait = w.0; woken = w.1 }))
            (notify-eq-notify_all fq.prod_wait fq.woken));
    log = log;
    positions = kept.0;
    streams_left = kept.1;
    none_parked = refl;
    woken = refl;
    wait_kept = refl;
  }

  -- On a queue that stands for a log, with no sign that the readers are gone and an allocated
  -- group of streams, to drop a receiver that is alive wakes all parked producers and keeps the
  -- log and the positions; if it was the last consumer of its stream, exactly this stream is
  -- taken out, and otherwise the streams stay.
  pub drop_recv-Dropped :
      {k : ℕ} {sent : List T} (fq : FutQueue Task T) (rx : InnerRecv)
      → IsLog k fq.queue sent
      → IsWord false fq.queue.manager.signal
      → fq.queue.tail.readers < fq.queue.manager.heap.next
      → rx.alive ≡ true
      → ((fq.queue.manager.heap.consumers rx.reader.meta ≡ 1)
          × Dropped k fq sent (without rx.reader.pos (readers fq.queue)) (drop_recv fq rx))
        ⊎ ((fq.queue.manager.heap.consumers rx.reader.meta ≢ 1)
            × Dropped k fq sent (readers fq.queue) (drop_recv fq rx))
  drop_recv-Dropped fq rx v word lt alive = elim (do_unsubscribe_lem fq.queue rx v word lt alive) [
    | inl (one, l) ↦ inl (
      one,
      unsubscribed-Dropped fq rx l.queue alive l.returned l.notified_kept l.log
          (l.positions, l.rest),
    )
    | inr (more, s) ↦ inr (
      more,
      unsubscribed-Dropped fq rx s.queue alive s.returned s.notified_kept s.log
          (s.positions, s.streams),
    )
  ]

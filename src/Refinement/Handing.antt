-- ===== src/Refinement/Handing.antt =====
-- `try_recv` and `try_recv_view` of `InnerRecv` against the log.
use multiqueue.Prelude.{
  ℕ, ◌+◌, ◌%◌, ◌^◌, ◌<◌, ◌≡◌, refl, ap, ◌∙◌, ◌⊎◌, inl, inr, ◌≢◌, List, some, none, arith, Elem,
  All-Elem, length, get_elem?, get_elem?-lt, Bool, true, false, Bool-cases, ◌==◌, Result, ok, err,
  Fault, if◌then◌else◌, ◌>>=◌, dec_lt,
}
use multiqueue.CountedIndex.{CountedIndex}
use multiqueue.MultiQueue.Policy.{QueueRw, IsLawful}
use multiqueue.MultiQueue.State.{MultiQueue, InnerRecv}
use multiqueue.MultiQueue.Recv.{TryRecvError, empty, disconnected, Refusal, Received}
use multiqueue.MultiQueue.Handles
use multiqueue.MultiQueue.Handles.{examine_signals}
use multiqueue.Refinement.Log.{readers, position, InWindow, IsLog}
use multiqueue.Refinement.Taking.{Took}
use multiqueue.Refinement.Loop.{try_recv-Took}
use multiqueue.Refinement.Waiting.{Waits}
use multiqueue.Refinement.Runs.{try_recv-Waits}
use multiqueue.Refinement.Signals.{
  Refreshed, examine_signals-Refreshed, Refreshed-IsLog, Refreshed-position,
}

module _ {ℓ} {T : Type ℓ} where
  -- A call of a handle that has taken the value x off its stream.
  pub record Gets {κ} {R : Type κ} (k : ℕ) (q : MultiQueue T) (sent : List T) (rx : InnerRecv)
      (x : R) (call : Result Fault (MultiQueue T × InnerRecv × Result TryRecvError R))
      : Type (ℓ ⊔ κ) where
    pub queue : MultiQueue T
    pub handle : InnerRecv
    pub returned : call ≡ ok (queue, handle, ok x)
    pub log : IsLog k queue sent
    pub same_stream : handle.reader.pos ≡ rx.reader.pos
    pub moved : (position queue rx.reader.pos).val ≡ (position q rx.reader.pos).val + 1
    pub others : (s : ℕ) → rx.reader.pos ≢ s → position queue s ≡ position q s
    pub readers_kept : readers queue ≡ readers q

  -- One that has found nothing.
  pub record Misses {κ} {R : Type κ} (k : ℕ) (q : MultiQueue T) (sent : List T) (rx : InnerRecv)
      (call : Result Fault (MultiQueue T × InnerRecv × Result TryRecvError R)) : Type (ℓ ⊔ κ) where
    pub queue : MultiQueue T
    pub handle : InnerRecv
    pub all_read : (position q rx.reader.pos).val ≡ length sent
    pub returned : call ≡ ok (queue, handle, err (if q.writers == 0 then disconnected else empty))
    pub log : IsLog k queue sent
    pub same_stream : handle.reader.pos ≡ rx.reader.pos
    pub streams_kept : (position queue ≡ position q) × (readers queue ≡ readers q)

  -- What the handle makes of a result of the queue.
  abbrev told {κ} :
      {R : Type κ} → InnerRecv → Received T R → MultiQueue T × InnerRecv × Result TryRecvError R
  told rx (q, reader, result) = (
    q,
    record rx { reader = reader },
    elim result [ ok v ↦ ok v | err refusal ↦ err (refusal.1) ],
  )

  told-Gets {κ} :
      {R : Type κ} {k : ℕ} {q q1 : MultiQueue T} {sent : List T} (rx : InnerRecv) (x : R)
      (call : Result Fault (Received T R))
      → Refreshed q q1
      → Took k q1 sent rx.reader x call
      → Gets k q sent rx x (call >>= λ r. ok (told rx r))
  told-Gets {q} {q1} rx x call r t = record {
    queue = t.queue;
    handle = record rx { reader = t.reader };
    returned = rw t.returned refl;
    log = t.log;
    same_stream = t.same_stream;
    moved = rw t.moved (ap (λ (f : ℕ → CountedIndex). (f rx.reader.pos).val + 1) same.0);
    others = λ s ne. t.keeps.others s ne ∙ ap (λ (f : ℕ → CountedIndex). f s) same.0;
    readers_kept = t.keeps.readers_kept ∙ same.1;
  }
    where
      same : (position q1 ≡ position q) × (readers q1 ≡ readers q)
      same = Refreshed-position r

  told-Misses {κ} :
      {R : Type κ} {k : ℕ} {q q1 : MultiQueue T} {sent : List T} (rx : InnerRecv)
      (call : Result Fault (Received T R))
      → Refreshed q q1
      → IsLog k q1 sent
      → (position q1 rx.reader.pos).val ≡ length sent
      → Waits k q1 (length sent) rx.reader call
      → Misses k q sent rx (call >>= λ r. ok (told rx r))
  told-Misses {k} {q} {q1} {sent} rx call r v at_end w = record {
    queue = q1;
    handle = record rx { reader = w.reader };
    all_read = rw same.0 at at_end;
    returned = rw w.returned (
        ap (λ (e : TryRecvError). ok (q1, record rx { reader = w.reader }, err e))
          (reason (Bool-cases (q1.writers == 0))));
    log = v;
    same_stream = w.same_stream;
    streams_kept = same;
  }
    where
      same : (position q1 ≡ position q) × (readers q1 ≡ readers q)
      same = Refreshed-position r

      reason :
          ((q1.writers == 0) ≡ true) ⊎ ((q1.writers == 0) ≡ false)
          → (if◌then◌else◌ {A = Refusal}
              (q1.writers == 0)
              (none, disconnected)
              (some (length sent % 2 ^ k), empty)).1
            ≡ (if q.writers == 0 then disconnected else empty)
      reason (inl e) = rw (← ap (λ (s : MultiQueue T). s.writers) r.only_manager, e) refl
      reason (inr e) = rw (← ap (λ (s : MultiQueue T). s.writers) r.only_manager, e) refl

  module _ (p : QueueRw T) where
    -- On a queue that stands for a log, with a lawful policy, for a handle on a stream of it,
    -- `try_recv` of `InnerRecv` returns the next value and moves this stream alone past it; or at
    -- the end of the log leaves the streams alone and returns `Disconnected` if no writer is left
    -- and otherwise `Empty`; as soon as one of its compare-exchanges does not fail for no reason.
    pub try_recv_lem :
        (outcomes : List Bool) {k : ℕ} {q : MultiQueue T} {sent : List T} (rx : InnerRecv)
        → IsLawful p
        → IsLog k q sent
        → Elem rx.reader.pos (readers q)
        → Elem false outcomes
        → ((x : T) × (get_elem? sent (position q rx.reader.pos).val ≡ some x)
            × Gets k q sent rx x (Handles.try_recv p outcomes q rx))
          ⊎ Misses k q sent rx (Handles.try_recv p outcomes q rx)
    unfolding Handles.try_recv
    try_recv_lem outcomes {k} {q} {sent} rx lawful v at succeeds =
        elim (dec_lt (position q rx.reader.pos).val (length sent)) [
          | yes ready ↦
              let (x, next) = get_elem?-lt sent (position q rx.reader.pos).val ready in
              inl (
                x,
                next,
                told-Gets rx x _ r
                    (try_recv-Took p outcomes rx.reader x lawful v1 at1 (rw same.0 next) succeeds),
              )
          | no at_end ↦ inr (
              told-Misses rx _ r v1 (all_read at_end)
                (try_recv-Waits p outcomes rx.reader v1 at1 (all_read at_end) succeeds))
        ]
      where
        r : Refreshed q (examine_signals rx q)
        r = examine_signals-Refreshed rx q

        same :
            (position (examine_signals rx q) ≡ position q)
            × (readers (examine_signals rx q) ≡ readers q)
        same = Refreshed-position r

        v1 : IsLog k (examine_signals rx q) sent
        v1 = Refreshed-IsLog r v

        at1 : Elem rx.reader.pos (readers (examine_signals rx q))
        at1 = rw same.1 at

        window : InWindow (2 ^ k) (length sent) (position (examine_signals rx q) rx.reader.pos)
        window =
            All-Elem (λ s. InWindow (2 ^ k) (length sent) (position (examine_signals rx q) s))
              rx.reader.pos (readers (examine_signals rx q)) v1.streams at1

        all_read :
            ¬ ((position q rx.reader.pos).val < length sent)
            → (position (examine_signals rx q) rx.reader.pos).val ≡ length sent
        all_read at_end = rw same.0 (omega (arith, (rw same.0 at window).1))

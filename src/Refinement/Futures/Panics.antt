-- ===== src/Refinement/Futures/Panics.antt =====
-- `recv` of `FutInnerRecv` against the log.
use multiqueue.Prelude.{
  ℕ, ◌+◌, ◌^◌, ◌≡◌, refl, ap, ◌∙◌, ◌≢◌, ◌⊎◌, inl, inr, List, some, arith, Elem, All-Elem, length,
  get_elem?, get_elem?-lt, Bool, true, false, Bool-cases, ◌==◌, ==_iff, dec_lt, Result, ok, err,
  Fault, wait_called,
}
use multiqueue.MultiQueue.Policy.{QueueRw, IsLawful}
use multiqueue.MultiQueue.State.{MultiQueue}
use multiqueue.MultiQueue.Handles.{examine_signals}
use multiqueue.MultiQueue.Blocking.{RecvError, recv_error}
use multiqueue.MultiQueue.Futures.State.{FutQueue, FutInnerRecv, relay}
use multiqueue.MultiQueue.Futures.Recv.{recv_or_panic, recv}
use multiqueue.Refinement.Log.{readers, position, InWindow, IsLog}
use multiqueue.Refinement.Loop.{try_recv-Took}
use multiqueue.Refinement.Runs.{try_recv-Waits}
use multiqueue.Refinement.Signals.{
  Refreshed, examine_signals-Refreshed, Refreshed-IsLog, Refreshed-position,
}
use multiqueue.Refinement.Futures.Waking.{relay-zero}

module _ {ℓ κ} {Task : Type κ} {T : Type ℓ} where
  -- A call that has taken the value x; it has woken nobody.
  pub record Receives (k : ℕ) (fq : FutQueue Task T) (sent : List T) (rx : FutInnerRecv) (x : T)
      (call : Result Fault (FutQueue Task T × FutInnerRecv × Result RecvError T))
      : Type (ℓ ⊔ κ) where
    pub state : FutQueue Task T
    pub handle : FutInnerRecv
    pub returned : call ≡ ok (state, handle, ok x)
    pub log : IsLog k state.queue sent
    pub moved :
        (position state.queue rx.reader.reader.pos).val
        ≡ (position fq.queue rx.reader.reader.pos).val + 1
    pub prod_kept : state.prod_wait ≡ fq.prod_wait
    pub woken_kept : state.woken ≡ fq.woken

  module _ (p : QueueRw T) where
    -- On a queue that stands for a log, with a lawful policy, for a stream of it and where one of
    -- the compare-exchanges does not fail for no reason, `recv` of `FutInnerRecv` returns the
    -- next value and wakes nobody; or at the end of the log returns an error if no writer is
    -- left, and panics if one is.
    pub recv_lem :
        (outcomes : List Bool) {k : ℕ} {sent : List T} (fq : FutQueue Task T) (rx : FutInnerRecv)
        → IsLawful p
        → IsLog k fq.queue sent
        → Elem rx.reader.reader.pos (readers fq.queue)
        → Elem false outcomes
        → ((x : T) × (get_elem? sent (position fq.queue rx.reader.reader.pos).val ≡ some x)
            × Receives k fq sent rx x (recv p outcomes fq rx))
          ⊎ (((position fq.queue rx.reader.reader.pos).val ≡ length sent)
              × (fq.queue.writers ≡ 0)
              × ((state : FutQueue Task T) × (handle : FutInnerRecv) × (recv p outcomes fq rx
                    ≡ ok (state, handle, err recv_error))))
          ⊎ (((position fq.queue rx.reader.reader.pos).val ≡ length sent)
              × (fq.queue.writers ≢ 0)
              × (recv p outcomes fq rx ≡ err wait_called))
    unfolding recv recv_or_panic
    recv_lem outcomes {k} {sent} fq rx lawful v at succeeds =
        elim (dec_lt (position fq.queue rx.reader.reader.pos).val (length sent)) [
          | yes before ↦
              let (x, next) =
                get_elem?-lt sent (position fq.queue rx.reader.reader.pos).val before in
              let t =
                try_recv-Took p outcomes rx.reader.reader x lawful v1 at1 (rw same.0 next)
                  succeeds in
              inl (
                x,
                next,
                record {
                  state = record fq { queue = t.queue };
                  handle = record { reader = record (rx.reader) { reader = t.reader } };
                  returned =
                      rw (t.returned, relay-zero fq t.queue (t.keeps.notified_kept ∙ as_told)) refl;
                  log = t.log;
                  moved = rw (t.moved, same.0) refl;
                  prod_kept = refl;
                  woken_kept = refl;
                },
              )
          | no at_end ↦
              inr (at_end_of_log (omega (arith, window)) (Bool-cases (fq.queue.writers == 0)))
        ]
      where
        examined : MultiQueue T
        examined = examine_signals rx.reader fq.queue

        r : Refreshed fq.queue examined
        r = examine_signals-Refreshed rx.reader fq.queue

        same : (position examined ≡ position fq.queue) × (readers examined ≡ readers fq.queue)
        same = Refreshed-position r

        v1 : IsLog k examined sent
        v1 = Refreshed-IsLog r v

        at1 : Elem rx.reader.reader.pos (readers examined)
        at1 = rw same.1 at

        as_told : examined.notified ≡ fq.queue.notified
        as_told = ap (λ (q : MultiQueue T). q.notified) r.only_manager

        counted : examined.writers ≡ fq.queue.writers
        counted = ap (λ (q : MultiQueue T). q.writers) r.only_manager

        window : InWindow (2 ^ k) (length sent) (position fq.queue rx.reader.reader.pos)
        window =
            All-Elem (λ s. InWindow (2 ^ k) (length sent) (position fq.queue s))
              rx.reader.reader.pos (readers fq.queue) v.streams at

        at_end_of_log :
            (position fq.queue rx.reader.reader.pos).val ≡ length sent
            → ((fq.queue.writers == 0) ≡ true) ⊎ ((fq.queue.writers == 0) ≡ false)
            → (((position fq.queue rx.reader.reader.pos).val ≡ length sent)
                × (fq.queue.writers ≡ 0)
                × ((state : FutQueue Task T) × (handle : FutInnerRecv) × (recv p outcomes fq rx
                      ≡ ok (state, handle, err recv_error))))
              ⊎ (((position fq.queue rx.reader.reader.pos).val ≡ length sent)
                  × (fq.queue.writers ≢ 0)
                  × (recv p outcomes fq rx ≡ err wait_called))
        at_end_of_log e (inl none_left) =
            let w = try_recv-Waits p outcomes rx.reader.reader v1 at1 (rw same.0 e) succeeds in
            inl (
              e,
              (==_iff fq.queue.writers 0).0 none_left,
              (
                relay fq examined,
                record { reader = record (rx.reader) { reader = w.reader } },
                rw (w.returned, counted, none_left) refl,
              ),
            )
        at_end_of_log e (inr some_left) =
            let w = try_recv-Waits p outcomes rx.reader.reader v1 at1 (rw same.0 e) succeeds in
            inr (e, (λ z. ground arith), rw (w.returned, counted, some_left) refl)

-- ===== src/Refinement/Futures/Polling.antt =====
-- The loop of `poll`, with no other thread at work during the call.
use multiqueue.Prelude.{
  ℕ, ◌+◌, ◌%◌, ◌^◌, ◌≤◌, ◌<◌, ◌≡◌, refl, ◌≢◌, ◌⊎◌, inl, inr, List, [], ◌∷◌, ◌++◌, Option, some,
  none, arith, All, Elem, All-Elem, length, get_elem?, get_elem?-lt, Bool, true, false, Bool-cases,
  ◌==◌, ==_iff, Result, ok, Fault, if◌then◌else◌, dec_lt,
}
use native.Mathlib.Decide.{dec_le}
use multiqueue.Wait.{check}
use multiqueue.ReadCursor.Attempt.{Reader}
use multiqueue.MultiQueue.State.{MultiQueue, InnerRecv}
use multiqueue.MultiQueue.Recv.{Received}
use multiqueue.MultiQueue.Futures.Wait.{FutWait, push, notify_all}
use multiqueue.MultiQueue.Futures.State.{FutQueue, notify_all_producers, sight_of}
use multiqueue.MultiQueue.Futures.Recv.{Async, ready, not_ready, deref, PollTurn, poll_loop}
use multiqueue.Refinement.Log.{readers, position, InWindow, IsLog}
use multiqueue.Refinement.Taking.{Took}
use multiqueue.Refinement.Waiting.{Waits}
use multiqueue.Refinement.Futures.Waking.{relay-zero}
use multiqueue.Refinement.Futures.Parking.{IsStill, fut_wait_lem, check_written, check_unwritten}

-- What a `poll` can come to.
abbrev pub Polled {ℓ κ μ} : Type κ → Type ℓ → Type μ → Type (ℓ ⊔ κ ⊔ μ)
Polled Task T R = Result Fault (FutQueue Task T × InnerRecv × Async (Option R))

module _ {ℓ κ} {Task : Type κ} {T : Type ℓ} where
  -- A time round the loop in which nobody else does anything.
  pub record IsAlone (w : FutWait Task) (turn : PollTurn Task T) : Type (ℓ ⊔ κ) where
    pub succeeds : Elem false turn.outcomes
    pub still : All IsStill turn.changes
    pub enough : w.spins_first + w.spins_yield < length turn.changes

module _ {ℓ μ} {T : Type ℓ} {R : Type μ} where
  -- A try that serves its stream.
  pub record Serves (k : ℕ) (q : MultiQueue T) (sent : List T) (r : Reader) (op : T → R)
      (tried : Result Fault (Received T R)) : Type (ℓ ⊔ μ) where
    pub takes :
        (x : T) → get_elem? sent (position q r.pos).val ≡ some x → Took k q sent r (op x) tried
    pub waits : (position q r.pos).val ≡ length sent → Waits k q (length sent) r tried

module _ {ℓ κ μ} {Task : Type κ} {T : Type ℓ} {R : Type μ} where
  -- A poll that has taken the value x, and has woken all parked producers.
  pub record Yields (k : ℕ) (fq : FutQueue Task T) (sent : List T) (rx : InnerRecv) (x : R)
      (call : Polled Task T R) : Type (ℓ ⊔ κ ⊔ μ) where
    pub state : FutQueue Task T
    pub handle : InnerRecv
    pub returned : call ≡ ok (state, handle, ready (some x))
    pub log : IsLog k state.queue sent
    pub moved : (position state.queue rx.reader.pos).val ≡ (position fq.queue rx.reader.pos).val + 1
    pub none_parked : state.prod_wait.parked ≡ []
    pub woken : state.woken ≡ fq.woken ++ fq.prod_wait.parked

  -- One that has found nothing, and what it has read.
  pub record Finds (fq : FutQueue Task T) (sent : List T) (rx : InnerRecv) (writers : Type 0)
      (call : Polled Task T R) (state : FutQueue Task T) (result : Async (Option R))
      : Type (ℓ ⊔ κ ⊔ μ) where
    pub writers_left : writers
    pub all_read : (position fq.queue rx.reader.pos).val ≡ length sent
    pub handle : InnerRecv
    pub returned : call ≡ ok (state, handle, result)

  -- One that goes round again: the cell that it waits for has never been written.
  pub record Retries (k : ℕ) (fq : FutQueue Task T) (sent : List T) (rx : InnerRecv)
      (call : Polled Task T R) (rest : InnerRecv → Polled Task T R) : Type (ℓ ⊔ κ ⊔ μ) where
    pub writer : fq.queue.writers ≢ 0
    pub all_read : (position fq.queue rx.reader.pos).val ≡ length sent
    pub unwritten : length sent < 2 ^ k
    pub handle : InnerRecv
    pub same_stream : handle.reader.pos ≡ rx.reader.pos
    pub continues : call ≡ rest handle

  -- What the loop can come to, once round.
  abbrev pub Turns :
      ℕ
      → FutQueue Task T
      → List T
      → InnerRecv
      → Task
      → (T → R)
      → Polled Task T R
      → (InnerRecv → Polled Task T R)
      → Type (ℓ ⊔ κ ⊔ μ)
  Turns k fq sent rx task op call rest =
      ((x : T) × (get_elem? sent (position fq.queue rx.reader.pos).val ≡ some x)
        × Yields k fq sent rx (op x) call)
      ⊎ Finds fq sent rx (fq.queue.writers ≡ 0) call fq (ready none)
      ⊎ ((2 ^ k ≤ length sent)
          × Finds fq sent rx (fq.queue.writers ≢ 0) call (record fq { wait = push task fq.wait })
              not_ready)
      ⊎ Retries k fq sent rx call rest

  module _ (try_once : List Bool → MultiQueue T → Reader → Result Fault (Received T R)) (op : T → R)
      (task : Task) (turn : PollTurn Task T) (turns : List (PollTurn Task T)) {k : ℕ}
      (sent : List T) (fq : FutQueue Task T) (rx : InnerRecv) where
    takes-Yields :
        (x : T)
        → Took k fq.queue sent rx.reader (op x) (try_once turn.outcomes fq.queue rx.reader)
        → Yields k fq sent rx (op x) (poll_loop try_once task (turn ∷ turns) fq rx)
    unfolding poll_loop notify_all_producers notify_all
    takes-Yields x t = record {
      state = notify_all_producers (record fq { queue = t.queue });
      handle = record rx { reader = t.reader };
      returned = rw (t.returned, relay-zero fq t.queue t.keeps.notified_kept) refl;
      log = t.log;
      moved = rw t.moved refl;
      none_parked = refl;
      woken = refl;
    }

    no_writer-Finds :
        (position fq.queue rx.reader.pos).val ≡ length sent
        → fq.queue.writers ≡ 0
        → Waits k fq.queue (length sent) rx.reader (try_once turn.outcomes fq.queue rx.reader)
        → Finds fq sent rx
            (fq.queue.writers ≡ 0)
            (poll_loop try_once task (turn ∷ turns) fq rx)
            fq
            (ready none)
    unfolding poll_loop
    no_writer-Finds all_read e w = record {
      writers_left = e;
      all_read = all_read;
      handle = record rx { reader = w.reader };
      returned = rw (w.returned, (==_iff fq.queue.writers 0).1 e, relay-zero fq fq.queue refl) refl;
    }

    -- With writers left, the wait for the cell decides.
    module _ (writer : (fq.queue.writers == 0) ≡ false) (alone : IsAlone fq.wait turn)
        (all_read : (position fq.queue rx.reader.pos).val ≡ length sent)
        (w : Waits k fq.queue
          (length sent)
          rx.reader
          (try_once turn.outcomes fq.queue rx.reader)) where
      waits_lem :
          (passes : Bool)
          → check (length sent) (sight_of fq (length sent % 2 ^ k)) ≡ passes
          → poll_loop try_once task (turn ∷ turns) fq rx ≡ (
              if passes
              then poll_loop try_once task turns fq (record rx { reader = w.reader })
              else ok (
                record fq { wait = push task fq.wait },
                record rx { reader = w.reader },
                not_ready,
              ))
      unfolding poll_loop deref
      waits_lem true e =
          rw
            (
              w.returned,
              writer,
              relay-zero fq fq.queue refl,
              w.same_stream,
              all_read,
              fut_wait_lem task (length sent) (length sent % 2 ^ k) turn.changes fq alone.still
                  alone.enough,
              e,
            )
            refl
      waits_lem false e =
          rw
            (
              w.returned,
              writer,
              relay-zero fq fq.queue refl,
              w.same_stream,
              all_read,
              fut_wait_lem task (length sent) (length sent % 2 ^ k) turn.changes fq alone.still
                  alone.enough,
              e,
            )
            refl

    pub poll_loop_lem :
        IsLog k fq.queue sent
        → Elem rx.reader.pos (readers fq.queue)
        → Serves k fq.queue sent rx.reader op (try_once turn.outcomes fq.queue rx.reader)
        → IsAlone fq.wait turn
        → Turns k fq sent rx task op
            (poll_loop try_once task (turn ∷ turns) fq rx)
            (poll_loop try_once task turns fq)
    poll_loop_lem v at serves alone =
        elim (dec_lt (position fq.queue rx.reader.pos).val (length sent)) [
          | yes before ↦
              let (x, next) = get_elem?-lt sent (position fq.queue rx.reader.pos).val before in
              inl (x, next, takes-Yields x (serves.takes x next))
          | no at_end ↦
              inr (found_nothing (omega (arith, window)) (Bool-cases (fq.queue.writers == 0)))
        ]
      where
        window : InWindow (2 ^ k) (length sent) (position fq.queue rx.reader.pos)
        window =
            All-Elem (λ s. InWindow (2 ^ k) (length sent) (position fq.queue s)) rx.reader.pos
              (readers fq.queue) v.streams at

        found_nothing :
            (position fq.queue rx.reader.pos).val ≡ length sent
            → ((fq.queue.writers == 0) ≡ true) ⊎ ((fq.queue.writers == 0) ≡ false)
            → Finds fq sent rx
                (fq.queue.writers ≡ 0)
                (poll_loop try_once task (turn ∷ turns) fq rx)
                fq
                (ready none)
              ⊎ ((2 ^ k ≤ length sent)
                  × Finds fq sent rx
                      (fq.queue.writers ≢ 0)
                      (poll_loop try_once task (turn ∷ turns) fq rx)
                      (record fq { wait = push task fq.wait })
                      not_ready)
              ⊎ Retries k fq sent rx
                  (poll_loop try_once task (turn ∷ turns) fq rx)
                  (poll_loop try_once task turns fq)
        found_nothing all_read (inl e) =
            inl (no_writer-Finds all_read ((==_iff fq.queue.writers 0).0 e) (serves.waits all_read))
        found_nothing all_read (inr e) =
            let w = serves.waits all_read in
            elim (dec_le (2 ^ k) (length sent)) [
              | yes round ↦ inr (
                  inl (
                    round,
                    record {
                      writers_left = λ z. ground arith;
                      all_read = all_read;
                      handle = record rx { reader = w.reader };
                      returned =
                          waits_lem e alone all_read w false
                            (check_written fq v (λ z. ground arith) round);
                    },
                  ))
              | no first ↦ inr (
                  inr (record {
                    writer = λ z. ground arith;
                    all_read = all_read;
                    unwritten = omega arith;
                    handle = record rx { reader = w.reader };
                    same_stream = w.same_stream;
                    continues =
                        waits_lem e alone all_read w true (check_unwritten fq v (omega arith));
                  }))
            ]

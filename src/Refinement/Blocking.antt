-- ===== src/Refinement/Blocking.antt =====
-- The loop of `recv` against the log.
use multiqueue.Prelude.{
  ℕ, ◌+◌, ◌%◌, ◌^◌, ◌>>=◌, ◌≡◌, refl, ◌≢◌, ◌⊎◌, inl, inr, List, ◌∷◌, some, arith, Elem, All-Elem,
  length, get_elem?, get_elem?-lt, false, ◌==◌, ==_iff, Bool-cases, ok, err, dec_lt,
}
use multiqueue.MultiQueue.Policy.{QueueRw, IsLawful}
use multiqueue.MultiQueue.State.{MultiQueue, InnerRecv}
use multiqueue.MultiQueue.Recv.{try_recv}
use multiqueue.MultiQueue.Blocking.{
  Turn, Waiter, Handled, RecvError, recv_error, wait_on, recv_loop,
}
use multiqueue.Refinement.Log.{readers, position, InWindow, IsLog}
use multiqueue.Refinement.Loop.{try_recv-Took}
use multiqueue.Refinement.Runs.{try_recv-Waits}

-- The three ways that a time round the loop can go.
pub record Returns {ℓ} {T : Type ℓ} (k : ℕ) (q : MultiQueue T) (sent : List T) (rx : InnerRecv)
    (call : Handled T RecvError T) : Type ℓ where
  pub val : T
  pub next : get_elem? sent (position q rx.reader.pos).val ≡ some val
  pub queue : MultiQueue T
  pub handle : InnerRecv
  pub returned : call ≡ ok (queue, handle, ok val)
  pub log : IsLog k queue sent
  pub moved : (position queue rx.reader.pos).val ≡ (position q rx.reader.pos).val + 1

pub record Ends {ℓ} {T : Type ℓ} (q : MultiQueue T) (sent : List T) (rx : InnerRecv)
    (call : Handled T RecvError T) : Type ℓ where
  pub no_writer : q.writers ≡ 0
  pub all_read : (position q rx.reader.pos).val ≡ length sent
  pub handle : InnerRecv
  pub returned : call ≡ ok (q, handle, err recv_error)

pub record GoesOn {ℓ} {T : Type ℓ} (q : MultiQueue T) (sent : List T) (rx : InnerRecv)
    (call : Handled T RecvError T) (rest : InnerRecv → Handled T RecvError T) : Type ℓ where
  pub writer : q.writers ≢ 0
  pub all_read : (position q rx.reader.pos).val ≡ length sent
  pub handle : InnerRecv
  pub same_stream : handle.reader.pos ≡ rx.reader.pos
  pub continues : call ≡ rest handle

module _ {ℓ} {T : Type ℓ} (p : QueueRw T) where
  -- On a queue that stands for a log, with a lawful policy, and for a stream of it, where one of
  -- the compare-exchanges of the first try does not fail for no reason, the loop of `recv`
  -- returns the next value and has moved the stream past it; or the stream is at the end of the
  -- log and no writer is left, and it returns an error and leaves the queue as it was; or it is
  -- at the end with a writer left, and the loop waits for the next count on the next cell, and
  -- goes on with the queue that the last check has seen.
  pub recv_loop_lem :
      (wait : Waiter) (turn : Turn T) (turns : List (Turn T)) {k : ℕ} {q : MultiQueue T}
      {sent : List T} (rx : InnerRecv)
      → IsLawful p
      → IsLog k q sent
      → Elem rx.reader.pos (readers q)
      → Elem false turn.outcomes
      → Returns k q sent rx (recv_loop (try_recv p) wait (turn ∷ turns) q rx)
        ⊎ Ends q sent rx (recv_loop (try_recv p) wait (turn ∷ turns) q rx)
        ⊎ GoesOn q sent rx (recv_loop (try_recv p) wait (turn ∷ turns) q rx) (λ handle.
          wait_on wait (length sent) (length sent % 2 ^ k) turn.meanwhile q >>= λ q'.
          recv_loop (try_recv p) wait turns q' handle)
  unfolding recv_loop
  recv_loop_lem wait turn turns {k} {q} {sent} rx lawful v at succeeds =
      elim (dec_lt (position q rx.reader.pos).val (length sent)) [
        | yes ready ↦
            let (x, next) = get_elem?-lt sent (position q rx.reader.pos).val ready in
            let t = try_recv-Took p turn.outcomes rx.reader x lawful v at next succeeds in
            inl (record {
              val = x;
              next = next;
              queue = t.queue;
              handle = record rx { reader = t.reader };
              returned = rw t.returned refl;
              log = t.log;
              moved = rw t.moved refl;
            })
        | no at_end ↦ inr (waits (omega (arith, window)))
      ]
    where
      window : InWindow (2 ^ k) (length sent) (position q rx.reader.pos)
      window =
          All-Elem (λ s. InWindow (2 ^ k) (length sent) (position q s)) rx.reader.pos (readers q)
            v.streams at

      waits :
          (position q rx.reader.pos).val ≡ length sent
          → Ends q sent rx (recv_loop (try_recv p) wait (turn ∷ turns) q rx)
            ⊎ GoesOn q sent rx (recv_loop (try_recv p) wait (turn ∷ turns) q rx) (λ handle.
              wait_on wait (length sent) (length sent % 2 ^ k) turn.meanwhile q >>= λ q'.
              recv_loop (try_recv p) wait turns q' handle)
      waits all_read =
          let w = try_recv-Waits p turn.outcomes rx.reader v at all_read succeeds in
          elim (Bool-cases (q.writers == 0)) [
            | inl e ↦ inl (record {
              no_writer = (==_iff q.writers 0).0 e;
              all_read = all_read;
              handle = record rx { reader = w.reader };
              returned = rw (w.returned, e) refl;
            })
            | inr e ↦ inr (record {
              writer = λ z. ground arith;
              all_read = all_read;
              handle = record rx { reader = w.reader };
              same_stream = w.same_stream;
              continues = rw (w.returned, e, w.same_stream, all_read) refl;
            })
          ]

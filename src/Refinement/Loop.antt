-- ===== src/Refinement/Loop.antt =====
-- The loop of `try_recv` against the log, with no other receiver at work.
use native.Mathlib.Nat.{mod-lt}
use multiqueue.Prelude.{
  ℕ, ◌^◌, ◌≡◌, refl, ◌∙◌, ◌⊎◌, inl, inr, List, [], ◌∷◌, some, arith, Elem, All-Elem, length,
  get_elem?, lt_of_get_elem?, Bool, true, false, Result, Fault, subst,
}
use multiqueue.CountedIndex
use multiqueue.CountedIndex.{CountedIndex, Transaction, rm_tag}
use multiqueue.ReadCursor.Attempt
use multiqueue.ReadCursor.Attempt.{Reader, ReaderState, single, multi, ReadAttempt}
use multiqueue.Heap.{update_self, update_ne}
use multiqueue.MultiQueue.Policy.{QueueRw, IsLawful}
use multiqueue.MultiQueue.State.{MultiQueue}
use multiqueue.MultiQueue.Recv.{Received, settle, recv_from, try_recv}
use multiqueue.Refinement.Log.{readers, position, InWindow, IsIdle, IsLog, pow_bounds}
use multiqueue.Refinement.Receiving.{moved-IsLog}
use multiqueue.Refinement.Taking.{Took, attempt_of, store_next, stepped-IsLog, load_attempt_lem}
use multiqueue.Refinement.Rounds.{
  refs_after, refs_after-IsIdle, commit_attempt_done, commit_attempt_again, round_ready,
  ReaderState-cases, cell_of, again,
}

module _ {ℓ} {T : Type ℓ} (p : QueueRw T) where
  module _ (is_single : Bool) (r : Reader) (x : T) {k : ℕ} {sent : List T}
      (lawful : IsLawful p) where
    refs-IsIdle :
        {q : MultiQueue T}
        → IsLog k q sent
        → IsIdle (2 ^ k) (refs_after p is_single q.refs (cell_of p k r q))
    refs-IsIdle {q} v =
        refs_after-IsIdle p (2 ^ k) is_single q.refs (cell_of p k r q) lawful
          (mod-lt (position q r.pos).val (pow_bounds k v.small).0) v.idle

    -- The round that takes the value.
    recv_from-done :
        (weak : Bool) (outcomes : List Bool) {q : MultiQueue T}
        → IsLog k q sent
        → InWindow (2 ^ k) (length sent) (position q r.pos)
        → get_elem? sent (position q r.pos).val ≡ some x
        → (r.state ≡ single) ⊎ (weak ≡ false)
        → Took k q sent r x (recv_from p is_single (weak ∷ outcomes) q r (attempt_of q r))
    unfolding recv_from settle
    recv_from-done weak outcomes {q} v w next done = record {
      queue = _;
      reader = r;
      returned =
          rw
            (
              round_ready p is_single weak r x lawful v w next,
              commit_attempt_done p q r weak done,
              store_next r v w,
            )
            refl;
      log =
          stepped-IsLog (refs_after p is_single q.refs (cell_of p k r q)) q.dropped r.pos v
            (refs-IsIdle v) w (lt_of_get_elem? sent _ x next);
      same_stream = refl;
      moved = update_self (position q) r.pos _;
      keeps = record {
        others = λ s ne. update_ne (position q) r.pos s _ ne;
        readers_kept = refl;
        cells_kept = refl;
        head_kept = refl;
        writers_kept = refl;
        notified_kept = refl;
      };
    }

    -- The round whose commit fails goes on from a queue that stands for the same log.
    recv_from-again :
        (outcomes : List Bool) {q : MultiQueue T}
        → IsLog k q sent
        → InWindow (2 ^ k) (length sent) (position q r.pos)
        → get_elem? sent (position q r.pos).val ≡ some x
        → r.state ≡ multi
        → recv_from p is_single (true ∷ outcomes) q r (attempt_of q r)
          ≡ recv_from p is_single outcomes (again p is_single k r q) r (attempt_of q r)
    unfolding recv_from settle
    recv_from-again outcomes {q} v w next e =
        rw (round_ready p is_single true r x lawful v w next, commit_attempt_again p q r e) refl

    again-IsLog :
        {q : MultiQueue T}
        → IsLog k q sent
        → InWindow (2 ^ k) (length sent) (position q r.pos)
        → IsLog k (again p is_single k r q) sent
    again-IsLog {q} v w =
        moved-IsLog (refs_after p is_single q.refs (cell_of p k r q)) q.dropped r.pos _ v
          (refs-IsIdle v) (w.0, omega arith, w.1)

    Took-again :
        {q : MultiQueue T} {result : Result Fault (Received T T)}
        → Took k (again p is_single k r q) sent r x result
        → Took k q sent r x result
    Took-again {q} t = record {
      queue = t.queue;
      reader = t.reader;
      returned = t.returned;
      log = t.log;
      same_stream = t.same_stream;
      moved = rw (update_self (position q) r.pos (position q r.pos)) at t.moved;
      keeps = record {
        others = λ s ne. t.keeps.others s ne ∙ update_ne (position q) r.pos s _ ne;
        readers_kept = t.keeps.readers_kept;
        cells_kept = t.keeps.cells_kept;
        head_kept = t.keeps.head_kept;
        writers_kept = t.keeps.writers_kept;
        notified_kept = t.keeps.notified_kept;
      };
    }

    -- The loop ends at the first commit that does not fail for no reason.
    pub recv_from-Took :
        (outcomes : List Bool) {q : MultiQueue T}
        → IsLog k q sent
        → InWindow (2 ^ k) (length sent) (position q r.pos)
        → get_elem? sent (position q r.pos).val ≡ some x
        → Elem false outcomes
        → Took k q sent r x (recv_from p is_single outcomes q r (attempt_of q r))
    recv_from-Took [] v w next at = absurd at
    recv_from-Took (false ∷ outcomes) v w next at =
        recv_from-done false outcomes v w next (inr refl)
    recv_from-Took (true ∷ outcomes) {q} v w next at =
        by_state (ReaderState-cases r.state) at
          (λ at'. recv_from-Took outcomes (again-IsLog v w) (rw same w) (rw same next) at')
      where
        same : position (again p is_single k r q) r.pos ≡ position q r.pos
        same = update_self (position q) r.pos (position q r.pos)

        onward : CountedIndex → Type ℓ
        onward c = Took k (again p is_single k r q) sent r x (
            recv_from p is_single outcomes (again p is_single k r q) r
              (record { linked = CountedIndex.load_transaction c; state = r.state }))

        by_state :
            (r.state ≡ single) ⊎ (r.state ≡ multi)
            → Elem false (true ∷ outcomes)
            → (Elem false outcomes → onward (position (again p is_single k r q) r.pos))
            → Took k q sent r x (recv_from p is_single (true ∷ outcomes) q r (attempt_of q r))
        by_state (inl e) at ih = recv_from-done true outcomes v w next (inl e)
        by_state (inr e) (inl no_match) ih = cc
        by_state (inr e) (inr at) ih =
            rw (recv_from-again outcomes v w next e) (Took-again (subst onward same (ih at)))

  -- Readers of one stream take the same.
  Took-stream :
      {k : ℕ} {q : MultiQueue T} {sent : List T} {r r' : Reader} {x : T}
      {result : Result Fault (Received T T)}
      → r'.pos ≡ r.pos
      → Took k q sent r' x result
      → Took k q sent r x result
  Took-stream stream t = record {
    queue = t.queue;
    reader = t.reader;
    returned = t.returned;
    log = t.log;
    same_stream = t.same_stream ∙ stream;
    moved = rw stream at t.moved;
    keeps = rw stream at t.keeps;
  }

  -- On a queue that stands for a log, with a lawful policy, `try_recv` on a stream of the queue
  -- that is not at the end of the log returns the next value, moves the stream past it, and
  -- leaves the other streams, the cells, the head and the writers alone, as soon as one of its
  -- compare-exchanges does not fail for no reason.
  pub try_recv-Took :
      (outcomes : List Bool) {k : ℕ} {q : MultiQueue T} {sent : List T} (r : Reader) (x : T)
      → IsLawful p
      → IsLog k q sent
      → Elem r.pos (readers q)
      → get_elem? sent (position q r.pos).val ≡ some x
      → Elem false outcomes
      → Took k q sent r x (try_recv p outcomes q r)
  unfolding try_recv
  try_recv-Took outcomes {k} {q} {sent} r x lawful v at next succeeds =
      let (r', loaded, stream, meta) = load_attempt_lem q r in rw loaded (took r' stream)
    where
      window : InWindow (2 ^ k) (length sent) (position q r.pos)
      window =
          All-Elem (λ s. InWindow (2 ^ k) (length sent) (position q s)) r.pos (readers q) v.streams
            at

      took :
          (r' : Reader)
          → r'.pos ≡ r.pos
          → Took k q sent r x
              (recv_from p (Attempt.is_single q.manager.heap r') outcomes q r' (attempt_of q r'))
      took r' stream = Took-stream stream (
          recv_from-Took (Attempt.is_single q.manager.heap r') r' x lawful outcomes v
            (rw stream window) (rw stream next) succeeds)

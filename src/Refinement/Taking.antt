-- ===== src/Refinement/Taking.antt =====
-- `try_recv` and `try_recv_view` against the log: the next value of the stream, in order.
use multiqueue.Prelude.{
  ℕ, ◌+◌, ◌-◌, ◌%◌, ◌^◌, ◌<◌, ◌≡◌, refl, ap, ◌≢◌, List, ◌∷◌, Option, some, arith, Elem, All-Elem,
  length, get_elem?, lt_of_get_elem?, get_or, true, ◌==◌, Result, ok, Fault, if◌then◌else◌,
}
use multiqueue.CountedIndex
use multiqueue.CountedIndex.{CountedIndex, Transaction, rm_tag}
use multiqueue.CountedIndex.Bounds.{store_val_one, get_lem}
use multiqueue.ReadCursor.Attempt
use multiqueue.ReadCursor.Attempt.{Reader, ReaderState, single, multi, ReadAttempt}
use multiqueue.Heap.{update_self, update_ne}
use multiqueue.MultiQueue.Policy.{QueueRw}
use multiqueue.MultiQueue.State.{MultiQueue, blank}
use multiqueue.MultiQueue.Recv.{Received, with_pos, read_val, try_recv_view}
use multiqueue.Refinement.Log.{readers, position, InWindow, IsIdle, IsLog}
use multiqueue.Refinement.Receiving.{moved-IsLog, flag_ready}

-- What a receive leaves alone: all but the position of its own stream and the counts.
pub record Keeps {ℓ} {T : Type ℓ} (r : ℕ) (q q' : MultiQueue T) : Type ℓ where
  pub others : (s : ℕ) → r ≢ s → position q' s ≡ position q s
  pub readers_kept : readers q' ≡ readers q
  pub cells_kept : q'.cells ≡ q.cells
  pub head_kept : q'.head ≡ q.head
  pub writers_kept : q'.writers ≡ q.writers
  pub notified_kept : q'.notified ≡ q.notified

-- A receive that took the value x off its stream.
pub record Took {ℓ κ} {T : Type ℓ} {R : Type κ} (k : ℕ) (q : MultiQueue T) (sent : List T)
    (r : Reader) (x : R) (result : Result Fault (Received T R)) : Type (ℓ ⊔ κ) where
  pub queue : MultiQueue T
  pub reader : Reader
  pub returned : result ≡ ok (queue, reader, ok x)
  pub log : IsLog k queue sent
  pub same_stream : reader.pos ≡ r.pos
  pub moved : position queue r.pos ≡ record (position q r.pos) { val = (position q r.pos).val + 1 }
  pub keeps : Keeps r.pos q queue

module _ {ℓ} {T : Type ℓ} where
  -- The attempt of a reader on its stream.
  abbrev pub attempt_of : MultiQueue T → Reader → ReadAttempt
  attempt_of q r = record {
    linked = CountedIndex.load_transaction (position q r.pos);
    state = r.state;
  }

  pub get-attempt_of :
      (k : ℕ) (q : MultiQueue T) (r : Reader)
      → (position q r.pos).mask ≡ 2 ^ k - 1
      → Attempt.get (attempt_of q r) ≡ ((position q r.pos).val % 2 ^ k, (position q r.pos).val)
  unfolding Attempt.get CountedIndex.load_transaction
  get-attempt_of k q r w = get_lem (CountedIndex.load_transaction (position q r.pos)) k w

  -- The position that a commit stores.
  pub store_next :
      {k : ℕ} {q : MultiQueue T} {sent : List T} (r : Reader)
      → IsLog k q sent
      → InWindow (2 ^ k) (length sent) (position q r.pos)
      → Attempt.commit_direct (position q r.pos) (attempt_of q r) 1
        ≡ record (position q r.pos) { val = (position q r.pos).val + 1 }
  unfolding Attempt.commit_direct CountedIndex.commit_direct CountedIndex.load_transaction
  store_next {q} r v w =
      ap (λ (t : ℕ). record (position q r.pos) { val = t })
        (omega (
          arith,
          w.1,
          store_val_one (CountedIndex.load_transaction (position q r.pos)) (omega (arith, w.1)),
        ))

  -- The reader after `load_attempt` stands on the same stream.
  pub load_attempt_lem :
      (q : MultiQueue T) (r : Reader)
      → (r' : Reader) × (Attempt.load_attempt q.manager.heap r ≡ (attempt_of q r', r'))
        × (r'.pos ≡ r.pos)
        × (r'.meta ≡ r.meta)
  unfolding Attempt.load_attempt
  load_attempt_lem q r =
      ((Attempt.load_attempt q.manager.heap r).1, ground arith, ground arith, ground arith)

  -- The position that a receive stores keeps the log.
  pub stepped-IsLog :
      {k : ℕ} {q : MultiQueue T} {sent : List T} (refs : List ℕ) (dropped : List (Option T)) (r : ℕ)
      → IsLog k q sent
      → IsIdle (2 ^ k) refs
      → InWindow (2 ^ k) (length sent) (position q r)
      → (position q r).val < length sent
      → IsLog k
          (with_pos
            (record q { refs = refs; dropped = dropped })
            r
            (record (position q r) { val = (position q r).val + 1 }))
          sent
  stepped-IsLog refs dropped r v idle w lo =
      moved-IsLog refs dropped r _ v idle (w.0, omega arith, omega arith)

  module _ {κ} {R : Type κ} (p : QueueRw T) (op : T → R) where
    -- The view of the next value, for the reader that `load_attempt` leaves.
    view_after_load :
        {k : ℕ} {q : MultiQueue T} {sent : List T} (r r' : Reader) (x : T)
        → IsLog k q sent
        → InWindow (2 ^ k) (length sent) (position q r'.pos)
        → get_elem? sent (position q r'.pos).val ≡ some x
        → Attempt.load_attempt q.manager.heap r ≡ (attempt_of q r', r')
        → let emptied : MultiQueue T = record q {
          dropped = if p.drop_in_place_drops then some x ∷ q.dropped else q.dropped;
        } in
          try_recv_view p op q r
          ≡ ok (
            with_pos emptied r'.pos
                (record (position q r'.pos) { val = (position q r'.pos).val + 1 }),
            r',
            ok (op x),
          )
    unfolding try_recv_view read_val
    view_after_load {k} {q} {sent} r r' x v w next loaded =
        rw (loaded, get-attempt_of k q r' w.0, ready.1, ready.0, next, store_next r' v w) refl
      where
        ready :
            (get_or q.cells ((position q r'.pos).val % 2 ^ k) blank ≡ record {
              val = get_elem? sent (position q r'.pos).val;
              wraps = (position q r'.pos).val;
            })
            × ((rm_tag (get_or q.cells ((position q r'.pos).val % 2 ^ k) blank).wraps
                  == (position q r'.pos).val)
                ≡ true)
        ready = flag_ready (position q r'.pos).val v (lt_of_get_elem? sent _ x next) w.2

    -- On a queue that stands for a log, `try_recv_view` on a stream of the queue that is not at
    -- the end of the log returns what its function makes of the next value, moves the stream past
    -- it, and leaves the other streams, the cells, the head and the writers alone.
    pub try_recv_view-Took :
        {k : ℕ} {q : MultiQueue T} {sent : List T} (r : Reader) (x : T)
        → IsLog k q sent
        → Elem r.pos (readers q)
        → get_elem? sent (position q r.pos).val ≡ some x
        → Took k q sent r (op x) (try_recv_view p op q r)
    try_recv_view-Took {k} {q} {sent} r x v at next =
        let (r', loaded, stream, meta) = load_attempt_lem q r in took r' loaded stream
      where
        window : InWindow (2 ^ k) (length sent) (position q r.pos)
        window =
            All-Elem (λ s. InWindow (2 ^ k) (length sent) (position q s)) r.pos (readers q)
              v.streams at

        took :
            (r' : Reader)
            → Attempt.load_attempt q.manager.heap r ≡ (attempt_of q r', r')
            → r'.pos ≡ r.pos
            → Took k q sent r (op x) (try_recv_view p op q r)
        took r' loaded stream = record {
          queue = _;
          reader = r';
          returned = view_after_load r r' x v (rw stream window) (rw stream next) loaded;
          log =
              stepped-IsLog q.refs _ r'.pos v v.idle (rw stream window)
                (rw stream (lt_of_get_elem? sent _ x next));
          same_stream = stream;
          moved = rw stream (update_self (position q) r.pos _);
          keeps = record {
            others = λ s ne. rw stream (update_ne (position q) r.pos s _ ne);
            readers_kept = refl;
            cells_kept = refl;
            head_kept = refl;
            writers_kept = refl;
            notified_kept = refl;
          };
        }

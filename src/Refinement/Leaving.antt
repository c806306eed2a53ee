-- ===== src/Refinement/Leaving.antt =====
-- The last consumer of a stream takes the stream out of the queue: `do_unsubscribe_with` against the
-- log.
use multiqueue.Prelude.{
  ℕ, ◌<◌, ◌≡◌, ◌≢◌, refl, sym, ap, ◌∙◌, subst, ◌⊎◌, inl, inr, List, [], Bool, true, false, not,
  Bool-cases, if◌then◌else◌, arith, All-retain, length, ◌==◌, ==_iff, Result, ok, Fault,
}
use multiqueue.AtomicSignal
use multiqueue.AtomicSignal.{AtomicSignal}
use multiqueue.Heap.{Heap, update, update_self}
use multiqueue.Memory
use multiqueue.Memory.{MemoryManager}
use multiqueue.Memory.Frame.{IsWord, set_reader-IsWord, remove_token-kept}
use multiqueue.Word.{wrapping_sub}
use multiqueue.ReadCursor.Attempt
use multiqueue.ReadCursor.Attempt.{Reader, load_count}
use multiqueue.ReadCursor.Group
use multiqueue.ReadCursor.Group.{ReadCursor}
use multiqueue.MultiQueue.State.{MultiQueue, InnerRecv}
use multiqueue.MultiQueue.Handles
use multiqueue.Refinement.Log.{readers, position, IsLog}
use multiqueue.ReadCursor.Removal.{
  has_readers_cases, without, shrunk_cursor, freed_manager, remove_reader_returns, freed-IsSame,
  freed-IsWord, group_after, cursor_after, last_after,
}

module _ {ℓ} {T : Type ℓ} where
  -- A call that has taken the stream of the handle out of the queue. The last stream leaves its
  -- position behind, and the flag by which the senders learn that no reader is left.
  pub record Left (k : ℕ) (q : MultiQueue T) (sent : List T) (rx : InnerRecv)
      (call : Result Fault (MultiQueue T × InnerRecv)) : Type ℓ where
    pub queue : MultiQueue T
    pub returned : call ≡ ok (queue, record rx { alive = false })
    pub log : IsLog k queue sent
    pub positions : position queue ≡ position q
    pub notified_kept : queue.notified ≡ q.notified
    pub rest : readers queue ≡ without rx.reader.pos (readers q)
    pub last : length (readers q) ≡ 1 → queue.tail.last_pos ≡ (position q rx.reader.pos).val
    pub none_left : without rx.reader.pos (readers q) ≡ [] → IsWord true queue.manager.signal
    pub some_left :
        0 < length (without rx.reader.pos (readers q)) → IsWord false queue.manager.signal

  -- One that has only counted a consumer of the stream less.
  pub record Stays (k : ℕ) (q : MultiQueue T) (sent : List T) (rx : InnerRecv)
      (call : Result Fault (MultiQueue T × InnerRecv)) : Type ℓ where
    pub queue : MultiQueue T
    pub returned : call ≡ ok (queue, record rx { alive = false })
    pub log : IsLog k queue sent
    pub positions : position queue ≡ position q
    pub notified_kept : queue.notified ≡ q.notified
    pub streams : readers queue ≡ readers q
    pub signal_kept : queue.manager.signal ≡ q.manager.signal
    pub tokens_kept : queue.manager.inner.tokens ≡ q.manager.inner.tokens
    pub one_less :
        queue.manager.heap.consumers rx.reader.meta
        ≡ wrapping_sub (q.manager.heap.consumers rx.reader.meta) 1

  module _ (q : MultiQueue T) (rx : InnerRecv) where
    -- The queue with the consumer counted off.
    abbrev counted : MultiQueue T
    counted = record q {
      manager = record (q.manager) {
        heap = record (q.manager.heap) {
          consumers =
              update q.manager.heap.consumers rx.reader.meta
                (wrapping_sub (q.manager.heap.consumers rx.reader.meta) 1);
        };
      };
    }

    abbrev cursor : ReadCursor
    cursor = shrunk_cursor rx.reader q.tail counted.manager

    abbrev freed : MemoryManager
    freed = freed_manager rx.reader q.tail counted.manager

    -- The manager with the senders told that no reader is left, if so.
    signalled : Bool → MemoryManager
    signalled none_left =
        if none_left
        then record freed { signal = (AtomicSignal.set_reader freed.signal).0 }
        else freed

    left_queue : Bool → MultiQueue T
    unfolding signalled
    left_queue none_left = record q {
      tail = cursor;
      manager = Memory.remove_token rx.token (signalled none_left);
    }

    do_unsubscribe_returns :
        rx.alive ≡ true
        → q.manager.heap.consumers rx.reader.meta ≡ 1
        → Handles.do_unsubscribe q rx
          ≡ ok (left_queue (Group.has_readers freed.heap cursor), record rx { alive = false })
    unfolding Handles.do_unsubscribe Handles.remove_stream Attempt.remove_consumer left_queue
        signalled
    do_unsubscribe_returns alive one =
        rw
          (
            alive,
            (==_iff (q.manager.heap.consumers rx.reader.meta) 1).1 one,
            remove_reader_returns rx.reader q.tail counted.manager,
          )
          refl

    module _ (word : IsWord false q.manager.signal) where
      signalled-IsWord : (none_left : Bool) → IsWord none_left (signalled none_left).signal
      unfolding signalled
      signalled-IsWord true =
          set_reader-IsWord freed.signal (freed-IsWord rx.reader q.tail counted.manager word)
      signalled-IsWord false = freed-IsWord rx.reader q.tail counted.manager word

      signalled_heap : (none_left : Bool) → (signalled none_left).heap ≡ freed.heap
      unfolding signalled
      signalled_heap true = refl
      signalled_heap false = refl

      -- Either way the heap is the one of the freed manager.
      left_kept :
          (none_left : Bool)
          → (position (left_queue none_left) ≡ position q)
            × (readers (left_queue none_left) ≡ without rx.reader.pos (readers q))
            × IsWord none_left (left_queue none_left).manager.signal
      unfolding left_queue
      left_kept none_left =
          let t = remove_token-kept rx.token (signalled none_left) (signalled-IsWord none_left) in
          (
            t.0
                ∙ ap (λ (h : Heap). h.pos) (signalled_heap none_left)
                ∙ (freed-IsSame rx.reader q.tail counted.manager).pos,
            ap (λ (g : ℕ → List ℕ). g cursor.readers)
                  (t.1 ∙ ap (λ (h : Heap). h.group) (signalled_heap none_left))
                ∙ ap (λ (g : ℕ). freed.heap.group g) (cursor_after rx.reader q.tail counted.manager)
                ∙ group_after rx.reader q.tail counted.manager,
            t.3,
          )

  do_unsubscribe-Left :
      {k : ℕ} {sent : List T} (q : MultiQueue T) (rx : InnerRecv)
      → IsLog k q sent
      → IsWord false q.manager.signal
      → q.tail.readers < q.manager.heap.next
      → rx.alive ≡ true
      → q.manager.heap.consumers rx.reader.meta ≡ 1
      → Left k q sent rx (Handles.do_unsubscribe q rx)
  unfolding left_queue
  do_unsubscribe-Left {k} {sent} q rx v word lt alive one = record {
    queue = left_queue q rx none;
    returned = do_unsubscribe_returns q rx alive one;
    log = record {
      small = v.small;
      short = v.short;
      capacity = v.capacity;
      mask = v.mask;
      counted = v.counted;
      cells_width = v.cells_width;
      idle = v.idle;
      holds = v.holds;
      blanks = v.blanks;
      streams =
          rw (kept.0, kept.1) (All-retain _ (λ s. not (s == rx.reader.pos)) (readers q) v.streams);
      cache = v.cache;
      behind =
          rw (kept.0, kept.1) (All-retain _ (λ s. not (s == rx.reader.pos)) (readers q) v.behind);
    };
    positions = kept.0;
    notified_kept = refl;
    rest = kept.1;
    last = λ e. last_after rx.reader q.tail (counted q rx).manager lt e;
    none_left = λ e. elim cases [
      | inl t ↦ subst (λ (b : Bool). IsWord b (left_queue q rx none).manager.signal) t.0 kept.2
      | inr f ↦ absurd (omega (arith, f.1, ap (λ (l : List ℕ). length l) (group ∙ e)))
    ];
    some_left = λ e. elim cases [
      | inl t ↦ absurd (omega (arith, e, ap (λ (l : List ℕ). length l) (sym group ∙ t.1)))
      | inr f ↦ subst (λ (b : Bool). IsWord b (left_queue q rx none).manager.signal) f.0 kept.2
    ];
  }
    where
      none : Bool
      none = Group.has_readers (freed q rx).heap (cursor q rx)

      kept :
          (position (left_queue q rx none) ≡ position q)
          × (readers (left_queue q rx none) ≡ without rx.reader.pos (readers q))
          × IsWord none (left_queue q rx none).manager.signal
      kept = left_kept q rx word none

      cases :
          ((Group.has_readers (freed q rx).heap (cursor q rx) ≡ true)
            × ((freed q rx).heap.group (cursor q rx).readers ≡ []))
          ⊎ ((Group.has_readers (freed q rx).heap (cursor q rx) ≡ false)
              × (0 < length ((freed q rx).heap.group (cursor q rx).readers)))
      cases = has_readers_cases (freed q rx).heap (cursor q rx)

      group : (freed q rx).heap.group (cursor q rx).readers ≡ without rx.reader.pos (readers q)
      group =
          ap (λ (g : ℕ). (freed q rx).heap.group g)
            (cursor_after rx.reader q.tail (counted q rx).manager)
          ∙ group_after rx.reader q.tail (counted q rx).manager

  -- On a queue that stands for a log, with no sign that the readers are gone and an allocated
  -- group of streams, for a handle that is alive: if it is the last consumer of its stream, the
  -- stream is taken out and the others stay where they are, the position of an only stream is
  -- kept for the destructor, and the senders are told exactly if no stream is left; otherwise the
  -- streams and all registered tokens stay, and the stream has one consumer less. Either way the
  -- queue stands for the same log.
  pub do_unsubscribe_lem :
      {k : ℕ} {sent : List T} (q : MultiQueue T) (rx : InnerRecv)
      → IsLog k q sent
      → IsWord false q.manager.signal
      → q.tail.readers < q.manager.heap.next
      → rx.alive ≡ true
      → ((q.manager.heap.consumers rx.reader.meta ≡ 1)
          × Left k q sent rx (Handles.do_unsubscribe q rx))
        ⊎ ((q.manager.heap.consumers rx.reader.meta ≢ 1)
            × Stays k q sent rx (Handles.do_unsubscribe q rx))
  unfolding Handles.do_unsubscribe Attempt.remove_consumer
  do_unsubscribe_lem q rx v word lt alive =
      elim (Bool-cases (q.manager.heap.consumers rx.reader.meta == 1)) [
        | inl e ↦
            let one = (==_iff (q.manager.heap.consumers rx.reader.meta) 1).0 e in
            inl (one, do_unsubscribe-Left q rx v word lt alive one)
        | inr e ↦ inr (
          λ z. ground arith,
          record {
            queue = counted q rx;
            returned = rw (alive, e) refl;
            log = record {
              small = v.small;
              short = v.short;
              capacity = v.capacity;
              mask = v.mask;
              counted = v.counted;
              cells_width = v.cells_width;
              idle = v.idle;
              holds = v.holds;
              blanks = v.blanks;
              streams = v.streams;
              cache = v.cache;
              behind = v.behind;
            };
            positions = refl;
            notified_kept = refl;
            streams = refl;
            signal_kept = refl;
            tokens_kept = refl;
            one_less = update_self q.manager.heap.consumers rx.reader.meta _;
          },
        )
      ]

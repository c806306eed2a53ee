-- ===== src/Refinement/Streams.antt =====
-- `add_stream` of `InnerRecv` against the log.
use multiqueue.Prelude.{
  ℕ, ◌+◌, ◌-◌, ◌^◌, ◌≤◌, ◌<◌, ◌≡◌, ◌≢◌, refl, ap, ◌∙◌, List, [], ◌∷◌, ◌++◌, true, arith, All,
  All-append_last, All-imp, All-imp₂, All-Elem, Elem, length, ==_iff, Result, ok, Fault,
}
use multiqueue.CountedIndex
use multiqueue.CountedIndex.{CountedIndex, validate_wrap}
use multiqueue.CountedIndex.Wrap.{validate_wrap-pow}
use multiqueue.Heap.{allocate, update, update_self, update_ne}
use multiqueue.Memory
use multiqueue.Memory.{MemoryManager}
use multiqueue.Memory.Inner
use multiqueue.Memory.Frame.{IsSame, free-IsSame}
use multiqueue.ReadCursor.Attempt.{single}
use multiqueue.ReadCursor.Group
use multiqueue.ReadCursor.Rounds.{grown_heap}
use multiqueue.MultiQueue.State.{MultiQueue, InnerRecv}
use multiqueue.MultiQueue.Handles
use multiqueue.Refinement.Log.{readers, position, InWindow, IsLog, pow_bounds}

module _ {ℓ} {T : Type ℓ} where
  -- The streams of a queue stand on its heap.
  abbrev pub IsAllocated : MultiQueue T → Type 0
  IsAllocated q = All (λ s. s < q.manager.heap.next) (readers q)

  -- A call that has added a stream.
  pub record Added (k : ℕ) (q : MultiQueue T) (sent : List T) (rx : InnerRecv)
      (call : Result Fault (MultiQueue T × InnerRecv)) : Type ℓ where
    pub queue : MultiQueue T
    pub handle : InnerRecv
    pub returned : call ≡ ok (queue, handle)
    pub log : IsLog k queue sent
    pub grown : readers queue ≡ readers q ++ (handle.reader.pos ∷ [])
    pub fresh : All (λ s. s ≢ handle.reader.pos) (readers q)
    pub here : position queue handle.reader.pos ≡ position q rx.reader.pos
    pub others : All (λ s. position queue s ≡ position q s) (readers q)
    pub allocated : IsAllocated queue

  -- The token of the new handle, and the manager that the call leaves.
  abbrev token_after : MultiQueue T → CountedIndex → ℕ × MemoryManager
  token_after q index = Memory.get_token (
      Memory.free true true q.tail.readers
        (record (q.manager) { heap = grown_heap q.manager.heap (readers q) index }))

  abbrev added_queue : MultiQueue T → CountedIndex → MultiQueue T
  added_queue q index = record q {
    tail = record (q.tail) { readers = q.manager.heap.next + 1 };
    manager = (token_after q index).1;
  }

  abbrev added_handle : MultiQueue T → CountedIndex → InnerRecv
  added_handle q index = record {
    reader = record {
      state = single;
      pos = q.manager.heap.next + 1 + 1;
      meta = q.manager.heap.next;
    };
    token = (token_after q index).0;
    alive = true;
  }

  -- The position that the new stream starts from.
  abbrev start_of : MultiQueue T → InnerRecv → CountedIndex
  start_of q rx = record (position q rx.reader.pos) {
    mask = (position q rx.reader.pos).mask + 1 - 1;
  }

  -- The call, where the parent's position is one of a queue of 2 ^ k cells.
  add_stream_returns :
      (k : ℕ) (q : MultiQueue T) (rx : InnerRecv)
      → k ≤ 61
      → (position q rx.reader.pos).mask + 1 ≡ 2 ^ k
      → Handles.add_stream q rx ≡ ok (added_queue q (start_of q rx), added_handle q (start_of q rx))
  unfolding Handles.add_stream Group.add_stream Group.add_stream_from Group.try_add_stream
      Group.group_add_stream CountedIndex.from_usize CountedIndex.wrap_at allocate
  add_stream_returns k q rx small wrap =
      rw
        (
          ap validate_wrap wrap ∙ validate_wrap-pow k small,
          (==_iff q.tail.readers q.tail.readers).1 refl,
        )
        refl

  -- What is on the heap behind the call.
  module _ (q : MultiQueue T) (index : CountedIndex) where
    kept :
        IsSame
          (grown_heap q.manager.heap (readers q) index)
          (Memory.free true true q.tail.readers
            (record (q.manager) { heap = grown_heap q.manager.heap (readers q) index })).heap
    kept =
        free-IsSame true true q.tail.readers
          (record (q.manager) { heap = grown_heap q.manager.heap (readers q) index })

    position_after :
        position (added_queue q index) ≡ update (position q) (q.manager.heap.next + 1 + 1) index
    unfolding Memory.get_token Inner.get_token allocate
    position_after = kept.pos

    readers_after :
        readers (added_queue q index) ≡ readers q ++ ((q.manager.heap.next + 1 + 1) ∷ [])
    unfolding Memory.get_token Inner.get_token allocate
    readers_after =
        ap (λ (g : ℕ → List ℕ). g (q.manager.heap.next + 1)) kept.group
        ∙ update_self q.manager.heap.group (q.manager.heap.next + 1) _

    next_after : (added_queue q index).manager.heap.next ≡ q.manager.heap.next + 4
    unfolding Memory.get_token Inner.get_token allocate
    next_after = ap (λ (n : ℕ). n + 1) kept.next ∙ omega arith

  -- On a queue that stands for a log and whose streams are allocated, `add_stream` on a stream of
  -- it does not panic; the queue stands for the same log, has one stream more, which is none of
  -- the old ones and stands where its parent stands, and the old streams stand where they stood.
  pub add_stream_lem :
      {k : ℕ} {sent : List T} (q : MultiQueue T) (rx : InnerRecv)
      → IsLog k q sent
      → IsAllocated q
      → Elem rx.reader.pos (readers q)
      → Added k q sent rx (Handles.add_stream q rx)
  add_stream_lem {k} {sent} q rx v allocated at = record {
    queue = added_queue q start;
    handle = added_handle q start;
    returned = add_stream_returns k q rx v.small (omega (arith, window, bounds));
    log = record {
      small = v.small;
      short = v.short;
      capacity = v.capacity;
      mask = v.mask;
      counted = v.counted;
      cells_width = v.cells_width;
      idle = v.idle;
      holds = v.holds;
      blanks = v.blanks;
      streams =
          rw (readers_after q start, position_after q start)
            (All-append_last _ (readers q) pos
              (All-imp₂ (λ s. s < q.manager.heap.next)
                (λ s. InWindow (2 ^ k) (length sent) (position q s)) _ (readers q)
                (λ s lt w. rw (old s lt) w) allocated v.streams)
              (rw (update_self (position q) pos start)
                (omega (arith, window), window.1, window.2)));
      cache = v.cache;
      behind =
          rw (readers_after q start, position_after q start)
            (All-append_last _ (readers q) pos
              (All-imp₂ (λ s. s < q.manager.heap.next) (λ s. q.tail_cache ≤ (position q s).val) _
                (readers q) (λ s lt w. rw (old s lt) w) allocated v.behind)
              (rw (update_self (position q) pos start) (
                All-Elem (λ s. q.tail_cache ≤ (position q s).val) rx.reader.pos (readers q) v.behind
                  at)));
    };
    grown = readers_after q start;
    fresh = All-imp (λ s. s < q.manager.heap.next) _ (readers q) (λ s lt e. omega arith) allocated;
    here = rw (position_after q start) (update_self (position q) pos start) ∙ same_start;
    others =
        All-imp (λ s. s < q.manager.heap.next) _ (readers q)
          (λ s lt. rw (position_after q start) (old s lt)) allocated;
    allocated =
        rw (readers_after q start, next_after q start)
          (All-append_last _ (readers q) pos
            (All-imp (λ s. s < q.manager.heap.next) _ (readers q) (λ s lt. omega arith) allocated)
            (omega arith));
  }
    where
      start : CountedIndex
      start = start_of q rx

      pos : ℕ
      pos = q.manager.heap.next + 1 + 1

      window : InWindow (2 ^ k) (length sent) (position q rx.reader.pos)
      window =
          All-Elem (λ s. InWindow (2 ^ k) (length sent) (position q s)) rx.reader.pos (readers q)
            v.streams at

      bounds : (0 < 2 ^ k) × (2 ^ k ≤ 2 ^ 61)
      bounds = pow_bounds k v.small

      old : (s : ℕ) → s < q.manager.heap.next → update (position q) pos start s ≡ position q s
      old s lt = update_ne (position q) pos s start (λ e. omega arith)

      same_start : start ≡ position q rx.reader.pos
      same_start = ap (λ (m : ℕ). record (position q rx.reader.pos) { mask = m }) (omega arith)

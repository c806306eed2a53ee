-- ===== src/Refinement/Fresh.antt =====
-- A new queue stands for the empty log.

use multiqueue.Prelude.{
  ℕ, ◌+◌, ◌-◌, ◌*◌, ◌^◌, ◌≤◌, ◌<◌, ◌≡◌, refl, ap, ◌∙◌, inl, inr, [], ◌∷◌, arith, length-replicate,
  get_or-replicate, replicate, Bool, true, ok, err, capacity_overflow,
}
use multiqueue.CountedIndex
use multiqueue.CountedIndex.{CountedIndex, get_valid_wrap, validate_wrap}
use multiqueue.CountedIndex.Wrap.{
  IsWrapOf, validate_wrap-get_valid_wrap, get_valid_wrap-small, get_valid_wrap-large,
}
use multiqueue.Heap.{
  Heap, update, allocate, update_self, allocate_array, allocate_array-ok, allocate_array-err,
  allocate_array_cases,
}
use multiqueue.Memory
use multiqueue.Memory.Inner
use multiqueue.ReadCursor.Group
use multiqueue.ReadCursor.Group.{group_add_stream}
use multiqueue.MultiQueue.State.{
  MultiQueue, uni, InnerSend, InnerRecv, blank, ref_cnt_size, new_internal,
}
use multiqueue.ReadCursor.Attempt.{single}
use multiqueue.Refinement.Log.{readers, position, IsLog}

-- A queue fresh from its construction, with its two handles.
pub record IsFresh {ℓ} {T : Type ℓ} (wanted : ℕ) (q : MultiQueue T) (tx : InnerSend)
    (rx : InnerRecv) : Type ℓ where
  pub wrap : IsWrapOf wanted q.capacity
  pub log : IsLog wrap.exponent q []
  pub one_stream : readers q ≡ rx.reader.pos ∷ []
  pub at_start : (position q rx.reader.pos).val ≡ 0
  pub one_writer : q.writers ≡ 1
  pub alive : rx.alive ≡ true

-- The heap with the first stream on it, its position at 0.
abbrev with_stream : Heap → ℕ → Heap
with_stream heap capacity =
    let meta = heap.next in
    let group = meta + 1 in
    let pos = group + 1 in
    record heap {
      next = pos + 1;
      pos = update heap.pos pos (record { val = 0; mask = capacity - 1 });
      consumers = update heap.consumers meta 1;
      group = update heap.group group (pos ∷ []);
    }

abbrev fresh_send : Heap → ℕ → InnerSend
fresh_send heap capacity = record {
  token = (Memory.get_token (Memory.new (with_stream heap capacity))).0;
  state = uni;
}

abbrev fresh_recv : Heap → ℕ → InnerRecv
fresh_recv heap capacity = record {
  reader = record { state = single; pos = heap.next + 1 + 1; meta = heap.next };
  token = (Memory.get_token (Memory.get_token (Memory.new (with_stream heap capacity))).1).0;
  alive = true;
}

module _ {ℓ} {T : Type ℓ} where
  abbrev fresh_queue : Heap → ℕ → Bool → MultiQueue T
  fresh_queue heap capacity needs_notify = record {
    head = record { val = 0; mask = capacity - 1 };
    tail_cache = 0;
    writers = 1;
    tail = record { readers = heap.next + 1; last_pos = 0 };
    cells = replicate capacity blank;
    refs = replicate capacity 0;
    capacity = capacity;
    needs_notify = needs_notify;
    manager = (Memory.get_token (Memory.get_token (Memory.new (with_stream heap capacity))).1).1;
    dropped = [];
    notified = 0;
  }

  new_internal-ok :
      (heap : Heap) (entry_size wanted : ℕ) (needs_notify : Bool)
      → allocate_array entry_size (get_valid_wrap wanted) ≡ ok tt
      → allocate_array ref_cnt_size (get_valid_wrap wanted) ≡ ok tt
      → validate_wrap (get_valid_wrap wanted) ≡ ok tt
      → new_internal {T = T} heap entry_size wanted needs_notify
        ≡ ok (
          fresh_queue heap (get_valid_wrap wanted) needs_notify,
          fresh_send heap (get_valid_wrap wanted),
          fresh_recv heap (get_valid_wrap wanted),
        )
  unfolding new_internal Group.new group_add_stream CountedIndex.from_usize CountedIndex.new
      allocate
  new_internal-ok heap entry_size wanted needs_notify cells refs valid =
      rw (cells, refs, valid) refl

  fresh_queue-IsFresh :
      (heap : Heap) (wanted capacity : ℕ) (needs_notify : Bool)
      → IsWrapOf wanted capacity
      → IsFresh wanted
          (fresh_queue heap capacity needs_notify)
          (fresh_send heap capacity)
          (fresh_recv heap capacity)
  unfolding Memory.get_token Memory.new Inner.get_token allocate
  fresh_queue-IsFresh heap wanted capacity needs_notify w = record {
    wrap = w;
    log = record {
      small = w.bounded;
      short = omega arith;
      capacity = w.power;
      mask = ap (λ (t : ℕ). t - 1) w.power;
      counted = refl;
      cells_width = length-replicate capacity blank ∙ w.power;
      idle = (length-replicate capacity 0 ∙ w.power, λ i. get_or-replicate capacity i 0);
      holds = λ s lo. absurd (omega arith);
      blanks = λ i le. get_or-replicate capacity i blank;
      streams = rw one (rw start ((ap (λ (t : ℕ). t - 1) w.power, omega arith, omega arith), tt));
      cache = (omega arith, omega arith);
      behind = rw one (omega arith, tt);
    };
    one_stream = one;
    at_start = ap (λ (c : CountedIndex). c.val) start;
    one_writer = refl;
    alive = refl;
  }
    where
      one :
          update heap.group (heap.next + 1) ((heap.next + 1 + 1) ∷ []) (heap.next + 1)
          ≡ (heap.next + 1 + 1) ∷ []
      one = update_self heap.group (heap.next + 1) _

      start :
          ◌≡◌ {A = CountedIndex}
            (update heap.pos
              (heap.next + 1 + 1)
              (record { val = 0; mask = capacity - 1 })
              (heap.next + 1 + 1))
            (record { val = 0; mask = capacity - 1 })
      start = update_self heap.pos (heap.next + 1 + 1) _

  -- A capacity up to 2 ^ 56, where the cells take fewer than 2 ^ 63 bytes, gives a queue of the
  -- least power of two of cells that is not below it, with one writer and one stream at its
  -- start, that stands for the empty log.
  pub new_internal-IsFresh :
      (heap : Heap) (entry_size wanted : ℕ) (needs_notify : Bool)
      → wanted ≤ 2 ^ 56
      → entry_size * get_valid_wrap wanted < 2 ^ 63
      → (q : MultiQueue T) × (tx : InnerSend) × (rx : InnerRecv) × (new_internal heap entry_size
            wanted needs_notify
          ≡ ok (q, tx, rx))
        × IsFresh wanted q tx rx
  new_internal-IsFresh heap entry_size wanted needs_notify h fits =
      let (w, valid) = validate_wrap-get_valid_wrap wanted (omega arith) in
      (
        _,
        _,
        _,
        new_internal-ok heap entry_size wanted needs_notify (allocate_array-ok entry_size _ fits)
            (allocate_array-ok ref_cnt_size _ (omega (arith, get_valid_wrap-small wanted h))) valid,
        fresh_queue-IsFresh heap wanted (get_valid_wrap wanted) needs_notify w,
      )

  -- A capacity above 2 ^ 56 makes the construction panic with a capacity overflow, whatever the
  -- size of a cell.
  pub new_internal-panics :
      (heap : Heap) (entry_size wanted : ℕ) (needs_notify : Bool)
      → 2 ^ 56 < wanted
      → new_internal {T = T} heap entry_size wanted needs_notify ≡ err capacity_overflow
  unfolding new_internal
  new_internal-panics heap entry_size wanted needs_notify h =
      elim (allocate_array_cases entry_size (get_valid_wrap wanted)) [
        | inl e ↦
            rw
              (
                e,
                allocate_array-err ref_cnt_size (get_valid_wrap wanted)
                    (omega (arith, get_valid_wrap-large wanted h)),
              )
              refl
        | inr e ↦ rw e refl
      ]

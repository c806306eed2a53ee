-- ===== src/MultiQueue/State.antt =====
-- `MultiQueue` of src/multiqueue.rs and its construction. Fields for padding are left out. What
-- the queue does to the outside is recorded: `dropped` lists the values that it has destroyed, the
-- latest first, and `notified` counts the calls of the waiter's `notify`.
use multiqueue.Prelude.{ℕ, List, [], Bool, true, Option, none, Result, ok, Fault, ◌>>=◌, replicate}
use multiqueue.CountedIndex
use multiqueue.CountedIndex.{CountedIndex, initial_queue_flag, get_valid_wrap}
use multiqueue.Heap.{Heap, allocate_array}
use multiqueue.Memory
use multiqueue.Memory.{MemoryManager}
use multiqueue.ReadCursor.Attempt.{Reader}
use multiqueue.ReadCursor.Group
use multiqueue.ReadCursor.Group.{ReadCursor}

-- `val` is `none` while the cell has never been written.
pub record QueueEntry {ℓ} (T : Type ℓ) : Type ℓ where
  pub val : Option T
  pub wraps : ℕ

pub record MultiQueue {ℓ} (T : Type ℓ) : Type ℓ where
  pub head : CountedIndex
  pub tail_cache : ℕ
  pub writers : ℕ
  pub tail : ReadCursor
  pub cells : List (QueueEntry T)
  pub refs : List ℕ
  pub capacity : ℕ
  pub needs_notify : Bool
  pub manager : MemoryManager
  pub dropped : List (Option T)
  pub notified : ℕ

-- The bytes of a `RefCnt`: a word and its padding.
abbrev pub ref_cnt_size : ℕ
ref_cnt_size = 72

abbrev pub blank {ℓ} : {T : Type ℓ} → QueueEntry T
blank = record { val = none; wraps = initial_queue_flag }

pub data QueueState : Type 0 where
  uni multi : QueueState

pub record InnerSend : Type 0 where
  pub token : ℕ
  pub state : QueueState

pub record InnerRecv : Type 0 where
  pub reader : Reader
  pub token : ℕ
  pub alive : Bool

-- `new_internal`, over a heap on which nothing of the queue stands; the waiter is known by what
-- its `needs_notify` says, and the cells by how many bytes a `QueueEntry` of the values takes.
unfoldable pub new_internal {ℓ} :
    {T : Type ℓ} → Heap → ℕ → ℕ → Bool → Result Fault (MultiQueue T × InnerSend × InnerRecv)
new_internal heap entry_size wanted needs_notify = do
  let capacity = get_valid_wrap wanted
  allocated ← allocate_array entry_size capacity
  allocated_refs ← allocate_array ref_cnt_size capacity
  (cursor, reader, h) ← Group.new heap capacity
  head ← CountedIndex.new capacity
  let (send_token, m1) = Memory.get_token (Memory.new h)
  let (recv_token, m2) = Memory.get_token m1
  ok (
    record {
      head = head;
      tail_cache = 0;
      writers = 1;
      tail = cursor;
      cells = replicate capacity blank;
      refs = replicate capacity 0;
      capacity = capacity;
      needs_notify = needs_notify;
      manager = m2;
      dropped = [];
      notified = 0;
    },
    record { token = send_token; state = uni },
    record { reader = reader; token = recv_token; alive = true },
  )

-- ===== src/Tests.antt =====
-- The theorems on the queue at a concrete one: two cells, both written, and three streams.
mod Parts
mod Streams
mod Futures
mod Threads
mod Overrun
mod Waiting
use multiqueue.Prelude.{
  ℕ, ◌+◌, ◌-◌, ◌*◌, ◌^◌, ◌≤◌, ◌<◌, ◌≡◌, refl, ◌⊎◌, inl, inr, List, [], ◌∷◌, Bool, true, false,
  Option, none, some, Result, ok, err, Fault, capacity_overflow, arith, zero, suc, All, Elem,
  get_or, ◌≢◌, ◌==◌, if◌then◌else◌,
}
use multiqueue.CountedIndex.{
  CountedIndex, Transaction, get_valid_wrap, validate_wrap, matches_previous,
}
use multiqueue.CountedIndex.Bounds.{matches_previous_lem}
use multiqueue.CountedIndex.Wrap.{IsWrapOf, validate_wrap-get_valid_wrap, get_valid_wrap-small}
use multiqueue.AtomicSignal.{
  signal_of, set_epoch, clear_epoch, set_reader, clear_reader, signal_updates,
}
use multiqueue.Heap.{Heap}
use multiqueue.Memory.Inner.{delete_all}
use multiqueue.Memory.{MemoryManager, free, remove_token}
use multiqueue.Memory.Laws
use multiqueue.Memory.Laws.{handled, free-conserves, remove_token-conserves, free_grace}
use multiqueue.ReadCursor.Attempt.{Reader, single, multi}
use multiqueue.ReadCursor.Group.{Glimpse, group_max_diff, get_max_diff, max_diff_from}
use multiqueue.ReadCursor.Distance.{
  IsMaxDiff, max_diff_from-IsMaxDiff, max_diff_from-none, get_max_diff_stable,
}
use multiqueue.MultiQueue.Policy.{bcast, bcast-IsLawful, mpmc, mpmc-IsLawful}
use multiqueue.MultiQueue.State.{MultiQueue, InnerSend, InnerRecv, blank, new_internal}
use multiqueue.MultiQueue.Send.{try_send_single, try_send_multi}
use multiqueue.MultiQueue.Recv.{try_recv, try_recv_view}
use multiqueue.Refinement.Log.{readers, position, IsLog}
use multiqueue.Refinement.Sending.{Appended, Refused, try_send_single_lem}
use multiqueue.Refinement.Multi.{try_send_multi-eq-single}
use multiqueue.Refinement.Taking.{Took, try_recv_view-Took}
use multiqueue.Refinement.Loop.{try_recv-Took}
use multiqueue.Refinement.Waiting.{Waits, recv_at_end}
use multiqueue.Refinement.Fresh.{IsFresh, new_internal-IsFresh, new_internal-panics}
use multiqueue.Refinement.Calls.{Call, sends, receives, run, Served}
use multiqueue.MultiQueue.Blocking.{Turn}
use multiqueue.MultiQueue.Teardown.{drop}
use multiqueue.Refinement.Closing.{collect, drop-collect}
use multiqueue.Refinement.Runs.{run-Served}

-- Three streams, of which each stands at the position of its own number.
abbrev pub three_streams : Heap
three_streams = record {
  next = 6;
  pos = λ s. record { val = s; mask = 1 };
  consumers = λ _. 1;
  group = λ _. 0 ∷ 1 ∷ 2 ∷ [];
  epochs = λ _. 0;
  freed = [];
}

abbrev pub two_values : List ℕ
two_values = 10 ∷ 20 ∷ []

-- Two cells, both written; stream 0 has read neither.
abbrev pub full_queue : MultiQueue ℕ
full_queue = record {
  head = record { val = 2; mask = 1 };
  tail_cache = 0;
  writers = 1;
  tail = record { readers = 3; last_pos = 0 };
  cells = record { val = some 10; wraps = 0 } ∷ record { val = some 20; wraps = 1 } ∷ [];
  refs = 0 ∷ 0 ∷ [];
  capacity = 2;
  needs_notify = true;
  manager = record {
    inner = record { tokens = 4 ∷ 5 ∷ []; tofree = []; epoch = 0 };
    wait_to_free = [];
    epoch = 0;
    signal = signal_of false false;
    heap = three_streams;
  };
  dropped = [];
  notified = 0;
}

pub full_queue-IsLog : IsLog 1 full_queue two_values
full_queue-IsLog = record {
  small = omega arith;
  short = omega arith;
  capacity = refl;
  mask = refl;
  counted = refl;
  cells_width = refl;
  idle = (refl, no_refs);
  holds = cells_hold;
  blanks = beyond;
  streams = (
    (refl, omega arith, omega arith),
    ((refl, omega arith, omega arith), ((refl, omega arith, omega arith), tt)),
  );
  cache = (omega arith, omega arith);
  behind = (omega arith, (omega arith, (omega arith, tt)));
}
  where
    no_refs : (i : ℕ) → get_or full_queue.refs i 0 ≡ 0
    no_refs zero = refl
    no_refs (suc zero) = refl
    no_refs (suc (suc i)) = refl

    cells_hold : multiqueue.Refinement.Log.Holds 2 two_values full_queue.cells
    cells_hold zero lt le = refl
    cells_hold (suc zero) lt le = refl
    cells_hold (suc (suc s)) lt le = absurd (omega arith)

    beyond : (i : ℕ) → 2 ≤ i → get_or full_queue.cells i blank ≡ blank
    beyond zero le = absurd (omega arith)
    beyond (suc zero) le = absurd (omega arith)
    beyond (suc (suc i)) le = refl

-- A handle on a stream.
abbrev pub on_stream : ℕ → Reader
on_stream s = record { state = multi; pos = s; meta = s }

try_send_single_lem_example :
    Appended 1 full_queue two_values 30 (try_send_single mpmc full_queue 30)
    ⊎ Refused 1 full_queue two_values 30 (try_send_single mpmc full_queue 30)
try_send_single_lem_example =
    try_send_single_lem mpmc mpmc-IsLawful 30 full_queue-IsLog (omega arith)

try_send_multi-eq-single_example :
    try_send_multi mpmc (true ∷ false ∷ []) full_queue 30 ≡ try_send_single mpmc full_queue 30
try_send_multi-eq-single_example =
    try_send_multi-eq-single mpmc (true ∷ false ∷ []) 30 mpmc-IsLawful full_queue-IsLog
      (inr (inl refl))

try_recv-Took_example :
    Took 1 full_queue two_values
      (on_stream 1)
      20
      (try_recv (bcast (λ (v : ℕ). v)) (true ∷ false ∷ []) full_queue (on_stream 1))
try_recv-Took_example =
    try_recv-Took (bcast (λ (v : ℕ). v)) (true ∷ false ∷ []) (on_stream 1) 20
      (bcast-IsLawful (λ (v : ℕ). v) (λ v. refl)) full_queue-IsLog (inr (inl refl)) refl
      (inr (inl refl))

try_recv_view-Took_example :
    Took 1 full_queue two_values
      (on_stream 0)
      11
      (try_recv_view mpmc (λ v. v + 1) full_queue (on_stream 0))
try_recv_view-Took_example =
    try_recv_view-Took mpmc (λ v. v + 1) (on_stream 0) 10 full_queue-IsLog (inl refl) refl

recv_at_end_example :
    Waits 1 full_queue 2 (on_stream 2) (try_recv mpmc (false ∷ []) full_queue (on_stream 2))
    × Waits 1 full_queue 2 (on_stream 2) (try_recv_view mpmc (λ v. v + 1) full_queue (on_stream 2))
recv_at_end_example =
    recv_at_end mpmc (λ v. v + 1) false [] (on_stream 2) full_queue-IsLog (inr (inr (inl refl)))
      refl

-- A send that is refused, the receive that makes room, and a send that is accepted.
abbrev some_calls : List (Call ℕ)
some_calls =
    sends 30
    ∷ receives (on_stream 0) (false ∷ [])
    ∷ sends 40
    ∷ receives (on_stream 2) (true ∷ false ∷ [])
    ∷ []

run-Served_example : Served 1 full_queue two_values (run mpmc some_calls full_queue)
run-Served_example =
    run-Served mpmc mpmc-IsLawful some_calls full_queue-IsLog
      (tt, ((inl refl, inl refl), (tt, ((inr (inr (inl refl)), inr (inl refl)), tt)))) (omega arith)

new_internal-IsFresh_example :
    (q : MultiQueue ℕ) × (tx : InnerSend) × (rx : InnerRecv) × (new_internal three_streams 16 5 true
      ≡ ok (q, tx, rx))
    × IsFresh 5 q tx rx
new_internal-IsFresh_example = new_internal-IsFresh three_streams 16 5 true (omega arith) five_fit
  where
    five_fit : 16 * get_valid_wrap 5 < 2 ^ 63
    five_fit = omega (arith, get_valid_wrap-small 5 (omega arith))

new_internal-panics_example :
    new_internal {T = ℕ} three_streams 16 (2 ^ 56 + 1) true ≡ err capacity_overflow
new_internal-panics_example = new_internal-panics three_streams 16 (2 ^ 56 + 1) true (omega arith)

drop-collect_example : drop mpmc 3 full_queue ≡ ok (collect 2 0 two_values [])
drop-collect_example = drop-collect 2 full_queue-IsLog refl (omega arith)

-- A receiver on stream 1, and a time round its loop in which nobody else does anything.
abbrev pub receiver : InnerRecv
receiver = record { reader = on_stream 1; token = 5; alive = true }

abbrev pub quiet : Turn ℕ
quiet = record { outcomes = false ∷ []; meanwhile = [] }

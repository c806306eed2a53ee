-- ===== src/Tests/Streams.antt =====
-- The theorems on the handles and on streams that come and go, at a queue with three streams.
use multiqueue.Prelude.{
  ◌+◌, ◌++◌, Elem-append_last, ◌^◌, ◌-◌, none, ℕ, ◌≡◌, ◌≢◌, refl, ◌⊎◌, inl, inr, [], ◌∷◌, true,
  false, some, arith, get_elem?,
}
use multiqueue.CountedIndex.{CountedIndex, commit, store_val, rm_tag, load_transaction}
use multiqueue.CountedIndex.Moves.{Moving, hold, loads, commits, fails, Reach, start, later}
use multiqueue.CountedIndex.Claims.{Counted, Reach-Counted}
use multiqueue.Heap.{update, update_self, update_ne}
use multiqueue.ReadCursor.Group.{Interference, undisturbed, add_stream_from}
use multiqueue.ReadCursor.Rounds.{IsOrderly, Adds, IsPlaced, Joined, add_stream_from-Joined}
use multiqueue.AtomicSignal.{signal_reads}
use multiqueue.MultiQueue.Policy.{mpmc, mpmc-IsLawful}
use multiqueue.MultiQueue.State.{InnerSend, uni}
use multiqueue.MultiQueue.Handles.{try_send, try_recv, add_stream, do_unsubscribe}
use multiqueue.Refinement.Log.{position}
use multiqueue.Refinement.Handles.{Accepts, Rejects, try_send_lem}
use multiqueue.Refinement.Handing.{Gets, Misses, try_recv_lem}
use multiqueue.Refinement.Streams.{Added, add_stream_lem}
use multiqueue.Refinement.Sharing.{Shared, add_stream-Shared}
use multiqueue.Refinement.Leaving.{Left, Stays, do_unsubscribe_lem}
use multiqueue.Tests.{on_stream, two_values, full_queue, full_queue-IsLog, receiver}

abbrev sender : InnerSend
sender = record { token = 4; state = uni }

try_send_lem_example :
    Accepts 1 full_queue two_values 30 (try_send mpmc (false ∷ []) full_queue sender 30)
    ⊎ Rejects 1 full_queue two_values 30 (try_send mpmc (false ∷ []) full_queue sender 30)
try_send_lem_example =
    try_send_lem mpmc (false ∷ []) sender 30 mpmc-IsLawful full_queue-IsLog (omega arith)
      (signal_reads false false).1 (inl refl)

try_recv_lem_example :
    ((x : ℕ) × (get_elem? two_values (position full_queue 1).val ≡ some x)
      × Gets 1 full_queue two_values receiver x (try_recv mpmc (false ∷ []) full_queue receiver))
    ⊎ Misses 1 full_queue two_values receiver (try_recv mpmc (false ∷ []) full_queue receiver)
try_recv_lem_example =
    try_recv_lem mpmc (false ∷ []) receiver mpmc-IsLawful full_queue-IsLog (inr (inl refl))
      (inl refl)

add_stream_lem_example : Added 1 full_queue two_values receiver (add_stream full_queue receiver)
add_stream_lem_example =
    add_stream_lem full_queue receiver full_queue-IsLog
      (omega arith, (omega arith, (omega arith, tt))) (inr (inl refl))

add_stream-Shared_example :
    Shared mpmc 1 full_queue two_values receiver 20 (false ∷ []) (true ∷ false ∷ [])
add_stream-Shared_example =
    add_stream-Shared mpmc (false ∷ []) (true ∷ false ∷ []) full_queue receiver 20 mpmc-IsLawful
      full_queue-IsLog (omega arith, (omega arith, (omega arith, tt))) (inr (inl refl)) refl
      (inl refl) (inr (inl refl))

do_unsubscribe_lem_example :
    ((full_queue.manager.heap.consumers 1 ≡ 1)
      × Left 1 full_queue two_values receiver (do_unsubscribe full_queue receiver))
    ⊎ ((full_queue.manager.heap.consumers 1 ≢ 1)
        × Stays 1 full_queue two_values receiver (do_unsubscribe full_queue receiver))
do_unsubscribe_lem_example =
    do_unsubscribe_lem full_queue receiver full_queue-IsLog (false, refl) (omega arith) refl

-- Two threads load the last position before the wrap-around; one takes it, and the other the next.
abbrev last : CountedIndex
last = record { val = 2 ^ 63 - 1; mask = 1 }

abbrev first : CountedIndex
first = record { val = 0; mask = 1 }

abbrev second : CountedIndex
second = record { val = 1; mask = 1 }

commits_last : commit last (load_transaction last) 1 false ≡ (none, first)
unfolding commit store_val rm_tag load_transaction
commits_last = refl

fails_last : commit first (load_transaction last) 1 false ≡ (some (load_transaction first), first)
unfolding commit load_transaction
fails_last = refl

commits_first : commit first (load_transaction first) 1 false ≡ (none, second)
unfolding commit store_val rm_tag load_transaction
commits_first = refl

abbrev taken_both : Moving
taken_both = record {
  index = second;
  tries = hold 1 none (
      hold 1 (some (load_transaction first)) (
        hold 0 none (
          hold 1 (some (load_transaction last))
            (hold 0 (some (load_transaction last)) (λ _. none)))));
  taken = (2 ^ 63 - 1) ∷ 0 ∷ [];
}

taken_both_reached : Reach last taken_both
unfolding load_transaction
taken_both_reached =
    later
      (later
        (later (later (later start (loads 0)) (loads 1))
          (commits 0 (load_transaction last) false first refl commits_last))
        (fails 1 (load_transaction last) (load_transaction first) false first refl fails_last))
      (commits 1 (load_transaction first) false second refl commits_first)

Reach-Counted_example : Counted (2 ^ 63 - 1) taken_both
Reach-Counted_example = Reach-Counted (omega arith) taken_both_reached

-- Another thread has put the stream 9 into the group, before the exchange of the first round.
abbrev adds_nine : Interference
adds_nine s = (
  record (s.0) { readers = s.1.heap.next },
  record (s.1) {
    heap = record (s.1.heap) {
      next = s.1.heap.next + 1;
      group = update (s.1.heap.group) (s.1.heap.next) ((s.1.heap.group (s.0.readers)) ++ (9 ∷ []));
    };
  },
)

nine_there : Adds 9 adds_nine
nine_there s =
    rw (update_self (s.1.heap.group) (s.1.heap.next) ((s.1.heap.group (s.0.readers)) ++ (9 ∷ [])))
      (Elem-append_last 9 (s.1.heap.group (s.0.readers)))

adds_nine-IsOrderly : IsOrderly adds_nine
adds_nine-IsOrderly = record {
  next = λ s. omega arith;
  group = λ s p lt. update_ne (s.1.heap.group) (s.1.heap.next) p _ (λ e. omega arith);
  mask = λ s p lt. refl;
  current = λ s lt. omega arith;
}

undisturbed-IsOrderly : IsOrderly undisturbed
undisturbed-IsOrderly = record {
  next = λ s. omega arith;
  group = λ s p lt. refl;
  mask = λ s p lt. refl;
  current = λ s lt. lt;
}

parent-IsPlaced : IsPlaced 1 (on_stream 1) full_queue.tail full_queue.manager
parent-IsPlaced = record {
  small = omega arith;
  wrap = refl;
  pos = omega arith;
  group = omega arith;
}

add_stream_from-Joined_example : Joined 9 (
    add_stream_from
      (adds_nine ∷ undisturbed ∷ [])
      (on_stream 1)
      3
      full_queue.tail
      full_queue.manager)
add_stream_from-Joined_example =
    add_stream_from-Joined (on_stream 1) 9 adds_nine (undisturbed ∷ []) full_queue.tail
      full_queue.manager parent-IsPlaced adds_nine-IsOrderly nine_there
      ((undisturbed-IsOrderly, λ s at. at), tt) (inl (λ s. refl))

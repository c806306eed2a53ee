-- ===== src/Tests/Futures.antt =====
-- The theorems on the futures part, at concrete queues; tasks are numbers.
use multiqueue.Prelude.{
  ℕ, zero, suc, ◌+◌, ◌≡◌, ◌≢◌, refl, ◌⊎◌, inl, inr, List, [], ◌∷◌, true, false, some, none, arith,
  All, get_elem?, length, get_or, ok, err, out_of_steps, wait_called,
}
use multiqueue.AtomicSignal.{signal_of, signal_reads}
use multiqueue.Wait.{Sight, check}
use multiqueue.MultiQueue.Policy.{mpmc, mpmc-IsLawful}
use multiqueue.MultiQueue.State.{MultiQueue, InnerRecv, uni, blank}
use multiqueue.MultiQueue.Recv
use multiqueue.MultiQueue.Blocking.{recv_error}
use multiqueue.MultiQueue.Futures.Wait.{FutWait, push, notify, notify_all}
use multiqueue.MultiQueue.Futures.State.{FutQueue, FutInnerSend, FutInnerRecv}
use multiqueue.MultiQueue.Futures.Send.{Offer, not_ready, start_send}
use multiqueue.MultiQueue.Futures.Recv.{drop_recv, PollTurn, poll_loop, poll, recv}
use multiqueue.MultiQueue.Futures.Steps.{
  Waiter, Waking, changes, locks, parks, drains, Reach, start, later,
}
use multiqueue.Refinement.Log.{position, IsLog}
use multiqueue.Refinement.Signals.{Refreshed}
use multiqueue.Refinement.Futures.Start.{Sinks, Stalls, start_send_lem}
use multiqueue.Refinement.Futures.Polling.{Turns}
use multiqueue.Refinement.Futures.Poll.{polls_lem, poll-hangs}
use multiqueue.Refinement.Futures.Rescue.{Rescued, start_send-Rescued}
use multiqueue.Refinement.Futures.Dropping.{Dropped, drop_recv-Dropped}
use multiqueue.Refinement.Futures.Panics.{Receives, recv_lem}
use multiqueue.Refinement.Futures.NoReader.{start_send-parks}
use multiqueue.Refinement.Futures.Wakeups.{IsEarly, Settles, no_lost_wakeup, notify-Settles}
use multiqueue.Tests.{three_streams, two_values, full_queue, full_queue-IsLog, on_stream, receiver}

-- One spin before the wait, and a parked task.
abbrev waits_with : ℕ → FutWait ℕ
waits_with task = record { spins_first = 1; spins_yield = 0; parked = task ∷ [] }

abbrev full_fut : FutQueue ℕ ℕ
full_fut = record { queue = full_queue; wait = waits_with 7; prod_wait = waits_with 8; woken = [] }

abbrev fut_sender : FutInnerSend
fut_sender = record { writer = record { token = 4; state = uni } }

abbrev alone : Offer ℕ ℕ
alone = record { before = λ s. s; outcomes = false ∷ [] }

abbrev two_offers : List (Offer ℕ ℕ)
two_offers = alone ∷ alone ∷ []

start_send_lem_example :
    Sinks 1 full_fut two_values 30 (start_send mpmc 9 two_offers full_fut fut_sender 30)
    ⊎ Stalls 1 full_fut two_values 30 9 (start_send mpmc 9 two_offers full_fut fut_sender 30)
start_send_lem_example =
    start_send_lem mpmc mpmc-IsLawful 9 two_offers full_fut fut_sender 30
      (record { log = full_queue-IsLog; some_reader = (signal_reads false false).1 }) (omega arith)
      (((λ s. refl), inl refl), (((λ s. refl), inl refl), tt)) (omega arith)

-- The same queue, with no reader left.
abbrev left_fut : FutQueue ℕ ℕ
left_fut = record full_fut {
  queue = record full_queue {
    manager = record (full_queue.manager) { signal = signal_of true true };
  };
}

start_send-parks_example :
    (q : MultiQueue ℕ) × Refreshed left_fut.queue q
    × (start_send mpmc 9 two_offers left_fut fut_sender 30
        ≡ ok (
          record left_fut { queue = q; prod_wait = push 9 left_fut.prod_wait },
          fut_sender,
          ok (not_ready 30),
        ))
start_send-parks_example =
    start_send-parks mpmc 9 two_offers left_fut fut_sender 30 (true, refl)
      (((λ s. refl), inl refl), (((λ s. refl), inl refl), tt)) (omega arith)

-- A time round the loop of `poll` in which nobody else does anything.
abbrev turn : PollTurn ℕ ℕ
turn = record { outcomes = false ∷ []; changes = (λ s. s) ∷ (λ s. s) ∷ [] }

polls_lem_example :
    Turns 1 full_fut two_values receiver 9
      (λ x. x)
      (poll_loop (Recv.try_recv mpmc) 9 (turn ∷ []) full_fut receiver)
      (poll_loop (Recv.try_recv mpmc) 9 [] full_fut)
    × Turns 1 full_fut two_values receiver 9
        (λ x. x + 1)
        (poll_loop (λ _. Recv.try_recv_view mpmc (λ x. x + 1)) 9 (turn ∷ []) full_fut receiver)
        (poll_loop (λ _. Recv.try_recv_view mpmc (λ x. x + 1)) 9 [] full_fut)
polls_lem_example =
    polls_lem mpmc mpmc-IsLawful (λ x. x + 1) 9 turn [] full_fut receiver full_queue-IsLog
      (inr (inl refl))
      (record {
        succeeds = inl refl;
        still = ((λ s. refl), ((λ s. refl), tt));
        enough = omega arith;
      })

-- On stream 0, for which the queue is full.
abbrev slow_receiver : InnerRecv
slow_receiver = record { reader = on_stream 0; token = 5; alive = true }

start_send-Rescued_example :
    Rescued mpmc 1 full_fut two_values 30 9 6 two_offers fut_sender turn [] slow_receiver
start_send-Rescued_example =
    start_send-Rescued mpmc mpmc-IsLawful full_fut 30 9 6 two_offers fut_sender turn []
      slow_receiver (record { log = full_queue-IsLog; some_reader = (signal_reads false false).1 })
      (omega arith) (((λ s. refl), inl refl), (((λ s. refl), inl refl), tt)) (omega arith)
      (inl refl) refl
      (record {
        succeeds = inl refl;
        still = ((λ s. refl), ((λ s. refl), tt));
        enough = omega arith;
      })

drop_recv-Dropped_example :
    ((full_queue.manager.heap.consumers 0 ≡ 1)
      × Dropped 1 full_fut two_values (1 ∷ 2 ∷ []) (drop_recv full_fut slow_receiver))
    ⊎ ((full_queue.manager.heap.consumers 0 ≢ 1)
        × Dropped 1 full_fut two_values (0 ∷ 1 ∷ 2 ∷ []) (drop_recv full_fut slow_receiver))
drop_recv-Dropped_example =
    drop_recv-Dropped full_fut slow_receiver full_queue-IsLog (false, refl) (omega arith) refl

-- On stream 2, which has read all.
abbrev fut_receiver : FutInnerRecv
fut_receiver = record { reader = record { reader = on_stream 2; token = 5; alive = true } }

recv_lem_example :
    ((x : ℕ) × (get_elem? two_values 2 ≡ some x)
      × Receives 1 full_fut two_values fut_receiver x
          (recv mpmc (false ∷ []) full_fut fut_receiver))
    ⊎ (((position full_queue 2).val ≡ length two_values)
        × (full_queue.writers ≡ 0)
        × ((state : FutQueue ℕ ℕ) × (handle : FutInnerRecv) × (recv mpmc
                (false ∷ [])
                full_fut
                fut_receiver
              ≡ ok (state, handle, err recv_error))))
    ⊎ (((position full_queue 2).val ≡ length two_values)
        × (full_queue.writers ≢ 0)
        × (recv mpmc (false ∷ []) full_fut fut_receiver ≡ err wait_called))
recv_lem_example =
    recv_lem mpmc (false ∷ []) full_fut fut_receiver mpmc-IsLawful full_queue-IsLog
      (inr (inr (inl refl))) (inl refl)

-- Two cells, neither written, and three streams at the start.
abbrev empty_fut : FutQueue ℕ ℕ
empty_fut = record full_fut {
  queue = record full_queue {
    head = record { val = 0; mask = 1 };
    cells = blank ∷ blank ∷ [];
    manager = record (full_queue.manager) {
      heap = record three_streams { pos = λ _. record { val = 0; mask = 1 } };
    };
  };
}

empty_fut-IsLog : IsLog 1 empty_fut.queue []
empty_fut-IsLog = record {
  small = omega arith;
  short = omega arith;
  capacity = refl;
  mask = refl;
  counted = refl;
  cells_width = refl;
  idle = full_queue-IsLog.idle;
  holds = λ s lo. absurd (omega arith);
  blanks = λ i le. all_blank i;
  streams = (
    (refl, omega arith, omega arith),
    ((refl, omega arith, omega arith), ((refl, omega arith, omega arith), tt)),
  );
  cache = (omega arith, omega arith);
  behind = (omega arith, (omega arith, (omega arith, tt)));
}
  where
    all_blank : (i : ℕ) → get_or empty_fut.queue.cells i blank ≡ blank
    all_blank zero = refl
    all_blank (suc zero) = refl
    all_blank (suc (suc i)) = refl

poll-hangs_example : poll mpmc 9 (turn ∷ turn ∷ []) empty_fut fut_receiver ≡ err out_of_steps
poll-hangs_example =
    poll-hangs mpmc mpmc-IsLawful 9 (turn ∷ turn ∷ []) empty_fut fut_receiver empty_fut-IsLog
      (inr (inr (inl refl))) (still, (still, tt)) refl (omega arith) (λ e. omega arith)
  where
    still : multiqueue.Refinement.Futures.Polling.IsAlone (waits_with 7) turn
    still = record {
      succeeds = inl refl;
      still = ((λ s. refl), ((λ s. refl), tt));
      enough = omega arith;
    }

-- Nine tasks are more than `notify` takes out at once.
abbrev nine_tasks : FutWait ℕ
nine_tasks = record {
  spins_first = 1;
  spins_yield = 0;
  parked = 1 ∷ 2 ∷ 3 ∷ 4 ∷ 5 ∷ 6 ∷ 7 ∷ 8 ∷ 9 ∷ [];
}

-- A waiter whose cell has the flag of the value before.
abbrev waiter : Waiter ℕ
waiter = record { task = 9; seq = 2; at = 0 }

abbrev unread : ℕ → Sight
unread _ = record { at = 0; wc = 1 }

abbrev written : ℕ → Sight
written _ = record { at = 2; wc = 1 }

unread_early : check 2 (unread 0) ≡ false
unfolding check multiqueue.CountedIndex.rm_tag multiqueue.CountedIndex.past
unread_early = refl

-- The waiter parks while the value is written, and the writer's `notify` comes behind both.
abbrev taken_out : Waking ℕ
taken_out = record {
  sights = written;
  wait = record { spins_first = 1; spins_yield = 0; parked = [] };
  holder = none;
  owed = 0;
  inline_v = waiter ∷ [];
  woken = [];
}

taken_out_reached : Reach 1 0 taken_out
unfolding multiqueue.MultiQueue.Futures.Wait.with_spins
taken_out_reached =
    later
      (later (later (later (start unread) (locks waiter refl unread_early)) (changes written))
        (parks waiter refl))
      (drains refl (omega arith) (omega arith))

-- Another one, which waits for the value after the one that has been written.
abbrev early_waiter : Waiter ℕ
early_waiter = record { task = 8; seq = 3; at = 0 }

written_early : check 3 (written 0) ≡ false
unfolding check multiqueue.CountedIndex.rm_tag multiqueue.CountedIndex.past
written_early = refl

abbrev parked_again : Waking ℕ
parked_again = record taken_out {
  wait = record { spins_first = 1; spins_yield = 0; parked = early_waiter ∷ [] };
}

parked_again_reached : Reach 1 0 parked_again
parked_again_reached =
    later (later taken_out_reached (locks early_waiter refl written_early))
      (parks early_waiter refl)

no_lost_wakeup_example : All (IsEarly parked_again) (early_waiter ∷ [])
no_lost_wakeup_example = no_lost_wakeup parked_again parked_again_reached refl

notify-Settles_example : Settles (record taken_out { owed = 1; holder = some waiter })
notify-Settles_example = notify-Settles (record taken_out { owed = 1; holder = some waiter })

-- ===== src/Tests/Parts.antt =====
-- The theorems on the parts of the queue at concrete arguments: capacities, the counter, positions
-- of streams, a memory manager with a batch pending, and the signal.
use multiqueue.Prelude.{
  ℕ, ◌++◌, ◌+◌, ◌-◌, ◌^◌, ◌≡◌, refl, ◌⊎◌, inl, inr, List, [], ◌∷◌, true, false, none, some, ok,
  arith, All, ◌≢◌, ◌==◌, if◌then◌else◌,
}
use multiqueue.CountedIndex.{initial_queue_flag, past, rm_tag}
use multiqueue.Wait.{Sight, Spins, Moment, check, spin, busy_wait, yielding_wait, blocking_wait}
use multiqueue.Wait.Blocking.{StaysReady, SpinsOut, SleepsOut, blocking_wait-returns}
use multiqueue.Wait.Laws.{IsReady, after_ready, waits_agree, yielding_wait-hangs}
use multiqueue.Prelude.{err, out_of_steps}
use multiqueue.CountedIndex.{
  CountedIndex, Transaction, get_valid_wrap, validate_wrap, matches_previous,
}
use multiqueue.CountedIndex.Wrap.{IsWrapOf, validate_wrap-get_valid_wrap}
use multiqueue.AtomicSignal.{signal_of}
use multiqueue.Memory.Inner.{delete_all}
use multiqueue.Memory.{MemoryManager, free}
use multiqueue.Memory.Laws
use multiqueue.Memory.Laws.{handled, free-conserves, remove_token-conserves, free_grace}
use multiqueue.ReadCursor.Group.{Glimpse, group_max_diff, get_max_diff, max_diff_from}
use multiqueue.ReadCursor.Distance.{IsMaxDiff, max_diff_from-IsMaxDiff, max_diff_from-none}
use multiqueue.Tests.{three_streams}

validate_wrap-get_valid_wrap_example :
    IsWrapOf 5 (get_valid_wrap 5) × (validate_wrap (get_valid_wrap 5) ≡ ok tt)
validate_wrap-get_valid_wrap_example = validate_wrap-get_valid_wrap 5 (omega arith)

-- A writer at 2 with readers at 0, 1 and 2.
max_diff_from-IsMaxDiff_example :
    (d : ℕ) × (max_diff_from three_streams.pos 2 0 (0 ∷ 1 ∷ 2 ∷ []) ≡ some d)
    × IsMaxDiff three_streams.pos 2 0 (0 ∷ 1 ∷ 2 ∷ []) d
max_diff_from-IsMaxDiff_example =
    max_diff_from-IsMaxDiff three_streams.pos 2 0 (0 ∷ 1 ∷ 2 ∷ []) (omega arith)
      ((omega arith, omega arith), ((omega arith, omega arith), ((omega arith, omega arith), tt)))

-- A writer whose counter has come round to 0, with a reader at the largest position.
abbrev before_wrap : ℕ → CountedIndex
before_wrap s = record { val = 2 ^ 63 - 1; mask = 1 }

max_diff_from-none_example : max_diff_from before_wrap 0 0 (0 ∷ []) ≡ none
max_diff_from-none_example =
    max_diff_from-none before_wrap 0 0 0 (0 ∷ []) (omega arith) (omega arith) (omega arith)
      (inl refl)

-- In the first round the group was exchanged, in the second not.
abbrev two_rounds : List Glimpse
two_rounds =
    record { first_ptr = 3; heap = three_streams; second_ptr = 4 }
    ∷ record { first_ptr = 4; heap = three_streams; second_ptr = 4 }
    ∷ []

two_rounds_run : get_max_diff two_rounds 2 ≡ ok (some 2)
unfolding get_max_diff group_max_diff max_diff_from multiqueue.CountedIndex.past
two_rounds_run = refl

-- Two handles that have been seen at epoch 1, and a pointer pending since epoch 0.
abbrev pending : MemoryManager
pending = record {
  inner = record { tokens = 4 ∷ 5 ∷ []; tofree = record { mem = 9 } ∷ []; epoch = 0 };
  wait_to_free = [];
  epoch = 1;
  signal = signal_of true false;
  heap = record three_streams { epochs = λ _. 1 };
}

pending-IsValid : Laws.IsValid pending
pending-IsValid = record { word = omega arith; drained = inr (λ e. omega (arith, e)) }

free_grace_example :
    ((free true true 7 pending).heap ≡ pending.heap)
    ⊎ ((pending.inner.tokens ≢ [])
        × All (λ t. pending.heap.epochs t ≡ pending.epoch) pending.inner.tokens
        × ((free true true 7 pending).heap ≡ delete_all pending.inner.tofree pending.heap))
free_grace_example = free_grace true true 7 pending

free-conserves_example :
    Laws.IsValid (free true true 7 pending)
    × ((p : ℕ)
        → handled p (free true true 7 pending) ≡ handled p pending + (if 7 == p then 1 else 0))
free-conserves_example = free-conserves true true 7 pending pending-IsValid

-- The flag is behind, then has reached the count.
abbrev three_sights : List Sight
three_sights =
    record { at = 0; wc = 1 } ∷ record { at = 1; wc = 1 } ∷ record { at = 1; wc = 0 } ∷ []

three_sights-IsReady : IsReady 1 three_sights
unfolding check past rm_tag
three_sights-IsReady = inr (inl refl)

abbrev few_spins : Spins
few_spins = record { spins_first = 0; spins_yield = 1 }

waits_agree_example :
    (busy_wait 1 three_sights ≡ ok (after_ready 1 three_sights))
    × (yielding_wait 4 few_spins 1 three_sights ≡ ok (after_ready 1 three_sights))
waits_agree_example = waits_agree few_spins 1 three_sights (omega arith) three_sights-IsReady

abbrev asleep_once : List Moment
asleep_once = record { sight = record { at = 0; wc = 1 }; notified = false } ∷ []

abbrev then_notified : List Moment
then_notified =
    record { sight = record { at = 1; wc = 1 }; notified = false }
    ∷ record { sight = record { at = 1; wc = 1 }; notified = true }
    ∷ []

then_notified-StaysReady : StaysReady 1 then_notified
unfolding check past rm_tag
then_notified-StaysReady = (refl, (refl, tt))

abbrev one_sight : List Sight
one_sight = record { at = 0; wc = 1 } ∷ []

blocking_wait-returns_example :
    SpinsOut 1 one_sight
      (asleep_once ++ then_notified)
      (blocking_wait few_spins 1 one_sight (asleep_once ++ then_notified))
    ⊎ SleepsOut 1
        (asleep_once ++ then_notified)
        (blocking_wait few_spins 1 one_sight (asleep_once ++ then_notified))
blocking_wait-returns_example =
    blocking_wait-returns few_spins 1 one_sight asleep_once then_notified (omega arith)
      then_notified-StaysReady (inr (inl refl))

first_behind :
    spin 1 1 three_sights ≡ ok (false, record { at = 1; wc = 1 } ∷ record { at = 1; wc = 0 } ∷ [])
unfolding spin check past rm_tag
first_behind = refl

yielding_wait-hangs_example :
    yielding_wait 100 (record { spins_first = 1; spins_yield = 0 }) 1 three_sights
    ≡ err out_of_steps
yielding_wait-hangs_example = yielding_wait-hangs 100 1 1 three_sights _ first_behind

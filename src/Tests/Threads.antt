-- ===== src/Tests/Threads.antt =====
-- A run of three threads on the queue of two cells: a consumer of stream 0 takes the value 10, a sender
-- writes 30 in its place, and a consumer of stream 1 has counted itself at the cell of 20.
use multiqueue.Prelude.{
  ℕ, ◌+◌, ◌%◌, ◌^◌, ◌<◌, ◌≡◌, ◌≢◌, refl, ◌⊎◌, inl, inr, List, [], ◌∷◌, Option, none, some, arith,
  All, false,
}
use multiqueue.CountedIndex
use multiqueue.CountedIndex.{CountedIndex, Transaction}
use multiqueue.ReadCursor.Attempt
use multiqueue.ReadCursor.Attempt.{Reader, multi, ReadAttempt}
use multiqueue.Heap.{update}
use multiqueue.MultiQueue.Policy.{QueueRw, IsLawful, bcast, bcast-IsLawful}
use multiqueue.MultiQueue.Recv.{with_pos, inc_ref, dec_ref}
use multiqueue.ReadCursor.Group.{get_max_diff, group_max_diff, max_diff_from}
use multiqueue.MultiQueue.Send.{reload_tail_multi}
use multiqueue.Refinement.Log.{readers, position}
use multiqueue.Refinement.Threads.Sound.{view, Owns, Published, Follows}
use multiqueue.Refinement.Threads.Counts.{bcast-IsCounting}
use multiqueue.Refinement.Threads.Delivery.{Reach-Follows, Reach-Held, Reach-Exclusive}
use multiqueue.Refinement.Threads.Alone.{Finishes}
use multiqueue.Refinement.Threads.Consuming.{Gives}
use multiqueue.Refinement.Threads.Receiving.{consumer-Finishes}
use multiqueue.Refinement.Threads.Progress.{Adds, sender-Finishes}
use multiqueue.Refinement.Threads.Cloning.{Reach-Cloned}
use multiqueue.MultiQueue.Threads.{
  Pc, idle, loaded, stale, roomy, unread, claimed, written, attempted, seen, counted, current,
  taken, released, Shared, System, with_queue, put_val, begins_send, seems_full, finds_room,
  is_unread, claims, writes, begins_recv, sees, counts, still_there, takes, releases, gives, pick,
  Reach, start, later,
}
use multiqueue.Tests.{full_queue, full_queue-IsLog, on_stream, two_values}

abbrev policy : QueueRw ℕ
policy = bcast (λ v. v)

-- No stream has a sole consumer that knows of it.
abbrev shared_streams : ℕ → Option ℕ
shared_streams s = none

abbrev attempt : ℕ → ReadAttempt
attempt n = record { linked = record { loaded_vals = n; mask = 1 }; state = multi }

abbrev Run : System ℕ → Type 0
Run s = Reach policy shared_streams 3 full_queue two_values s

abbrev moved : System ℕ → ℕ → Shared ℕ → Pc ℕ → System ℕ
moved s i m x = record { shared = m; pc = update s.pc i x }

abbrev at_start : System ℕ
at_start = record {
  shared = record { queue = full_queue; sent = two_values; given = λ _. [] };
  pc = λ _. idle;
}

-- The consumer of stream 0.
abbrev has_attempted : System ℕ
has_attempted = moved at_start 1 at_start.shared (attempted (on_stream 0) (attempt 0))

abbrev has_seen : System ℕ
has_seen = moved has_attempted 1 has_attempted.shared (seen (on_stream 0) (attempt 0))

abbrev with_refs : Shared ℕ → List ℕ → Shared ℕ
with_refs m refs = with_queue m (record (m.queue) { refs = refs })

abbrev has_counted : System ℕ
has_counted =
    moved has_seen 1 (with_refs has_seen.shared (1 ∷ 0 ∷ [])) (counted (on_stream 0) (attempt 0))

abbrev is_current : System ℕ
is_current = moved has_counted 1 has_counted.shared (current (on_stream 0) (attempt 0))

abbrev has_taken : System ℕ
has_taken = moved is_current 1 is_current.shared (taken (on_stream 0) (attempt 0) 10)

abbrev has_released : System ℕ
has_released =
    moved has_taken 1 (with_refs has_taken.shared (0 ∷ 0 ∷ []))
      (released (on_stream 0) (attempt 0) 10)

abbrev has_given : System ℕ
has_given =
    moved has_released 1
      (record (has_released.shared) {
        queue = with_pos has_released.shared.queue 0 (record { val = 1; mask = 1 });
        given = update has_released.shared.given 0 (10 ∷ []);
      })
      idle

-- The sender.
abbrev transaction : Transaction
transaction = record { loaded_vals = 2; mask = 1 }

abbrev has_loaded : System ℕ
has_loaded = moved has_given 0 has_given.shared (loaded transaction 30)

abbrev finds_full : System ℕ
finds_full = moved has_loaded 0 has_loaded.shared (stale transaction 30 0)

abbrev has_reloaded : System ℕ
has_reloaded =
    moved finds_full 0
      (with_queue finds_full.shared (record (finds_full.shared.queue) { tail_cache = 1 }))
      (roomy transaction 30)

abbrev has_checked : System ℕ
has_checked = moved has_reloaded 0 has_reloaded.shared (unread transaction 30)

abbrev has_claimed : System ℕ
has_claimed =
    moved has_checked 0
      (record (has_checked.shared) {
        queue = record (has_checked.shared.queue) { head = record { val = 3; mask = 1 } };
        sent = 10 ∷ 20 ∷ 30 ∷ [];
      })
      (claimed transaction 30)

abbrev has_written : System ℕ
has_written =
    moved has_claimed 0
      (with_queue has_claimed.shared (record (has_claimed.shared.queue) {
        cells = record { val = some 30; wraps = 0 } ∷ record { val = some 20; wraps = 1 } ∷ [];
        dropped = some 10 ∷ [];
      }))
      (written transaction 30)

-- The consumer of stream 1.
abbrev attempts_too : System ℕ
attempts_too = moved has_written 2 has_written.shared (attempted (on_stream 1) (attempt 1))

abbrev sees_too : System ℕ
sees_too = moved attempts_too 2 attempts_too.shared (seen (on_stream 1) (attempt 1))

abbrev counts_too : System ℕ
counts_too =
    moved sees_too 2 (with_refs sees_too.shared (0 ∷ 1 ∷ [])) (counted (on_stream 1) (attempt 1))

abbrev all_at_work : System ℕ
all_at_work = moved counts_too 2 counts_too.shared (current (on_stream 1) (attempt 1))

has_attempted-Run : Run has_attempted
unfolding CountedIndex.load_transaction
has_attempted-Run = later start (pick 1 (omega arith) (begins_recv (on_stream 0) (inl refl) refl))

has_seen-Run : Run has_seen
unfolding Attempt.get CountedIndex.get CountedIndex.rm_tag
has_seen-Run = later has_attempted-Run (pick 1 (omega arith) (sees refl))

has_counted-Run : Run has_counted
unfolding Attempt.get CountedIndex.get inc_ref bcast
has_counted-Run = later has_seen-Run (pick 1 (omega arith) (counts refl))

is_current-Run : Run is_current
unfolding Attempt.get CountedIndex.get
is_current-Run = later has_counted-Run (pick 1 (omega arith) (still_there refl))

has_taken-Run : Run has_taken
unfolding Attempt.get CountedIndex.get bcast
has_taken-Run = later is_current-Run (pick 1 (omega arith) (takes 10 refl))

has_released-Run : Run has_released
unfolding Attempt.get CountedIndex.get dec_ref bcast
has_released-Run = later has_taken-Run (pick 1 (omega arith) releases)

has_given-Run : Run has_given
unfolding Attempt.commit_attempt CountedIndex.commit CountedIndex.store_val CountedIndex.rm_tag
has_given-Run =
    later has_released-Run (pick 1 (omega arith) (gives false (record { val = 1; mask = 1 }) refl))

has_loaded-Run : Run has_loaded
unfolding CountedIndex.load_transaction
has_loaded-Run = later has_given-Run (pick 0 (omega arith) (begins_send 30))

finds_full-Run : Run finds_full
unfolding CountedIndex.matches_previous CountedIndex.rm_tag
finds_full-Run = later has_loaded-Run (pick 0 (omega arith) (seems_full refl))

has_reloaded-Run : Run has_reloaded
unfolding CountedIndex.matches_previous CountedIndex.rm_tag CountedIndex.get
    CountedIndex.get_previous CountedIndex.past reload_tail_multi get_max_diff group_max_diff
    max_diff_from
has_reloaded-Run = later finds_full-Run (
    pick 0 (omega arith)
      (finds_room (record (finds_full.shared.queue) { tail_cache = 1 }) 1 refl refl))

has_checked-Run : Run has_checked
unfolding CountedIndex.get bcast
has_checked-Run = later has_reloaded-Run (pick 0 (omega arith) (is_unread refl))

has_claimed-Run : Run has_claimed
unfolding CountedIndex.commit CountedIndex.store_val CountedIndex.rm_tag
has_claimed-Run =
    later has_checked-Run (pick 0 (omega arith) (claims false (record { val = 3; mask = 1 }) refl))

has_written-Run : Run has_written
unfolding CountedIndex.get CountedIndex.is_tagged put_val bcast
has_written-Run = later has_claimed-Run (pick 0 (omega arith) writes)

attempts_too-Run : Run attempts_too
unfolding CountedIndex.load_transaction
attempts_too-Run =
    later has_written-Run (pick 2 (omega arith) (begins_recv (on_stream 1) (inr (inl refl)) refl))

sees_too-Run : Run sees_too
unfolding Attempt.get CountedIndex.get CountedIndex.rm_tag
sees_too-Run = later attempts_too-Run (pick 2 (omega arith) (sees refl))

counts_too-Run : Run counts_too
unfolding Attempt.get CountedIndex.get inc_ref bcast
counts_too-Run = later sees_too-Run (pick 2 (omega arith) (counts refl))

all_at_work-Run : Run all_at_work
unfolding Attempt.get CountedIndex.get
all_at_work-Run = later counts_too-Run (pick 2 (omega arith) (still_there refl))

lawful : IsLawful policy
lawful = bcast-IsLawful (λ (v : ℕ). v) (λ v. refl)

Reach-Follows_example :
    All (Follows (λ r. (position full_queue r).val) (view all_at_work.shared)) (readers full_queue)
Reach-Follows_example =
    Reach-Follows lawful full_queue-IsLog (0, inl refl) all_at_work-Run (omega arith)

Reach-Held_example :
    (2 < (position all_at_work.shared.queue 1).val + 2 ^ 1)
    × (Published 1 (view all_at_work.shared) 2 ⊎ ((i : ℕ) × Owns (all_at_work.pc i) 2))
Reach-Held_example =
    Reach-Held lawful full_queue-IsLog (0, inl refl) all_at_work-Run (omega arith) 1 2
      (inr (inl refl)) (omega arith) (omega arith)

Reach-Exclusive_example : 2 % 2 ^ 1 ≢ 1 % 2 ^ 1
Reach-Exclusive_example =
    Reach-Exclusive lawful full_queue-IsLog (0, inl refl) all_at_work-Run (omega arith) 0 2 2 1
      (omega arith) refl (refl, refl)

Reach-Cloned_example :
    Published 1 (view all_at_work.shared) 1
    × ¬ ((i : ℕ) × (c : ℕ) × Owns (all_at_work.pc i) c × (c % 2 ^ 1 ≡ 1 % 2 ^ 1))
Reach-Cloned_example =
    Reach-Cloned lawful (bcast-IsCounting (λ (v : ℕ). v)) (omega arith) full_queue-IsLog
      (0, inl refl) 2 (on_stream 1) (attempt 1) all_at_work-Run (omega arith) (omega arith) refl

sender-Finishes_example :
    Finishes policy shared_streams 0 (Adds finds_full.shared.sent 30) finds_full
sender-Finishes_example = sender-Finishes policy shared_streams 0 finds_full 30 refl

consumer-Finishes_example : Finishes policy shared_streams 2 (Gives [] 1) all_at_work
consumer-Finishes_example =
    consumer-Finishes 2 (on_stream 1) lawful full_queue-IsLog (0, inl refl) all_at_work-Run
      (omega arith) refl

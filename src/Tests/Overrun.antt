-- ===== src/Tests/Overrun.antt =====
-- A run on a queue of one cell whose last stream has just been taken out of the group: no stream is left
-- to hold the senders back, and two of them have claimed the same cell at once.
use multiqueue.Prelude.{ℕ, ◌+◌, ◌-◌, ◌%◌, ◌≡◌, refl, [], ◌∷◌, ◌++◌, none, some, arith, false, ok}
use multiqueue.CountedIndex
use multiqueue.CountedIndex.{CountedIndex, Transaction}
use multiqueue.Heap.{update}
use multiqueue.ReadCursor.Group.{get_max_diff, group_max_diff, max_diff_from}
use multiqueue.MultiQueue.Policy.{QueueRw, bcast}
use multiqueue.MultiQueue.State.{MultiQueue}
use multiqueue.MultiQueue.Send.{reload_tail_multi}
use multiqueue.MultiQueue.Threads.{
  idle, loaded, stale, roomy, unread, claimed, System, with_queue, begins_send, seems_full,
  finds_room, is_unread, claims, pick, Reach, start, later,
}
use multiqueue.Refinement.Threads.Sound.{Owns}
use multiqueue.Tests.{full_queue}

abbrev policy : QueueRw ℕ
policy = bcast (λ v. v)

abbrev no_streams : MultiQueue ℕ
no_streams = record full_queue {
  head = record { val = 1; mask = 0 };
  cells = record { val = some 10; wraps = 0 } ∷ [];
  refs = 0 ∷ [];
  capacity = 1;
  manager = record (full_queue.manager) {
    heap = record (full_queue.manager.heap) { group = λ _. [] };
  };
}

abbrev Run : System ℕ → Type 0
Run s = Reach policy (λ _. none) 2 no_streams (10 ∷ []) s

abbrev at_start : System ℕ
at_start = record {
  shared = record { queue = no_streams; sent = 10 ∷ []; given = λ _. [] };
  pc = λ _. idle;
}

abbrev transaction : ℕ → Transaction
transaction n = record { loaded_vals = n; mask = 0 }

-- The states of thread i between the load of the head, which is n, and its claim.
abbrev has_loaded : System ℕ → ℕ → ℕ → ℕ → System ℕ
has_loaded s i n val = record { shared = s.shared; pc = update s.pc i (loaded (transaction n) val) }

abbrev finds_full : System ℕ → ℕ → ℕ → ℕ → System ℕ
finds_full s i n val = record {
  shared = s.shared;
  pc = update s.pc i (stale (transaction n) val (n - 1));
}

abbrev has_reloaded : System ℕ → ℕ → ℕ → ℕ → System ℕ
has_reloaded s i n val = record {
  shared = with_queue s.shared (record (s.shared.queue) { tail_cache = n });
  pc = update s.pc i (roomy (transaction n) val);
}

abbrev has_checked : System ℕ → ℕ → ℕ → ℕ → System ℕ
has_checked s i n val = record {
  shared = s.shared;
  pc = update s.pc i (unread (transaction n) val);
}

abbrev has_claimed : System ℕ → ℕ → ℕ → ℕ → System ℕ
has_claimed s i n val = record {
  shared = record (s.shared) {
    queue = record (s.shared.queue) { head = record { val = n + 1; mask = 0 } };
    sent = s.shared.sent ++ (val ∷ []);
  };
  pc = update s.pc i (claimed (transaction n) val);
}

abbrev first_loaded : System ℕ
first_loaded = has_loaded at_start 0 1 20

abbrev first_stale : System ℕ
first_stale = finds_full first_loaded 0 1 20

abbrev first_roomy : System ℕ
first_roomy = has_reloaded first_stale 0 1 20

abbrev first_unread : System ℕ
first_unread = has_checked first_roomy 0 1 20

abbrev first_claimed : System ℕ
first_claimed = has_claimed first_unread 0 1 20

abbrev second_loaded : System ℕ
second_loaded = has_loaded first_claimed 1 2 30

abbrev second_stale : System ℕ
second_stale = finds_full second_loaded 1 2 30

abbrev second_roomy : System ℕ
second_roomy = has_reloaded second_stale 1 2 30

abbrev second_unread : System ℕ
second_unread = has_checked second_roomy 1 2 30

abbrev both_claimed : System ℕ
both_claimed = has_claimed second_unread 1 2 30

first_stale-Run : Run first_stale
unfolding CountedIndex.load_transaction CountedIndex.matches_previous CountedIndex.rm_tag
first_stale-Run =
    later (later start (pick 0 (omega arith) (begins_send 20)))
      (pick 0 (omega arith) (seems_full refl))

first_roomy-Run : Run first_roomy
unfolding CountedIndex.matches_previous CountedIndex.rm_tag CountedIndex.get
    CountedIndex.get_previous reload_tail_multi get_max_diff group_max_diff max_diff_from
first_roomy-Run = later first_stale-Run (
    pick 0 (omega arith)
      (finds_room (record (first_stale.shared.queue) { tail_cache = 1 }) 1 refl refl))

first_unread-Run : Run first_unread
unfolding CountedIndex.get bcast
first_unread-Run = later first_roomy-Run (pick 0 (omega arith) (is_unread refl))

first_claimed-Run : Run first_claimed
unfolding CountedIndex.commit CountedIndex.store_val CountedIndex.rm_tag
first_claimed-Run =
    later first_unread-Run (pick 0 (omega arith) (claims false (record { val = 2; mask = 0 }) refl))

second_loaded-Run : Run second_loaded
unfolding CountedIndex.load_transaction
second_loaded-Run = later first_claimed-Run (pick 1 (omega arith) (begins_send 30))

second_stale-Run : Run second_stale
unfolding CountedIndex.matches_previous CountedIndex.rm_tag
second_stale-Run = later second_loaded-Run (pick 1 (omega arith) (seems_full refl))

second_reload :
    reload_tail_multi second_stale.shared.queue 1 2
    ≡ ok (record (second_stale.shared.queue) { tail_cache = 2 }, 2)
unfolding CountedIndex.get_previous reload_tail_multi get_max_diff group_max_diff max_diff_from
second_reload = refl

second_room : CountedIndex.matches_previous (transaction 2) 2 ≡ false
unfolding CountedIndex.matches_previous CountedIndex.rm_tag
second_room = refl

second_roomy-Run : Run second_roomy
unfolding CountedIndex.get
second_roomy-Run = later second_stale-Run (
    pick 1 (omega arith) (
      finds_room {t = transaction 2} {val = 30} {tail_cache = 1}
        (record (second_stale.shared.queue) { tail_cache = 2 }) 2 second_reload second_room))

second_unread-Run : Run second_unread
unfolding CountedIndex.get bcast
second_unread-Run = later second_roomy-Run (pick 1 (omega arith) (is_unread refl))

both_claimed-Run : Run both_claimed
unfolding CountedIndex.commit CountedIndex.store_val CountedIndex.rm_tag
both_claimed-Run =
    later second_unread-Run
      (pick 1 (omega arith) (claims false (record { val = 3; mask = 0 }) refl))

-- Thread 0 has still to write its value to the cell, and thread 1 is about to write to it, too.
overrun :
    Run both_claimed × Owns (both_claimed.pc 0) 1 × Owns (both_claimed.pc 1) 2 × (1 % 1 ≡ 2 % 1)
overrun = (both_claimed-Run, refl, refl, omega arith)

-- ===== src/MultiQueue/Threads.antt =====
-- `try_send_multi` and `try_recv` of src/multiqueue.rs as steps of threads that run side by side on
-- one queue: a step is one access to what the threads share, but for three that are several: the
-- reload of the tail; `put_val`, which reads the old flag and value and writes the new value; and
-- `tries_again`, which takes the count of readers down and loads the position once more. The group of
-- streams and the counts of consumers stay as they are meanwhile.
use multiqueue.Prelude.{
  ℕ, ◌<◌, ◌≡◌, List, [], ◌∷◌, ◌++◌, Bool, true, false, not, ◌&&◌, Option, none, some, ok, ◌==◌,
  if◌then◌else◌, get_or, set, Elem,
}
use multiqueue.CountedIndex
use multiqueue.CountedIndex.{CountedIndex, Transaction, is_tagged, rm_tag, matches_previous}
use multiqueue.Heap.{update}
use multiqueue.ReadCursor.Attempt
use multiqueue.ReadCursor.Attempt.{Reader, ReaderState, single, multi, ReadAttempt}
use multiqueue.MultiQueue.Policy.{QueueRw}
use multiqueue.MultiQueue.State.{MultiQueue, blank}
use multiqueue.MultiQueue.Send.{reload_tail_multi}
use multiqueue.MultiQueue.Recv.{with_pos, inc_ref, dec_ref}

-- Where a thread stands, with the local variables that are live there.
pub data Pc {ℓ} (T : Type ℓ) : Type ℓ where
  idle : Pc T
  -- `try_send_multi`: at the head of the loop
  loaded : Transaction → T → Pc T
  -- the tail loaded says that the queue is full
  stale : Transaction → T → ℕ → Pc T
  -- before `check_ref`, before the commit, before the write of the value, and before that of the flag
  roomy : Transaction → T → Pc T
  unread : Transaction → T → Pc T
  claimed : Transaction → T → Pc T
  written : Transaction → T → Pc T
  -- `try_recv`: at the head of the loop
  attempted : Reader → ReadAttempt → Pc T
  -- before `inc_ref`, before `load_count`, before `get_val`
  seen : Reader → ReadAttempt → Pc T
  counted : Reader → ReadAttempt → Pc T
  current : Reader → ReadAttempt → Pc T
  -- before the `dec_ref` of a reader that was too late
  lapsed : Reader → ReadAttempt → Pc T
  -- before the other `dec_ref`, and before the commit
  taken : Reader → ReadAttempt → T → Pc T
  released : Reader → ReadAttempt → T → Pc T

-- What the threads share, with what they have done so far: the values sent, in the order of the
-- commits, and the values that each stream gave out.
pub record Shared {ℓ} (T : Type ℓ) : Type ℓ where
  pub queue : MultiQueue T
  pub sent : List T
  pub given : ℕ → List T

-- A thread uses the attempts that do not compare only on a stream of which it is the sole consumer.
abbrev pub MayAttempt : (ℕ → Option ℕ) → ℕ → Reader → Type 0
MayAttempt sole thread r = elim r.state [
  | single ↦ sole r.pos ≡ some thread
  | multi ↦ sole r.pos ≡ none
]

-- The cell that a transaction names.
abbrev pub cell_of : Transaction → ℕ
cell_of t = (CountedIndex.get t).0

pub record System {ℓ} (T : Type ℓ) : Type ℓ where
  pub shared : Shared T
  pub pc : ℕ → Pc T

module _ {ℓ} {T : Type ℓ} where
  -- `ptr::write`, with the value that it takes the place of destroyed behind it.
  unfoldable pub put_val : QueueRw T → MultiQueue T → ℕ → T → MultiQueue T
  put_val p q chead val =
      let cell = get_or q.cells chead blank in
      record q {
        cells = set q.cells chead (record { val = some val; wraps = cell.wraps });
        dropped =
            if p.do_drop && not (is_tagged cell.wraps) then cell.val ∷ q.dropped else q.dropped;
      }

  -- `write_cell.wraps.store`
  unfoldable pub publish : MultiQueue T → ℕ → ℕ → MultiQueue T
  publish q chead wrap_valid_tag = record q {
    cells =
        set q.cells chead
          (record { val = (get_or q.cells chead blank).val; wraps = wrap_valid_tag });
  }

  abbrev pub with_queue : Shared T → MultiQueue T → Shared T
  with_queue m q = record m { queue = q }

  -- A step of one thread. Which error a call that fails returns is left out, with the loads that decide
  -- on it. The counts of consumers do not change, so `is_single` agrees with the attempt's state. Either
  -- outcome of a weak compare-exchange may come about on equal values.
  pub data Move (p : QueueRw T) (sole : ℕ → Option ℕ) (thread : ℕ) (m : Shared T)
      : Pc T → Shared T → Pc T → Type ℓ where
    begins_send :
        (val : T)
        → Move p sole thread m idle m (loaded (CountedIndex.load_transaction m.queue.head) val)
    has_room :
        {t : Transaction} {val : T}
        → matches_previous t m.queue.tail_cache ≡ false
        → Move p sole thread m (loaded t val) m (roomy t val)
    seems_full :
        {t : Transaction} {val : T}
        → matches_previous t m.queue.tail_cache ≡ true
        → Move p sole thread m (loaded t val) m (stale t val m.queue.tail_cache)
    stays_full :
        {t : Transaction} {val : T} {tail_cache : ℕ} (q : MultiQueue T) (new_tail : ℕ)
        → reload_tail_multi m.queue tail_cache (CountedIndex.get t).1 ≡ ok (q, new_tail)
        → matches_previous t new_tail ≡ true
        → Move p sole thread m (stale t val tail_cache) (with_queue m q) idle
    finds_room :
        {t : Transaction} {val : T} {tail_cache : ℕ} (q : MultiQueue T) (new_tail : ℕ)
        → reload_tail_multi m.queue tail_cache (CountedIndex.get t).1 ≡ ok (q, new_tail)
        → matches_previous t new_tail ≡ false
        → Move p sole thread m (stale t val tail_cache) (with_queue m q) (roomy t val)
    is_unread :
        {t : Transaction} {val : T}
        → p.check_ref (get_or m.queue.refs (cell_of t) 0) ≡ true
        → Move p sole thread m (roomy t val) m (unread t val)
    is_read :
        {t : Transaction} {val : T}
        → p.check_ref (get_or m.queue.refs (cell_of t) 0) ≡ false
        → Move p sole thread m (roomy t val) m idle
    loses :
        {t : Transaction} {val : T} (weak : Bool) (again : Transaction) (head : CountedIndex)
        → CountedIndex.commit m.queue.head t 1 weak ≡ (some again, head)
        → Move p sole thread m
            (unread t val)
            (with_queue m (record (m.queue) { head = head }))
            (loaded again val)
    claims :
        {t : Transaction} {val : T} (weak : Bool) (head : CountedIndex)
        → CountedIndex.commit m.queue.head t 1 weak ≡ (none, head)
        → Move p sole thread m
            (unread t val)
            (record m { queue = record (m.queue) { head = head }; sent = m.sent ++ (val ∷ []) })
            (claimed t val)
    writes :
        {t : Transaction} {val : T}
        → Move p sole thread m
            (claimed t val)
            (with_queue m (put_val p m.queue (cell_of t) val))
            (written t val)
    publishes :
        {t : Transaction} {val : T}
        → Move p sole thread m
            (written t val)
            (with_queue m (publish m.queue (cell_of t) (CountedIndex.get t).1))
            idle
    begins_recv :
        (r : Reader)
        → Elem r.pos (m.queue.manager.heap.group m.queue.tail.readers)
        → MayAttempt sole thread r
        → Move p sole thread m idle m (
            attempted r (record {
              linked = CountedIndex.load_transaction (m.queue.manager.heap.pos r.pos);
              state = r.state;
            }))
    finds_none :
        {r : Reader} {a : ReadAttempt}
        → (rm_tag (get_or m.queue.cells (Attempt.get a).0 blank).wraps == (Attempt.get a).1) ≡ false
        → Move p sole thread m (attempted r a) m idle
    sees :
        {r : Reader} {a : ReadAttempt}
        → (rm_tag (get_or m.queue.cells (Attempt.get a).0 blank).wraps == (Attempt.get a).1) ≡ true
        → Move p sole thread m (attempted r a) m (seen r a)
    takes_alone :
        {r : Reader} {a : ReadAttempt} (val : T)
        → a.state ≡ single
        → (get_or m.queue.cells (Attempt.get a).0 blank).val ≡ some val
        → Move p sole thread m (seen r a) m (released r a (p.get_val val))
    counts :
        {r : Reader} {a : ReadAttempt}
        → a.state ≡ multi
        → Move p sole thread m
            (seen r a)
            (with_queue m (inc_ref p m.queue (Attempt.get a).0))
            (counted r a)
    still_there :
        {r : Reader} {a : ReadAttempt}
        → (Attempt.load_count m.queue.manager.heap r == (Attempt.get a).1) ≡ true
        → Move p sole thread m (counted r a) m (current r a)
    comes_late :
        {r : Reader} {a : ReadAttempt}
        → (Attempt.load_count m.queue.manager.heap r == (Attempt.get a).1) ≡ false
        → Move p sole thread m (counted r a) m (lapsed r a)
    tries_again :
        {r : Reader} {a : ReadAttempt}
        → Move p sole thread m
            (lapsed r a)
            (with_queue m (dec_ref p m.queue (Attempt.get a).0))
            (attempted r (Attempt.reload (m.queue.manager.heap.pos r.pos) a))
    takes :
        {r : Reader} {a : ReadAttempt} (val : T)
        → (get_or m.queue.cells (Attempt.get a).0 blank).val ≡ some val
        → Move p sole thread m (current r a) m (taken r a (p.get_val val))
    releases :
        {r : Reader} {a : ReadAttempt} {val : T}
        → Move p sole thread m
            (taken r a val)
            (with_queue m (dec_ref p m.queue (Attempt.get a).0))
            (released r a val)
    misses :
        {r : Reader} {a : ReadAttempt} {val : T} (weak : Bool) (again : ReadAttempt)
        (pos : CountedIndex)
        → Attempt.commit_attempt (m.queue.manager.heap.pos r.pos) a 1 weak ≡ (some again, pos)
        → Move p sole thread m
            (released r a val)
            (with_queue m (with_pos m.queue r.pos pos))
            (attempted r again)
    gives :
        {r : Reader} {a : ReadAttempt} {val : T} (weak : Bool) (pos : CountedIndex)
        → Attempt.commit_attempt (m.queue.manager.heap.pos r.pos) a 1 weak ≡ (none, pos)
        → Move p sole thread m
            (released r a val)
            (record m {
              queue = with_pos m.queue r.pos pos;
              given = update m.given r.pos (m.given r.pos ++ (val ∷ []));
            })
            idle

  -- A step of one of the threads 0, 1, …
  pub data Step (p : QueueRw T) (sole : ℕ → Option ℕ) (threads : ℕ) (s : System T)
      : System T → Type ℓ where
    pick :
        (thread : ℕ) {m : Shared T} {pc : Pc T}
        → thread < threads
        → Move p sole thread s.shared (s.pc thread) m pc
        → Step p sole threads s (record { shared = m; pc = update s.pc thread pc })

  -- The states that the threads can get into from a queue on which nobody is at work.
  pub data Reach (p : QueueRw T) (sole : ℕ → Option ℕ) (threads : ℕ) (q : MultiQueue T)
      (sent : List T) : System T → Type ℓ where
    start :
        Reach p sole threads q sent
          (record { shared = record { queue = q; sent = sent; given = λ _. [] }; pc = λ _. idle })
    later :
        {s t : System T}
        → Reach p sole threads q sent s
        → Step p sole threads s t
        → Reach p sole threads q sent t

  -- What one thread can do while the others stand still.
  pub data Alone (p : QueueRw T) (sole : ℕ → Option ℕ) (thread : ℕ)
      : System T → System T → Type ℓ where
    stop : {s : System T} → Alone p sole thread s s
    go :
        {s t : System T} {m : Shared T} {x : Pc T}
        → Move p sole thread s.shared (s.pc thread) m x
        → Alone p sole thread (record { shared = m; pc = update s.pc thread x }) t
        → Alone p sole thread s t

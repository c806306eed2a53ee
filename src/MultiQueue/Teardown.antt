-- ===== src/MultiQueue/Teardown.antt =====
-- `Drop` of `MultiQueue` in src/multiqueue.rs: which of the values still in the cells it destroys.
use multiqueue.Prelude.{
  ℕ, zero, suc, List, [], ◌∷◌, not, Option, Result, ok, err, Fault, out_of_steps, ◌>>=◌, ◌==◌,
  if◌then◌else◌, get_or,
}
use multiqueue.CountedIndex
use multiqueue.CountedIndex.{CountedIndex, is_tagged}
use multiqueue.MultiQueue.Policy.{QueueRw}
use multiqueue.MultiQueue.State.{QueueEntry, MultiQueue, blank}

module _ {ℓ} {T : Type ℓ} where
  -- The loop over all cells: what is not tagged has been written, and is destroyed.
  unfoldable pub drop_untagged : List (QueueEntry T) → List (Option T) → List (Option T)
  drop_untagged [] dropped = dropped
  drop_untagged (cell ∷ cells) dropped =
      drop_untagged cells (if not (is_tagged cell.wraps) then cell.val ∷ dropped else dropped)

  -- The loop from the last position read up to the head, on fuel.
  unfoldable pub drop_unread :
      ℕ → CountedIndex → MultiQueue T → List (Option T) → Result Fault (List (Option T))
  drop_unread zero last_read q dropped = err out_of_steps
  drop_unread (suc fuel) last_read q dropped =
      let cur_pos = CountedIndex.load_transaction last_read in
      let (cur_ind, _) = CountedIndex.get cur_pos in
      let rest =
        drop_unread fuel (CountedIndex.commit_direct last_read cur_pos 1) q
          ((get_or q.cells cur_ind blank).val ∷ dropped) in
      if not (CountedIndex.load_count last_read == CountedIndex.load_count q.head)
      then rest
      else ok dropped

  unfoldable pub drop : QueueRw T → ℕ → MultiQueue T → Result Fault (List (Option T))
  drop p fuel q =
      if p.do_drop
      then ok (drop_untagged q.cells q.dropped)
      else (CountedIndex.from_usize q.tail.last_pos q.capacity >>= λ last_read.
          drop_unread fuel last_read q q.dropped)

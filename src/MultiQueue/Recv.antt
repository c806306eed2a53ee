-- ===== src/MultiQueue/Recv.antt =====
-- The reading side of src/multiqueue.rs: `try_recv` and `try_recv_view`.
use multiqueue.Prelude.{
  ℕ, List, [], ◌∷◌, Bool, not, Option, none, some, Result, ok, err, Fault, uninit_read,
  out_of_steps, ◌>>=◌, ◌==◌, if◌then◌else◌, get_or, set,
}
use multiqueue.CountedIndex.{CountedIndex, rm_tag}
use multiqueue.Heap.{Heap, update}
use multiqueue.ReadCursor.Attempt
use multiqueue.ReadCursor.Attempt.{Reader, ReadAttempt}
use multiqueue.MultiQueue.Policy.{QueueRw}
use multiqueue.MultiQueue.State.{MultiQueue, blank}

-- `std::sync::mpsc::TryRecvError`
pub data TryRecvError : Type 0 where
  empty disconnected : TryRecvError

-- What a failed call returns: the cell whose flag to wait on (`none` for the null pointer), and why.
abbrev pub Refusal : Type 0
Refusal = Option ℕ × TryRecvError

-- A call leaves the queue and the reader behind.
abbrev pub Received {ℓ κ} : Type ℓ → Type κ → Type (ℓ ⊔ κ)
Received T R = MultiQueue T × Reader × Result Refusal R

module _ {ℓ} {T : Type ℓ} where
  abbrev pub with_heap : MultiQueue T → Heap → MultiQueue T
  with_heap q h = record q { manager = record (q.manager) { heap = h } }

  -- The write of a stream's position.
  abbrev pub with_pos : MultiQueue T → ℕ → CountedIndex → MultiQueue T
  with_pos q pos c = with_heap q (record (q.manager.heap) { pos = update q.manager.heap.pos pos c })

  -- What a reader is told of a cell that does not hold its value: with no writer left the flag is
  -- loaded once more.
  unfoldable pub refuse : MultiQueue T → ℕ → ℕ → Refusal
  refuse q ctail wrap_valid_tag =
      if (q.writers == 0)
      then (if not (rm_tag (get_or q.cells ctail blank).wraps == wrap_valid_tag)
          then (none, disconnected)
          else (some ctail, empty))
      else (some ctail, empty)

  -- A read of the cell's value.
  unfoldable pub read_val : Option T → Result Fault T
  read_val none = err uninit_read
  read_val (some v) = ok v

  module _ (p : QueueRw T) where
    pub data Round : Type ℓ where
      returns : Received T T → Round
      continues : MultiQueue T → ReadAttempt → Round

    unfoldable pub inc_ref : MultiQueue T → ℕ → MultiQueue T
    inc_ref q i = record q { refs = set q.refs i (p.inc_ref (get_or q.refs i 0)) }

    unfoldable pub dec_ref : MultiQueue T → ℕ → MultiQueue T
    dec_ref q i = record q { refs = set q.refs i (p.dec_ref (get_or q.refs i 0)) }

    -- What a round comes to by the outcome of its commit, which has written the position.
    unfoldable pub settle : MultiQueue T → Reader → T → Option ReadAttempt × CountedIndex → Round
    settle q reader rval (some new_attempt, pos) = continues (with_pos q reader.pos pos) new_attempt
    settle q reader rval (none, pos) = returns (with_pos q reader.pos pos, reader, ok rval)

    -- A round of `try_recv` from the read of the value on.
    unfoldable pub take_val : Bool → Bool → MultiQueue T → Reader → ReadAttempt → Result Fault Round
    take_val is_single weak q reader attempt = do
      let (ctail, wrap_valid_tag) = Attempt.get attempt
      v ← read_val (get_or q.cells ctail blank).val
      let rval = p.get_val v
      let q1 = if is_single then q else dec_ref q ctail
      ok (
          settle q1 reader rval
            (Attempt.commit_attempt (q1.manager.heap.pos reader.pos) attempt 1 weak))

    -- One round of the loop of `try_recv`.
    unfoldable pub recv_round :
        Bool → Bool → MultiQueue T → Reader → ReadAttempt → Result Fault Round
    unfolding inc_ref dec_ref
    recv_round is_single weak q reader attempt =
        let (ctail, wrap_valid_tag) = Attempt.get attempt in
        let seen_tag = (get_or q.cells ctail blank).wraps in
        let counted = inc_ref q ctail in
        let taken =
          (if is_single
            then take_val is_single weak q reader attempt
            else if not (Attempt.load_count counted.manager.heap reader == wrap_valid_tag)
            then ok (
                continues (dec_ref counted ctail)
                  (Attempt.reload (counted.manager.heap.pos reader.pos) attempt))
            else take_val is_single weak counted reader attempt) in
        if not (rm_tag seen_tag == wrap_valid_tag)
        then ok (returns (q, reader, err (refuse q ctail wrap_valid_tag)))
        else taken

    -- The loop, on the outcomes of its weak compare-exchanges.
    unfoldable pub recv_from :
        Bool → List Bool → MultiQueue T → Reader → ReadAttempt → Result Fault (Received T T)
    recv_from is_single [] q reader attempt = err out_of_steps
    recv_from is_single (weak ∷ outcomes) q reader attempt =
        recv_round is_single weak q reader attempt >>= elim [
          | returns r ↦ ok r
          | continues q' attempt' ↦ recv_from is_single outcomes q' reader attempt'
        ]

    unfoldable pub try_recv : List Bool → MultiQueue T → Reader → Result Fault (Received T T)
    try_recv outcomes q reader =
        let (ctail_attempt, reader') = Attempt.load_attempt q.manager.heap reader in
        recv_from (Attempt.is_single q.manager.heap reader') outcomes q reader' ctail_attempt

    -- `try_recv_view`: the function is run on the value where it stands, and the position is moved
    -- with a plain store.
    unfoldable pub try_recv_view {κ} :
        {R : Type κ} → (T → R) → MultiQueue T → Reader → Result Fault (Received T R)
    try_recv_view op q reader =
        let (ctail_attempt, reader') = Attempt.load_attempt q.manager.heap reader in
        let (ctail, wrap_valid_tag) = Attempt.get ctail_attempt in
        let cell = get_or q.cells ctail blank in
        let viewed = do
          v ← read_val cell.val
          let emptied = record q {
            dropped = if p.drop_in_place_drops then some v ∷ q.dropped else q.dropped;
          }
          ok (
            with_pos emptied reader'.pos
                (Attempt.commit_direct (emptied.manager.heap.pos reader'.pos) ctail_attempt 1),
            reader',
            ok (op v),
          )
        in if not (rm_tag cell.wraps == wrap_valid_tag)
          then ok (q, reader', err (refuse q ctail wrap_valid_tag))
          else viewed

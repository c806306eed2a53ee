-- ===== src/MultiQueue/Send.antt =====
-- The writing side of src/multiqueue.rs: `try_send_single` and `try_send_multi`.
use multiqueue.Prelude.{
  ℕ, List, [], ◌∷◌, Bool, not, ◌&&◌, Option, none, some, Result, ok, err, Fault, ran_over,
  out_of_steps, ◌>>=◌, ◌==◌, if◌then◌else◌, get_or, set,
}
use multiqueue.CountedIndex
use multiqueue.CountedIndex.{CountedIndex, Transaction, is_tagged, get_previous, matches_previous}
use multiqueue.ReadCursor.Group.{calm, get_max_diff}
use multiqueue.MultiQueue.Policy.{QueueRw}
use multiqueue.MultiQueue.State.{MultiQueue, blank}

-- `std::sync::mpsc::TrySendError`
pub data TrySendError {ℓ} (T : Type ℓ) : Type ℓ where
  full : T → TrySendError T
  disconnected : T → TrySendError T

-- A call of the source returns `Result<(), TrySendError<T>>` and leaves the queue behind.
abbrev pub Sent {ℓ} : Type ℓ → Type ℓ
Sent T = MultiQueue T × Result (TrySendError T) (Unit {0})

module _ {ℓ} {T : Type ℓ} where
  -- With no other thread between its two loads of the pointer, `get_max_diff` takes one round.
  max_diff_now : MultiQueue T → ℕ → Result Fault (Option ℕ)
  max_diff_now q count = get_max_diff (calm q.manager.heap q.tail ∷ []) count

  -- The compare-exchange is strong, and nothing runs before it: it finds what is stored.
  unfoldable pub reload_tail_multi : MultiQueue T → ℕ → ℕ → Result Fault (MultiQueue T × ℕ)
  unfolding max_diff_now
  reload_tail_multi q tail_cache count = do
    max_diff ← max_diff_now q count
    elim max_diff [
      | some max_diff_from_head ↦
          let current_tail = get_previous count max_diff_from_head in
          ok (
            if tail_cache == current_tail
            then (q, current_tail)
            else if q.tail_cache == tail_cache
            then (record q { tail_cache = current_tail }, current_tail)
            else (q, q.tail_cache))
      | none ↦ ok (q, q.tail_cache)
    ]

  unfoldable pub reload_tail_single : MultiQueue T → ℕ → Result Fault (MultiQueue T × ℕ)
  unfolding max_diff_now
  reload_tail_single q count = do
    max_diff ← max_diff_now q count
    elim max_diff [
      | some max_diff_from_head ↦
          let current_tail = get_previous count max_diff_from_head in
          ok (record q { tail_cache = current_tail }, current_tail)
      | none ↦ err ran_over
    ]

  module _ (p : QueueRw T) where
    -- What both do once the head is moved: destroy the old value, if there is one, behind the write
    -- of the new one, and publish that under its tag.
    unfoldable pub write_cell : MultiQueue T → ℕ → ℕ → T → MultiQueue T
    write_cell q chead wrap_valid_tag val =
        let cell = get_or q.cells chead blank in
        record q {
          cells = set q.cells chead (record { val = some val; wraps = wrap_valid_tag });
          dropped =
              if p.do_drop && not (is_tagged cell.wraps) then cell.val ∷ q.dropped else q.dropped;
        }

    -- `try_send_single` from the check of the reference count on.
    unfoldable pub send_single_checked : MultiQueue T → Transaction → T → Sent T
    unfolding write_cell
    send_single_checked q transaction val =
        let (chead, wrap_valid_tag) = CountedIndex.get transaction in
        if not (p.check_ref (get_or q.refs chead 0)) then (q, err (full val)) else (
          write_cell (record q { head = CountedIndex.commit_direct q.head transaction 1 }) chead
              wrap_valid_tag val,
          ok tt,
        )

    unfoldable pub try_send_single : MultiQueue T → T → Result Fault (Sent T)
    try_send_single q val =
        let transaction = CountedIndex.load_transaction q.head in
        let (chead, wrap_valid_tag) = CountedIndex.get transaction in
        let reloaded = do
          (q', new_tail) ← reload_tail_single q wrap_valid_tag
          ok (
              if matches_previous transaction new_tail
              then (q', err (full val))
              else send_single_checked q' transaction val)
        in if matches_previous transaction q.tail_cache
          then reloaded
          else ok (send_single_checked q transaction val)

    -- One round of the loop of `try_send_multi`: it returns, or goes on with a new transaction.
    pub data Round : Type ℓ where
      returns : Sent T → Round
      continues : MultiQueue T → Transaction → Round

    -- The round from the check of the reference count on; `weak` is the outcome of the weak
    -- compare-exchange.
    unfoldable pub send_multi_checked : Bool → MultiQueue T → Transaction → T → Round
    unfolding write_cell
    send_multi_checked weak q transaction val =
        let (chead, wrap_valid_tag) = CountedIndex.get transaction in
        let (left, head) = CountedIndex.commit q.head transaction 1 weak in
        if not (p.check_ref (get_or q.refs chead 0))
        then returns (q, err (full val))
        else elim left [
          | some new_transaction ↦ continues (record q { head = head }) new_transaction
          | none ↦ returns (write_cell (record q { head = head }) chead wrap_valid_tag val, ok tt)
        ]

    unfoldable pub send_multi_round : Bool → MultiQueue T → Transaction → T → Result Fault Round
    send_multi_round weak q transaction val =
        let (chead, wrap_valid_tag) = CountedIndex.get transaction in
        let tail_cache = q.tail_cache in
        let reloaded = do
          (q', new_tail) ← reload_tail_multi q tail_cache wrap_valid_tag
          ok (
              if matches_previous transaction new_tail
              then returns (q', err (full val))
              else send_multi_checked weak q' transaction val)
        in if matches_previous transaction tail_cache
          then reloaded
          else ok (send_multi_checked weak q transaction val)

    -- The loop, on the outcomes of its weak compare-exchanges.
    unfoldable pub send_multi_from :
        List Bool → MultiQueue T → Transaction → T → Result Fault (Sent T)
    send_multi_from [] q transaction val = err out_of_steps
    send_multi_from (weak ∷ outcomes) q transaction val =
        send_multi_round weak q transaction val >>= elim [
          | returns r ↦ ok r
          | continues q' transaction' ↦ send_multi_from outcomes q' transaction' val
        ]

    unfoldable pub try_send_multi : List Bool → MultiQueue T → T → Result Fault (Sent T)
    try_send_multi outcomes q val =
        send_multi_from outcomes q (CountedIndex.load_transaction q.head) val

-- ===== src/Refinement/Rounds.antt =====
-- One round of `try_recv` against the log: the counts, the value, and the commit.

use native.Mathlib.Decide.{ℕ_discrete}
use multiqueue.Prelude.{
  ℕ, ◌%◌, ◌^◌, ◌<◌, ◌≡◌, refl, ap, ◌∙◌, ◌⊎◌, inl, inr, List, none, some, arith, length, get_elem?,
  lt_of_get_elem?, get_or, set, get_or-set_self, get_or-set_ne, length-set, Bool, true, false, ◌==◌,
  ==_iff, ok, if◌then◌else◌,
}
use multiqueue.CountedIndex
use multiqueue.CountedIndex.{CountedIndex, Transaction, rm_tag}
use multiqueue.ReadCursor.Attempt
use multiqueue.ReadCursor.Attempt.{Reader, ReaderState, single, multi, ReadAttempt}
use multiqueue.MultiQueue.Policy.{QueueRw, IsLawful}
use multiqueue.MultiQueue.State.{QueueEntry, MultiQueue, blank}
use multiqueue.MultiQueue.Recv.{with_pos, read_val, inc_ref, dec_ref, take_val, recv_round, settle}
use multiqueue.Refinement.Log.{position, InWindow, IsIdle, IsLog}
use multiqueue.Refinement.Receiving.{flag_ready}
use multiqueue.Refinement.Taking.{attempt_of, get-attempt_of}

pub ReaderState-cases : (s : ReaderState) → (s ≡ single) ⊎ (s ≡ multi)
ReaderState-cases single = inl refl
ReaderState-cases multi = inr refl

module _ {ℓ} {T : Type ℓ} (p : QueueRw T) where
  -- The counts after a round: up and down again, unless the reader is the only one.
  abbrev pub refs_after : Bool → List ℕ → ℕ → List ℕ
  refs_after is_single refs i =
      if is_single
      then refs
      else (let up = set refs i (p.inc_ref (get_or refs i 0)) in
          set up i (p.dec_ref (get_or up i 0)))

  pub refs_after-IsIdle :
      (w : ℕ) (is_single : Bool) (refs : List ℕ) (i : ℕ)
      → IsLawful p
      → i < w
      → IsIdle w refs
      → IsIdle w (refs_after is_single refs i)
  refs_after-IsIdle w true refs i lawful lt idle = idle
  refs_after-IsIdle w false refs i lawful lt idle =
      (length-set up i _ ∙ length-set refs i _ ∙ idle.0, zeros)
    where
      up : List ℕ
      up = set refs i (p.inc_ref (get_or refs i 0))

      back : p.dec_ref (get_or up i 0) ≡ 0
      back =
          ap p.dec_ref (get_or-set_self refs i _ 0 (omega (arith, idle.0)))
          ∙ ap (λ (t : ℕ). p.dec_ref (p.inc_ref t)) (idle.1 i)
          ∙ lawful.balanced 0 (omega arith)

      zeros : (j : ℕ) → get_or (set up i (p.dec_ref (get_or up i 0))) j 0 ≡ 0
      zeros j = elim (ℕ_discrete i j) [
        | yes e ↦ rw (← e) (
            get_or-set_self up i _ 0
              (omega (arith, idle.0, length-set refs i (p.inc_ref (get_or refs i 0))))
            ∙ back)
        | no ne ↦ get_or-set_ne up i j _ 0 ne ∙ get_or-set_ne refs i j _ 0 ne ∙ idle.1 j
      ]

  -- The queue after a round that left the stream at c.
  abbrev pub after_round : Bool → MultiQueue T → Reader → ℕ → CountedIndex → MultiQueue T
  after_round is_single q r i c =
      with_pos (record q { refs = refs_after is_single q.refs i }) r.pos c

  -- A commit of a lone reader, or one that does not fail for no reason.
  pub commit_attempt_done :
      (q : MultiQueue T) (r : Reader) (weak : Bool)
      → (r.state ≡ single) ⊎ (weak ≡ false)
      → Attempt.commit_attempt (position q r.pos) (attempt_of q r) 1 weak
        ≡ (none, Attempt.commit_direct (position q r.pos) (attempt_of q r) 1)
  unfolding Attempt.commit_attempt Attempt.commit_direct CountedIndex.commit
      CountedIndex.commit_direct CountedIndex.load_transaction
  commit_attempt_done q r weak done = ground arith

  pub commit_attempt_again :
      (q : MultiQueue T) (r : Reader)
      → r.state ≡ multi
      → Attempt.commit_attempt (position q r.pos) (attempt_of q r) 1 true
        ≡ (some (attempt_of q r), position q r.pos)
  unfolding Attempt.commit_attempt CountedIndex.commit CountedIndex.load_transaction
  commit_attempt_again q r e = ground arith

  pub take_val_lem :
      (is_single weak : Bool) (q : MultiQueue T) (r : Reader) (x : T) (i tag : ℕ)
      → IsLawful p
      → Attempt.get (attempt_of q r) ≡ (i, tag)
      → (get_or q.cells i blank).val ≡ some x
      → take_val p is_single weak q r (attempt_of q r)
        ≡ ok (
            settle p
              (if is_single then q else dec_ref p q i)
              r
              x
              (Attempt.commit_attempt (position q r.pos) (attempt_of q r) 1 weak))
  unfolding take_val read_val dec_ref
  take_val_lem true weak q r x i tag lawful got held = rw (got, held, lawful.faithful x) refl
  take_val_lem false weak q r x i tag lawful got held = rw (got, held, lawful.faithful x) refl

  -- The flag of a value that is ready, at the reader's position.
  pub ready :
      {k : ℕ} {q : MultiQueue T} {sent : List T} (r : Reader) (x : T)
      → IsLog k q sent
      → InWindow (2 ^ k) (length sent) (position q r.pos)
      → get_elem? sent (position q r.pos).val ≡ some x
      → ((get_or q.cells ((position q r.pos).val % 2 ^ k) blank).val ≡ some x)
        × ((rm_tag (get_or q.cells ((position q r.pos).val % 2 ^ k) blank).wraps
              == (position q r.pos).val)
            ≡ true)
  ready {k} {q} {sent} r x v w next =
      let (cell, flag) = flag_ready (position q r.pos).val v (lt_of_get_elem? sent _ x next) w.2 in
      (ap (λ (c : QueueEntry T). c.val) cell ∙ next, flag)

  -- A round at a value that is ready, up to its commit.
  pub round_ready :
      {k : ℕ} {q : MultiQueue T} {sent : List T} (is_single weak : Bool) (r : Reader) (x : T)
      → IsLawful p
      → IsLog k q sent
      → InWindow (2 ^ k) (length sent) (position q r.pos)
      → get_elem? sent (position q r.pos).val ≡ some x
      → recv_round p is_single weak q r (attempt_of q r)
        ≡ ok (
            settle p
              (record q { refs = refs_after is_single q.refs ((position q r.pos).val % 2 ^ k) })
              r
              x
              (Attempt.commit_attempt (position q r.pos) (attempt_of q r) 1 weak))
  unfolding recv_round inc_ref dec_ref
  round_ready {k} {q} true weak r x lawful v w next =
      rw (get-attempt_of k q r w.0, (ready r x v w next).1)
        (take_val_lem true weak q r x _ _ lawful (get-attempt_of k q r w.0) (ready r x v w next).0)
  round_ready {k} {q} false weak r x lawful v w next =
      rw
        (
          get-attempt_of k q r w.0,
          (ready r x v w next).1,
          (==_iff (position q r.pos).val (position q r.pos).val).1 refl,
        )
        (take_val_lem false weak (inc_ref p q ((position q r.pos).val % 2 ^ k)) r x _ _ lawful
          (get-attempt_of k q r w.0) (ready r x v w next).0)

  -- The cell of the reader's next value.
  abbrev pub cell_of : ℕ → Reader → MultiQueue T → ℕ
  cell_of k r q = (position q r.pos).val % 2 ^ k

  -- The queue after a round whose commit failed.
  abbrev pub again : Bool → ℕ → Reader → MultiQueue T → MultiQueue T
  again is_single k r q = after_round is_single q r (cell_of k r q) (position q r.pos)

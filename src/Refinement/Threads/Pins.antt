-- ===== src/Refinement/Threads/Pins.antt =====
-- Where the policy counts the readers of a cell: what a counted consumer clones is not written to.

use multiqueue.Prelude.{
  ℕ, ◌+◌, ◌^◌, ◌≤◌, ◌<◌, ◌≡◌, ◌≢◌, ◌⊎◌, refl, inl, inr, [], ◌∷◌, Option, length, length-append,
  get_or, true, ==_iff,
}
use multiqueue.CountedIndex
use multiqueue.CountedIndex.{Transaction}
use multiqueue.CountedIndex.Bounds.{commit_lem}
use multiqueue.ReadCursor.Attempt
use multiqueue.ReadCursor.Attempt.{Reader, ReadAttempt}
use multiqueue.MultiQueue.Policy.{QueueRw}
use multiqueue.MultiQueue.Threads.{
  Pc, unread, claimed, current, counted, Shared, cell_of, Move, begins_send, is_unread, claims,
  writes, still_there,
}
use multiqueue.Refinement.Log.{position}
use multiqueue.Refinement.Threads.Sound.{view, Owns, Published}
use multiqueue.Refinement.Threads.Counts.{tally}

module _ {ℓ} {T : Type ℓ} (p : QueueRw T) (sole : ℕ → Option ℕ) (i : ℕ) where
  -- The log grows only by the commit of a sender that had found the cell unread; only then is a
  -- position claimed.
  pub Move-claims :
      {m m' : Shared T} {x x' : Pc T}
      → Move p sole i m x m' x'
      → ((m'.sent ≡ m.sent) × ((c : ℕ) → Owns x' c → Owns x c))
        ⊎ ((t : Transaction) × (val : T) × (x ≡ unread t val)
            × (x' ≡ claimed t val)
            × (m.queue.head.val ≡ t.loaded_vals)
            × (length m'.sent ≡ length m.sent + 1))
  Move-claims {m} (claims {t} {val} weak head e) = inr (
    t,
    val,
    refl,
    refl,
    elim (commit_lem m.queue.head t 1 weak) [ inl (_, was) ↦ was | inr (lost, _) ↦ cc ],
    length-append m.sent (val ∷ []),
  )
  Move-claims {m} (writes) = inl (refl, λ c o. o)
  Move-claims {m} _ = inl (refl, λ c o. absurd o)

  pub Move-unread :
      {m m' : Shared T} {x x' : Pc T} (t : Transaction) (val : T)
      → Move p sole i m x m' x'
      → x' ≡ unread t val
      → p.check_ref (get_or m.queue.refs (cell_of t) 0) ≡ true
  Move-unread {m} t' val' (is_unread {t} {val} test) e = let same : t ≡ t' = cc in rw same at test
  Move-unread {m} t val (begins_send _) e = cc
  Move-unread {m} t val _ e = cc

  pub Move-current :
      {m m' : Shared T} {x x' : Pc T} (r : Reader) (a : ReadAttempt)
      → Move p sole i m x m' x'
      → x' ≡ current r a
      → (m' ≡ m) × (x ≡ counted r a) × ((position m.queue r.pos).val ≡ a.linked.loaded_vals)
  unfolding Attempt.get CountedIndex.get
  Move-current {m} r' a' (still_there {r} {a} test) e =
      let same : r ≡ r' = cc in
      let same' : a ≡ a' = cc in
      (refl, cc, (==_iff _ a'.linked.loaded_vals).0 (rw (same, same') at test))
  Move-current {m} r a (begins_send _) e = cc
  Move-current {m} r a _ e = cc

-- The value numbered d stays where it is: no sender has a claim on its cell, or is past the check of
-- the count and before the commit for it.
pub record Pinned {ℓ} {T : Type ℓ} (k : ℕ) (m : Shared T) (pc : ℕ → Pc T) (d : ℕ) : Type ℓ where
  pub there : Published k (view m) d
  pub last_round : length m.sent ≤ d + 2 ^ k
  pub unwanted :
      (i : ℕ) (t : Transaction) (val : T) → pc i ≡ unread t val → t.loaded_vals ≢ d + 2 ^ k

pub record Pins {ℓ} {T : Type ℓ} (k threads : ℕ) (m : Shared T) (pc : ℕ → Pc T) : Type ℓ where
  pub width : length m.queue.refs ≡ 2 ^ k
  pub refs : (c : ℕ) → get_or m.queue.refs c 0 ≡ tally pc threads c
  pub pins :
      (j : ℕ) (r : Reader) (a : ReadAttempt)
      → j < threads
      → pc j ≡ current r a
      → Pinned k m pc a.linked.loaded_vals

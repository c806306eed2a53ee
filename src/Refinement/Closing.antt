-- ===== src/Refinement/Closing.antt =====
-- What the destructor of the queue destroys, against the log.
use multiqueue.Prelude.{
  ℕ, zero, suc, ◌+◌, ◌-◌, ◌%◌, ◌^◌, ◌≤◌, ◌<◌, ◌≡◌, refl, List, ◌∷◌, Option, arith, length,
  get_elem?, get_or, inl, inr, ◌==◌, ==_iff, Bool-cases, ok,
}
use multiqueue.CountedIndex
use multiqueue.CountedIndex.{CountedIndex}
use multiqueue.CountedIndex.Bounds.{get_lem, store_val_one}
use multiqueue.CountedIndex.Wrap.{validate_wrap-pow}
use multiqueue.MultiQueue.Policy.{mpmc}
use multiqueue.MultiQueue.State.{MultiQueue, blank}
use multiqueue.MultiQueue.Teardown.{drop_unread, drop}
use multiqueue.Refinement.Log.{IsLog}

from_usize-pow :
    (val k wrap : ℕ)
    → wrap ≡ 2 ^ k
    → k ≤ 61
    → CountedIndex.from_usize val wrap ≡ ok (record { val = val; mask = 2 ^ k - 1 })
unfolding CountedIndex.from_usize
from_usize-pow val k wrap e small = rw (e, validate_wrap-pow k small) refl

module _ {ℓ} {T : Type ℓ} where
  -- The `count` values of the log from `s` on, put before `seen` one after the other.
  abbrev pub collect : ℕ → ℕ → List T → List (Option T) → List (Option T)
  collect zero s sent seen = seen
  collect (suc count) s sent seen = collect count (suc s) sent (get_elem? sent s ∷ seen)

  cell_at :
      {k : ℕ} {q : MultiQueue T} {sent : List T} (s : ℕ)
      → IsLog k q sent
      → s < length sent
      → length sent ≤ s + 2 ^ k
      → (get_or q.cells (s % 2 ^ k) blank).val ≡ get_elem? sent s
  cell_at s v lo hi = rw (v.holds s lo hi) refl

  drop_unread_lem :
      (fuel count s : ℕ) {k : ℕ} {q : MultiQueue T} {sent : List T} (seen : List (Option T))
      → IsLog k q sent
      → count < fuel
      → s + count ≡ length sent
      → count ≤ 2 ^ k
      → drop_unread fuel (record { val = s; mask = 2 ^ k - 1 }) q seen
        ≡ ok (collect count s sent seen)
  unfolding drop_unread CountedIndex.load_transaction CountedIndex.commit_direct
  drop_unread_lem zero count s seen v enough at fits = absurd (omega arith)
  drop_unread_lem (suc fuel) zero s {q = q} seen v enough at fits =
      rw ((==_iff s q.head.val).1 (omega (arith, v.counted))) refl
  drop_unread_lem (suc fuel) (suc count) s {k} {q} {sent} seen v enough at fits =
      elim (Bool-cases (s == q.head.val)) [
        | inl e ↦ absurd (ground (arith, v.counted))
        | inr ne ↦
            rw
              (
                ne,
                get_lem (record { loaded_vals = s; mask = 2 ^ k - 1 }) k refl,
                cell_at s v (omega arith) (omega arith),
                next,
              )
              (drop_unread_lem fuel count (suc s) (get_elem? sent s ∷ seen) v (omega arith)
                (omega arith) (omega arith))
      ]
    where
      next : CountedIndex.store_val (record { loaded_vals = s; mask = 2 ^ k - 1 }) 1 ≡ suc s
      next = omega (
        arith,
        v.short,
        store_val_one (record { loaded_vals = s; mask = 2 ^ k - 1 }) (omega (arith, v.short)),
      )

  -- The destructor of a queue that stands for a log, with the policy `mpmc` and a last position
  -- of a stream at most the length of the queue behind, destroys exactly the values of the log
  -- from that position on, each once and in order, on one more unit of fuel than there are such
  -- values.
  pub drop-collect :
      {k : ℕ} {q : MultiQueue T} {sent : List T} (count : ℕ)
      → IsLog k q sent
      → q.tail.last_pos + count ≡ length sent
      → count ≤ 2 ^ k
      → drop mpmc (suc count) q ≡ ok (collect count q.tail.last_pos sent q.dropped)
  unfolding drop mpmc
  drop-collect {k} {q} {sent} count v at fits =
      rw (from_usize-pow q.tail.last_pos k q.capacity v.capacity v.small)
        (drop_unread_lem (suc count) count q.tail.last_pos q.dropped v (omega arith) at fits)

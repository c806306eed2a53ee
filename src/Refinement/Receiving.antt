-- ===== src/Refinement/Receiving.antt =====
-- What a receive finds in its cell, and what moving a stream does to the log.
use native.Mathlib.Decide.{dec_le}
use native.Mathlib.Nat.{mod-eq_of_lt, mod-eq-sub-mod}
use multiqueue.Prelude.{
  ℕ, ◌+◌, ◌-◌, ◌%◌, ◌^◌, ◌≤◌, ◌<◌, ◌≡◌, refl, ap, ◌⊎◌, inl, inr, List, Option, arith, All-imp,
  length, get_elem?, get_or, true, false, Bool-cases, ◌==◌, ==_iff,
}
use multiqueue.CountedIndex.{CountedIndex, rm_tag, initial_queue_flag}
use multiqueue.CountedIndex.Bounds.{rm_tag_of_lt, rm_tag_lem}
use multiqueue.Heap.{update}
use multiqueue.MultiQueue.State.{MultiQueue, blank}
use multiqueue.MultiQueue.Recv.{with_pos}
use multiqueue.Refinement.Log.{readers, position, InWindow, IsIdle, IsLog, pow_bounds}

module _ {ℓ} {T : Type ℓ} where
  -- A stream may be moved forward, up to the end of the log.
  pub moved-IsLog :
      {k : ℕ} {q : MultiQueue T} {sent : List T} (refs : List ℕ) (dropped : List (Option T)) (r : ℕ)
      (c : CountedIndex)
      → IsLog k q sent
      → IsIdle (2 ^ k) refs
      → (c.mask ≡ 2 ^ k - 1) × ((position q r).val ≤ c.val) × (c.val ≤ length sent)
      → IsLog k (with_pos (record q { refs = refs; dropped = dropped }) r c) sent
  moved-IsLog {k} {q} {sent} refs dropped r c v idle step = record {
    small = v.small;
    short = v.short;
    capacity = v.capacity;
    mask = v.mask;
    counted = v.counted;
    cells_width = v.cells_width;
    idle = idle;
    holds = v.holds;
    blanks = v.blanks;
    streams =
        All-imp (λ s. InWindow (2 ^ k) (length sent) (position q s)) _ (readers q)
          (λ s w. window s w (Bool-cases (r == s))) v.streams;
    cache = v.cache;
    behind =
        All-imp (λ s. q.tail_cache ≤ (position q s).val) _ (readers q)
          (λ s b. ahead s b (Bool-cases (r == s))) v.behind;
  }
    where
      window :
          (s : ℕ)
          → InWindow (2 ^ k) (length sent) (position q s)
          → ((r == s) ≡ true) ⊎ ((r == s) ≡ false)
          → InWindow (2 ^ k) (length sent) (update (position q) r c s)
      window s w (inl e) =
          let back : (position q r).val ≡ (position q s).val =
            ap (λ (t : ℕ). (position q t).val) ((==_iff r s).0 e) in
          rw e (step.0, step.2, omega (arith, back, w, step.1))
      window s w (inr e) = rw e w

      ahead :
          (s : ℕ)
          → q.tail_cache ≤ (position q s).val
          → ((r == s) ≡ true) ⊎ ((r == s) ≡ false)
          → q.tail_cache ≤ (update (position q) r c s).val
      ahead s b (inl e) =
          let back : (position q r).val ≡ (position q s).val =
            ap (λ (t : ℕ). (position q t).val) ((==_iff r s).0 e) in
          rw e (omega (arith, back, step.1))
      ahead s b (inr e) = rw e b

  -- The flag of a value that is still to be read says so.
  pub flag_ready :
      {k : ℕ} {q : MultiQueue T} {sent : List T} (s : ℕ)
      → IsLog k q sent
      → s < length sent
      → length sent ≤ s + 2 ^ k
      → (get_or q.cells (s % 2 ^ k) blank ≡ record { val = get_elem? sent s; wraps = s })
        × ((rm_tag (get_or q.cells (s % 2 ^ k) blank).wraps == s) ≡ true)
  flag_ready {k} {q} {sent} s v lo hi =
      (v.holds s lo hi, rw (v.holds s lo hi, rm_tag_of_lt s (omega arith)) ((==_iff s s).1 refl))

  -- At the end of the log the cell holds an older value, or none.
  pub flag_missing :
      {k : ℕ} {q : MultiQueue T} {sent : List T} (s : ℕ)
      → IsLog k q sent
      → s ≡ length sent
      → (rm_tag (get_or q.cells (s % 2 ^ k) blank).wraps == s) ≡ false
  flag_missing {k} {q} {sent} s v e = elim (dec_le (2 ^ k) s) [
    | yes round ↦
        let old : get_or q.cells ((s - 2 ^ k) % 2 ^ k) blank ≡ _ =
          v.holds (s - 2 ^ k) (omega (arith, bounds)) (omega arith) in
        rw (mod-eq-sub-mod round, old, rm_tag_of_lt (s - 2 ^ k) (omega arith))
          (ground (arith, bounds))
    | no first ↦
        rw
          (
            mod-eq_of_lt {n = s} {m = 2 ^ k} (omega arith),
            v.blanks s (omega arith),
            rm_tag_lem initial_queue_flag,
          )
          (ground arith)
  ]
    where
      bounds : (0 < 2 ^ k) × (2 ^ k ≤ 2 ^ 61)
      bounds = pow_bounds k v.small

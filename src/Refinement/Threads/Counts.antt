-- ===== src/Refinement/Threads/Counts.antt =====
-- The counts of readers at the cells against the places of the threads.
use native.Mathlib.Decide.{ℕ_discrete}
use native.Mathlib.Nat.{mod-lt}
use multiqueue.Prelude.{
  ℕ, zero, suc, ◌+◌, ◌-◌, ◌^◌, ◌≤◌, ◌<◌, ◌≡◌, refl, ap, List, Option, arith, length, get_or,
  get_or-set_self, get_or-set_ne, set, Bool-cases, true, inl, inr, ◌==◌, ==_iff, if◌then◌else◌, ok,
  length-set,
}
use multiqueue.CountedIndex.Bounds.{get_lem}
use multiqueue.CountedIndex
use multiqueue.ReadCursor.Attempt
use multiqueue.ReadCursor.Attempt.{ReadAttempt}
use multiqueue.Heap.{update, update_self, update_ne}
use multiqueue.MultiQueue.Policy.{QueueRw, bcast}
use multiqueue.MultiQueue.State.{MultiQueue}
use multiqueue.MultiQueue.Send.{reload_tail_multi}
use multiqueue.MultiQueue.Recv.{inc_ref, dec_ref}
use multiqueue.MultiQueue.Threads.{
  Pc, counted, current, lapsed, taken, Shared, Move, begins_send, stays_full, finds_room, counts,
  tries_again, releases, put_val, publish,
}
use multiqueue.Refinement.Log.{pow_bounds}
use multiqueue.Refinement.Threads.Sound.{view, Tries, Local}

-- What a policy promises that counts the readers of a cell: below the word's bound the count goes
-- up and down by one, and a cell that may be written has none.
pub record IsCounting {ℓ} {T : Type ℓ} (p : QueueRw T) : Type ℓ where
  pub up : (r : ℕ) → r < 2 ^ 64 - 1 → p.inc_ref r ≡ r + 1
  pub down : (r : ℕ) → 0 < r → r < 2 ^ 64 → p.dec_ref r ≡ r - 1
  pub none_left : (r : ℕ) → p.check_ref r ≡ true → r ≡ 0

pub bcast-IsCounting {ℓ} : {T : Type ℓ} (clone : T → T) → IsCounting (bcast clone)
unfolding bcast
bcast-IsCounting clone = record {
  up = λ r lt. omega arith;
  down = λ r pos lt. omega arith;
  none_left = λ r h. (==_iff r 0).0 h;
}

module _ {ℓ} {T : Type ℓ} where
  -- How often the thread is counted at a cell: from its `inc_ref` to its `dec_ref`.
  abbrev pub share : Pc T → ℕ → ℕ
  share (counted r a) c = if (Attempt.get a).0 == c then 1 else 0
  share (current r a) c = if (Attempt.get a).0 == c then 1 else 0
  share (lapsed r a) c = if (Attempt.get a).0 == c then 1 else 0
  share (taken r a val) c = if (Attempt.get a).0 == c then 1 else 0
  share _ c = 0

  share-le : (x : Pc T) (c : ℕ) → share x c ≤ 1
  share-le (counted r a) c = ground arith
  share-le (current r a) c = ground arith
  share-le (lapsed r a) c = ground arith
  share-le (taken r a val) c = ground arith
  share-le _ c = omega arith

  abbrev pub tally : (ℕ → Pc T) → ℕ → ℕ → ℕ
  tally pc zero c = 0
  tally pc (suc n) c = share (pc n) c + tally pc n c

  pub tally-le : (pc : ℕ → Pc T) (n c : ℕ) → tally pc n c ≤ n
  tally-le pc zero c = omega arith
  tally-le pc (suc n) c = omega (arith, tally-le pc n c, share-le (pc n) c)

  pub share-le-tally : (pc : ℕ → Pc T) (n c i : ℕ) → i < n → share (pc i) c ≤ tally pc n c
  share-le-tally pc zero c i lt = absurd (omega arith)
  share-le-tally pc (suc n) c i lt = elim (ℕ_discrete i n) [
    | yes e ↦ rw e (omega arith)
    | no ne ↦ omega (arith, share-le-tally pc n c i (omega arith))
  ]

  tally-update_out :
      (pc : ℕ → Pc T) (i : ℕ) (x : Pc T) (n c : ℕ)
      → n ≤ i
      → tally (update pc i x) n c ≡ tally pc n c
  tally-update_out pc i x zero c le = refl
  tally-update_out pc i x (suc n) c le =
      rw (update_ne pc i n x (omega arith))
        (omega (arith, tally-update_out pc i x n c (omega arith)))

  pub tally-update :
      (pc : ℕ → Pc T) (i : ℕ) (x : Pc T) (n c : ℕ)
      → i < n
      → tally (update pc i x) n c + share (pc i) c ≡ tally pc n c + share x c
  tally-update pc i x zero c lt = absurd (omega arith)
  tally-update pc i x (suc n) c lt = elim (ℕ_discrete i n) [
    | yes e ↦
        rw (← e)
          (rw (update_self pc i x) (omega (arith, tally-update_out pc i x i c (omega arith))))
    | no ne ↦ rw (update_ne pc i n x ne) (omega (arith, tally-update pc i x n c (omega arith)))
  ]

reload_refs {ℓ} :
    {T : Type ℓ} (q q' : MultiQueue T) (tail c new_tail : ℕ)
    → reload_tail_multi q tail c ≡ ok (q', new_tail)
    → q'.refs ≡ q.refs
unfolding reload_tail_multi
reload_refs q q' tail c new_tail e = ground arith

module _ {ℓ} {T : Type ℓ} {p : QueueRw T} (counting : IsCounting p) (k : ℕ) (small : k ≤ 61)
    (sole : ℕ → Option ℕ) (i : ℕ) where
  -- The count at one cell goes up or down by one, and the others stay.
  count_up :
      (refs : List ℕ) (j c : ℕ)
      → j < length refs
      → get_or refs c 0 < 2 ^ 64 - 1
      → get_or (set refs j (p.inc_ref (get_or refs j 0))) c 0 + 0
        ≡ get_or refs c 0 + (if j == c then 1 else 0)
  count_up refs j c lt low = elim (Bool-cases (j == c)) [
    | inl e ↦
        let same : j ≡ c = (==_iff j c).0 e in
        rw (e, same)
          (rw (get_or-set_self refs c (p.inc_ref (get_or refs c 0)) 0 (omega (arith, same)))
            (omega (arith, counting.up (get_or refs c 0) low)))
    | inr e ↦ rw (e, get_or-set_ne refs j c _ 0 (λ h. cc (e, (==_iff j c).1 h))) refl
  ]

  count_down :
      (refs : List ℕ) (j c : ℕ)
      → j < length refs
      → get_or refs c 0 < 2 ^ 64 - 1
      → (if j == c then 1 else 0) ≤ get_or refs c 0
      → get_or (set refs j (p.dec_ref (get_or refs j 0))) c 0 + (if j == c then 1 else 0)
        ≡ get_or refs c 0 + 0
  count_down refs j c lt low held = elim (Bool-cases (j == c)) [
    | inl e ↦
        let same : j ≡ c = (==_iff j c).0 e in
        let some_left : 0 < get_or refs c 0 = rw e at held in
        rw (e, same)
          (rw (get_or-set_self refs c (p.dec_ref (get_or refs c 0)) 0 (omega (arith, same)))
            (omega (arith, counting.down (get_or refs c 0) some_left (omega arith))))
    | inr e ↦ rw (e, get_or-set_ne refs j c _ 0 (λ h. cc (e, (==_iff j c).1 h))) refl
  ]

  cell_in_range :
      (m : Shared T) {r : Attempt.Reader} {a : ReadAttempt}
      → Tries k sole i (view m) r a
      → (Attempt.get a).0 < 2 ^ k
  unfolding Attempt.get
  cell_in_range m {r} {a} f =
      rw (get_lem a.linked k f.mask) (mod-lt a.linked.loaded_vals (pow_bounds k small).0)

  -- A move changes the counts by what it changes of the thread's share.
  pub Move-refs :
      {m m' : Shared T} {x x' : Pc T}
      → Move p sole i m x m' x'
      → Local k sole i (view m) x
      → length m.queue.refs ≡ 2 ^ k
      → (c : ℕ) → get_or m.queue.refs c 0 < 2 ^ 64 - 1
      → share x c ≤ get_or m.queue.refs c 0
      → get_or m'.queue.refs c 0 + share x c ≡ get_or m.queue.refs c 0 + share x' c
  unfolding inc_ref dec_ref put_val publish
  Move-refs {m} (stays_full {t} {val} {tail_cache} q new_tail e test) f w c low held =
      rw (reload_refs m.queue q tail_cache (CountedIndex.get t).1 new_tail e) refl
  Move-refs {m} (finds_room {t} {val} {tail_cache} q new_tail e test) f w c low held =
      rw (reload_refs m.queue q tail_cache (CountedIndex.get t).1 new_tail e) refl
  Move-refs {m} (counts {r} {a} shared) f w c low held =
      count_up m.queue.refs (Attempt.get a).0 c (omega (arith, w, cell_in_range m f.0)) low
  Move-refs {m} (tries_again {r} {a}) f w c low held =
      count_down m.queue.refs (Attempt.get a).0 c (omega (arith, w, cell_in_range m f)) low held
  Move-refs {m} (releases {r} {a} {val}) f w c low held =
      count_down m.queue.refs (Attempt.get a).0 c (omega (arith, w, cell_in_range m f.0)) low held
  Move-refs {m} (begins_send _) f w c low held = refl
  Move-refs {m} _ f w c low held = refl

  pub Move-width :
      {m m' : Shared T} {x x' : Pc T}
      → Move p sole i m x m' x'
      → length m'.queue.refs ≡ length m.queue.refs
  unfolding inc_ref dec_ref put_val publish
  Move-width {m} (stays_full {t} {val} {tail_cache} q new_tail e test) =
      ap length (reload_refs m.queue q tail_cache (CountedIndex.get t).1 new_tail e)
  Move-width {m} (finds_room {t} {val} {tail_cache} q new_tail e test) =
      ap length (reload_refs m.queue q tail_cache (CountedIndex.get t).1 new_tail e)
  Move-width {m} (counts {r} {a} shared) = length-set m.queue.refs (Attempt.get a).0 _
  Move-width {m} (tries_again {r} {a}) = length-set m.queue.refs (Attempt.get a).0 _
  Move-width {m} (releases {r} {a} {val}) = length-set m.queue.refs (Attempt.get a).0 _
  Move-width {m} (begins_send _) = refl
  Move-width {m} _ = refl

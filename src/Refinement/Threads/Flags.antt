-- ===== src/Refinement/Threads/Flags.antt =====
-- What the flag of a cell can be, and the moves that change nothing of the memory.
use native.Mathlib.Decide.{dec_le}
use native.Mathlib.Nat.{mod-eq_of_lt, mod-eq-sub-mod}
use multiqueue.Prelude.{
  ℕ, ◌-◌, ◌^◌, ◌≤◌, ◌<◌, ◌≡◌, ◌≢◌, refl, inl, inr, Option, arith, length, false,
}
use multiqueue.CountedIndex
use multiqueue.CountedIndex.{CountedIndex, Transaction, rm_tag, matches_previous}
use multiqueue.CountedIndex.Bounds.{rm_tag_of_lt, rm_tag_lem}
use multiqueue.Heap.{update}
use multiqueue.MultiQueue.Threads.{Pc, claimed, written}
use multiqueue.Refinement.Log.{pow_bounds}
use multiqueue.Refinement.Threads.Sound.{View, Owns, cell_at, Fits, Room, Local, Sound}
use multiqueue.Refinement.Threads.Room.{room_of_no_match}
use multiqueue.Refinement.Threads.Frame.{Meanwhile}
use multiqueue.Refinement.Threads.Assembly.{IsFree, quiet}

module _ {ℓ} {T : Type ℓ} (k : ℕ) (sole : ℕ → Option ℕ) (j : ℕ) (v : View T) (c : ℕ) where
  -- The cell of a claimed position has an older flag.
  pub Owns-older :
      (x : Pc T)
      → Local k sole j v x
      → Owns x c
      → (d : ℕ) → c ≤ d
      → d < 2 ^ 63 - 1
      → rm_tag (cell_at k v c).wraps ≢ d
  Owns-older (claimed t val) f own = rw (← own) f.older
  Owns-older (written t val) f own = rw (← own) f.0.older
  Owns-older _ f own = absurd own

module _ {ℓ} {T : Type ℓ} (k : ℕ) {sole : ℕ → Option ℕ} {first : ℕ → ℕ} (i : ℕ) {v : View T}
    {pc : ℕ → Pc T} (sound : Sound k sole first v pc) where
  -- A move that changes nothing of what the proofs are about.
  pub still :
      (x x' : Pc T)
      → pc i ≡ x
      → IsFree x
      → IsFree x'
      → Local k sole i v x'
      → Sound k sole first v (update pc i x')
  still x x' at free free' own = quiet k i x x' at sound sound.store stays own refl free free'
    where
      stays : Meanwhile k sole i v pc v
      stays = record {
        streams = refl;
        longer = omega arith;
        sent = λ c lt. refl;
        cache = omega arith;
        published = λ c le here. here;
        owned = λ j c ne own. refl;
        moves = λ s at. inl refl;
      }

  -- The cached tail, or a bound behind it, shows room.
  pub Room-of_test :
      {t : Transaction} → Fits k v t → matches_previous t v.tail_cache ≡ false → Room k v t
  Room-of_test {t} f test = record {
    fits = f;
    room =
        room_of_no_match t (2 ^ k) v.tail_cache f.mask (pow_bounds k sound.store.small).0
          (omega (arith, pow_bounds k sound.store.small))
          (omega (arith, f.reached, sound.store.short))
          (omega (arith, f.reached, sound.store.cache)) test;
  }

  -- The cell that the next value goes to has an older flag.
  pub stale_flag :
      (d : ℕ) → length v.sent ≤ d → d < 2 ^ 63 - 1 → rm_tag (cell_at k v (length v.sent)).wraps ≢ d
  stale_flag d le lt = elim (dec_le (2 ^ k) (length v.sent)) [
    | yes round ↦
        elim (sound.cells.filled (length v.sent - 2 ^ k)
          (omega (arith, pow_bounds k sound.store.small)) (omega arith)) [
            | inl (_, here) ↦
                rw (mod-eq-sub-mod round, here, rm_tag_of_lt (length v.sent - 2 ^ k) (omega arith))
                  (λ e. omega (arith, e, pow_bounds k sound.store.small))
            | inr (j, owner) ↦ rw (mod-eq-sub-mod round) (
                Owns-older k sole j v (length v.sent - 2 ^ k) (pc j) (sound.locals j) owner d
                  (omega (arith, pow_bounds k sound.store.small)) lt)
          ]
    | no early ↦
        rw
          (
            mod-eq_of_lt {n = length v.sent} {m = 2 ^ k} (omega arith),
            sound.store.blanks (length v.sent) (omega arith),
          )
          (λ e. omega (arith, e, rm_tag_lem CountedIndex.initial_queue_flag))
  ]

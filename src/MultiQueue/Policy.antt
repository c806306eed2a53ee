-- ===== src/MultiQueue/Policy.antt =====
-- The trait `QueueRW` of src/multiqueue.rs and its two implementations. `BCast` counts the readers
-- of a cell and clones the value out of it, `MPMC` moves the value out.
use multiqueue.Prelude.{ℕ, ◌^◌, ◌<◌, ◌≡◌, refl, Bool, true, false, arith, ◌==◌}
use multiqueue.Word.{wrapping_add, wrapping_sub}

-- `drop_in_place_drops` says whether `drop_in_place` destroys the value in the cell. `forget_val` is
-- left out: it ends the life of a value that a failed receive read out and nobody sees.
pub record QueueRw {ℓ} (T : Type ℓ) : Type ℓ where
  pub inc_ref : ℕ → ℕ
  pub dec_ref : ℕ → ℕ
  pub check_ref : ℕ → Bool
  pub do_drop : Bool
  pub get_val : T → T
  pub drop_in_place_drops : Bool

-- The value type's own `clone` is not code of the queue.
unfoldable pub bcast {ℓ} : {T : Type ℓ} → (T → T) → QueueRw T
bcast clone = record {
  inc_ref = λ r. wrapping_add r 1;
  dec_ref = λ r. wrapping_sub r 1;
  check_ref = λ r. r == 0;
  do_drop = true;
  get_val = clone;
  drop_in_place_drops = false;
}

unfoldable pub mpmc {ℓ} : {T : Type ℓ} → QueueRw T
mpmc = record {
  inc_ref = λ r. r;
  dec_ref = λ r. r;
  check_ref = λ _. true;
  do_drop = false;
  get_val = λ v. v;
  drop_in_place_drops = true;
}

-- What the queue needs of a policy: a count that went up and down is as before, a cell that nobody
-- reads may be written, and what a reader gets is the value that was sent.
pub record IsLawful {ℓ} {T : Type ℓ} (p : QueueRw T) : Type ℓ where
  pub balanced : (r : ℕ) → r < 2 ^ 64 → p.dec_ref (p.inc_ref r) ≡ r
  pub idle : p.check_ref 0 ≡ true
  pub faithful : (v : T) → p.get_val v ≡ v

-- A clone that equals its original makes `BCast` lawful.
pub bcast-IsLawful {ℓ} :
    {T : Type ℓ} (clone : T → T) → ((v : T) → clone v ≡ v) → IsLawful (bcast clone)
unfolding bcast
bcast-IsLawful clone same = record { balanced = λ r h. omega arith; idle = refl; faithful = same }

pub mpmc-IsLawful {ℓ} : {T : Type ℓ} → IsLawful (mpmc {T = T})
unfolding mpmc
mpmc-IsLawful = record { balanced = λ r h. refl; idle = refl; faithful = λ v. refl }

-- ===== src/Refinement/Futures/Parking.antt =====
-- `fut_wait` of `FutWait`, with no other thread at work during the call.

use native.Mathlib.Nat.{mod-eq_of_lt, mod-eq-sub-mod}
use multiqueue.Prelude.{
  ℕ, zero, suc, ◌+◌, ◌-◌, ◌%◌, ◌^◌, ◌≤◌, ◌<◌, ◌≡◌, refl, ◌≢◌, ◌⊎◌, inl, inr, List, [], ◌∷◌, arith,
  All, length, get_or, Bool, true, false, Bool-cases, Result, ok, Fault, if◌then◌else◌,
}
use multiqueue.Wait.{check}
use multiqueue.Wait.Laws.{check_lem, check_blank}
use multiqueue.MultiQueue.State.{blank}
use multiqueue.MultiQueue.Futures.Wait.{push}
use multiqueue.MultiQueue.Futures.State.{FutQueue, sight_of}
use multiqueue.MultiQueue.Futures.Park.{Change, spin_times, spin, park, fut_wait}
use multiqueue.Refinement.Log.{IsLog, pow_bounds}

module _ {ℓ κ} {Task : Type κ} {T : Type ℓ} where
  -- A check before which nobody else does anything.
  abbrev pub IsStill : Change Task T → Type (ℓ ⊔ κ)
  IsStill change = (s : FutQueue Task T) → change s ≡ s

  record Spun (seq at spins : ℕ) (changes : List (Change Task T)) (fq : FutQueue Task T)
      (call : Result Fault (Bool × List (Change Task T) × FutQueue Task T)) : Type (ℓ ⊔ κ) where
    pub passed : Bool
    pub rest : List (Change Task T)
    pub result : call ≡ ok (passed, rest, fq)
    pub only : passed ≡ true → check seq (sight_of fq at) ≡ true
    pub still : All IsStill rest
    pub count : length changes ≤ length rest + spins

  spin_times_lem :
      (spins seq at : ℕ) (changes : List (Change Task T)) (fq : FutQueue Task T)
      → All IsStill changes
      → spins ≤ length changes
      → Spun seq at spins changes fq (spin_times spins seq at changes fq)
  unfolding spin_times
  spin_times_lem zero seq at changes fq still enough = record {
    passed = false;
    rest = changes;
    result = refl;
    only = λ e. cc;
    still = still;
    count = omega arith;
  }
  spin_times_lem (suc spins) seq at [] fq still enough = absurd (omega arith)
  spin_times_lem (suc spins) seq at (change ∷ changes) fq still enough =
      rw (still.0 fq) (elim (Bool-cases (check seq (sight_of fq at))) [
        | inl e ↦ rw e (record {
          passed = true;
          rest = changes;
          result = refl;
          only = λ _. e;
          still = still.1;
          count = omega arith;
        })
        | inr e ↦
            let s = spin_times_lem spins seq at changes fq still.1 (omega arith) in
            rw e (record {
              passed = s.passed;
              rest = s.rest;
              result = s.result;
              only = s.only;
              still = s.still;
              count = omega (arith, s.count);
            })
      ])

  -- What `fut_wait` comes to: it passes, or parks the task.
  abbrev pub waited : Task → ℕ → ℕ → FutQueue Task T → Bool × FutQueue Task T
  waited task seq at fq =
      if check seq (sight_of fq at)
      then (false, fq)
      else (true, record fq { wait = push task fq.wait })

  park_lem :
      (task : Task) (seq at : ℕ) (changes : List (Change Task T)) (fq : FutQueue Task T)
      → All IsStill changes
      → 0 < length changes
      → park task seq at changes fq ≡ ok (waited task seq at fq)
  unfolding park
  park_lem task seq at [] fq still some = absurd (omega arith)
  park_lem task seq at (change ∷ changes) fq still some = rw (still.0 fq) refl

  pub fut_wait_lem :
      (task : Task) (seq at : ℕ) (changes : List (Change Task T)) (fq : FutQueue Task T)
      → All IsStill changes
      → fq.wait.spins_first + fq.wait.spins_yield < length changes
      → fut_wait task seq at changes fq ≡ ok (waited task seq at fq)
  unfolding fut_wait spin
  fut_wait_lem task seq at changes fq still enough =
      let s = spin_times_lem fq.wait.spins_first seq at changes fq still (omega arith) in
      elim (Bool-cases s.passed) [
        | inl e ↦ rw (s.result, e, s.only e) refl
        | inr e ↦
            let y =
              spin_times_lem fq.wait.spins_yield seq at s.rest fq s.still
                (omega (arith, s.count)) in
            elim (Bool-cases y.passed) [
              | inl e' ↦ rw (s.result, e, y.result, e', y.only e') refl
              | inr e' ↦
                  rw (s.result, e, y.result, e')
                    (park_lem task seq at y.rest fq y.still (omega (arith, s.count, y.count)))
            ]
      ]

  -- At the end of the log a check fails on a cell that has been written, as long as there are writers.
  pub check_written :
      {k : ℕ} {sent : List T} (fq : FutQueue Task T)
      → IsLog k fq.queue sent
      → fq.queue.writers ≢ 0
      → 2 ^ k ≤ length sent
      → check (length sent) (sight_of fq (length sent % 2 ^ k)) ≡ false
  check_written {k} {sent} fq v some round =
      elim (Bool-cases (check (length sent) (sight_of fq (length sent % 2 ^ k)))) [
        | inl e ↦ absurd (
            not_yet (
              (check_lem (length sent) (sight_of fq (length sent % 2 ^ k)) (omega (arith, v.short))
                  (rw flag (omega (arith, v.short))) (rw flag (omega (arith, bounds)))).0
                e))
        | inr e ↦ e
      ]
    where
      bounds : (0 < 2 ^ k) × (2 ^ k ≤ 2 ^ 61)
      bounds = pow_bounds k v.small

      flag : (get_or fq.queue.cells (length sent % 2 ^ k) blank).wraps ≡ length sent - 2 ^ k
      flag =
          rw
            (
              mod-eq-sub-mod round,
              v.holds (length sent - 2 ^ k) (omega (arith, bounds)) (omega arith),
            )
            refl

      not_yet :
          (fq.queue.writers ≡ 0)
            ⊎ (length sent ≤ (get_or fq.queue.cells (length sent % 2 ^ k) blank).wraps)
          → ⊥
      not_yet (inl z) = some z
      not_yet (inr le) = omega (arith, bounds, rw flag at le)

  -- On a cell that has never been written it passes.
  pub check_unwritten :
      {k : ℕ} {sent : List T} (fq : FutQueue Task T)
      → IsLog k fq.queue sent
      → length sent < 2 ^ k
      → check (length sent) (sight_of fq (length sent % 2 ^ k)) ≡ true
  check_unwritten {k} {sent} fq v first =
      rw (mod-eq_of_lt {n = length sent} {m = 2 ^ k} first, v.blanks (length sent) (omega arith))
        (check_blank (length sent) fq.queue.writers (omega (arith, v.short)))

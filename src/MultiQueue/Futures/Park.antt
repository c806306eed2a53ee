-- ===== src/MultiQueue/Futures/Park.antt =====
-- The waiting of `FutWait` of src/multiqueue.rs.
use multiqueue.Prelude.{
  ℕ, zero, suc, List, [], ◌∷◌, Bool, true, false, Result, ok, err, Fault, out_of_steps, ◌>>=◌,
  if◌then◌else◌,
}
use multiqueue.Wait.{check}
use multiqueue.MultiQueue.Futures.Wait.{FutWait, push}
use multiqueue.MultiQueue.Futures.State.{FutQueue, sight_of}

module _ {ℓ κ} (Task : Type κ) (T : Type ℓ) where
  -- What the others do to the queue before one of the checks of a waiter.
  abbrev pub Change : Type (ℓ ⊔ κ)
  Change = FutQueue Task T → FutQueue Task T

module _ {ℓ κ} {Task : Type κ} {T : Type ℓ} where
  -- Each of the two loops of `FutWait::spin`: whether a check passed, and the changes left over.
  unfoldable pub spin_times :
      ℕ
      → ℕ
      → ℕ
      → List (Change Task T)
      → FutQueue Task T
      → Result Fault (Bool × List (Change Task T) × FutQueue Task T)
  spin_times zero seq at changes fq = ok (false, changes, fq)
  spin_times (suc spins) seq at [] fq = err out_of_steps
  spin_times (suc spins) seq at (change ∷ changes) fq =
      let rest = spin_times spins seq at changes (change fq) in
      if check seq (sight_of (change fq) at) then ok (true, changes, change fq) else rest

  -- `FutWait::spin`: whether all checks failed.
  unfoldable pub spin :
      FutWait Task
      → ℕ
      → ℕ
      → List (Change Task T)
      → FutQueue Task T
      → Result Fault (Bool × List (Change Task T) × FutQueue Task T)
  spin w seq at changes fq = do
    (passed, changes1, fq1) ← spin_times w.spins_first seq at changes fq
    let yielding = do
      (passed', changes2, fq2) ← spin_times w.spins_yield seq at changes1 fq1
      ok (if passed' then (false, changes2, fq2) else (true, changes2, fq2))
    if passed then ok (false, changes1, fq1) else yielding

  -- `FutWait::park`: the check runs under the lock, so that no other thread parks or wakes a task of
  -- this `FutWait` from there to the end.
  unfoldable pub park :
      Task → ℕ → ℕ → List (Change Task T) → FutQueue Task T → Result Fault (Bool × FutQueue Task T)
  park task seq at [] fq = err out_of_steps
  park task seq at (change ∷ changes) fq =
      let fq1 = change fq in
      ok (
        if check seq (sight_of fq1 at)
        then (false, fq1)
        else (true, record fq1 { wait = push task fq1.wait }))

  -- `FutWait::fut_wait`: whether the task has been parked; the sleep has no effect that shows.
  unfoldable pub fut_wait :
      Task → ℕ → ℕ → List (Change Task T) → FutQueue Task T → Result Fault (Bool × FutQueue Task T)
  fut_wait task seq at changes fq = do
    (spun, changes1, fq1) ← spin fq.wait seq at changes fq
    let parking = park task seq at changes1 fq1
    if spun then parking else ok (false, fq1)

-- ===== src/MultiQueue/Futures/Wait.antt =====
-- `FutWait` of src/multiqueue.rs, without the accesses to the queue. The lock of `parked` is held for
-- the whole of each function here.
use multiqueue.Prelude.{ℕ, List, [], ◌∷◌, ◌++◌, ltb, length, if◌then◌else◌}
use multiqueue.Wait.{default_try_spins, default_yield_spins}

pub record FutWait {ℓ} (Task : Type ℓ) : Type ℓ where
  pub spins_first : ℕ
  pub spins_yield : ℕ
  pub parked : List Task

module _ {ℓ} {Task : Type ℓ} where
  unfoldable pub with_spins : ℕ → ℕ → FutWait Task
  with_spins spins_first spins_yield = record {
    spins_first = spins_first;
    spins_yield = spins_yield;
    parked = [];
  }

  unfoldable pub new : FutWait Task
  new = with_spins default_try_spins default_yield_spins

  -- `Clone`: the tasks are not shared with the clone.
  unfoldable pub clone : FutWait Task → FutWait Task
  clone w = with_spins w.spins_first w.spins_yield

  -- `parked.push_back(current())`
  abbrev pub push : Task → FutWait Task → FutWait Task
  push task w = record w { parked = w.parked ++ (task ∷ []) }

  -- `for val in parked.drain(..) { val.notify(); }`: the tasks woken so far, with these.
  unfoldable pub notify_all : FutWait Task → List Task → FutWait Task × List Task
  notify_all w woken = (record w { parked = [] }, woken ++ w.parked)

  -- `notify` of the trait `Wait`: up to 8 tasks are taken out under the lock and notified behind it.
  -- In a call that runs alone this shows in nothing; MultiQueue/Futures/Steps.antt, where other threads
  -- move in between, has the two ways apart.
  unfoldable pub notify : FutWait Task → List Task → FutWait Task × List Task
  notify w woken =
      if ltb 0 (length w.parked)
      then (if ltb 8 (length w.parked)
          then (record w { parked = [] }, woken ++ w.parked)
          else let inline_v = w.parked in (record w { parked = [] }, woken ++ inline_v))
      else (w, woken)

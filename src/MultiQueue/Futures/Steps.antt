-- ===== src/MultiQueue/Futures/Steps.antt =====
-- `park` and `notify` of `FutWait` in src/multiqueue.rs as steps of threads that run side by side.
-- The lock of `parked` is held from the check of `park` to the push behind it, and for what `notify`
-- does to the list; the cells and the count of the writers are changed without it.
use multiqueue.Prelude.{
  ℕ, ◌+◌, ◌-◌, ◌≤◌, ◌<◌, ◌≡◌, List, [], ◌∷◌, ◌++◌, Option, none, some, false, length,
}
use multiqueue.Wait.{Sight, check}
use multiqueue.MultiQueue.Futures.Wait
use multiqueue.MultiQueue.Futures.Wait.{FutWait, push}

-- A task, with the count and the cell that it waits for.
pub record Waiter {ℓ} (Task : Type ℓ) : Type ℓ where
  pub task : Task
  pub seq : ℕ
  pub at : ℕ

pub record Waking {ℓ} (Task : Type ℓ) : Type ℓ where
  -- the flag of each cell, with the count of the writers
  pub sights : ℕ → Sight
  pub wait : FutWait (Waiter Task)
  -- the thread between its check and its push, which holds the lock
  pub holder : Option (Waiter Task)
  -- the calls of `notify` that are still to come, each behind a change of the sights
  pub owed : ℕ
  -- the tasks taken out of the list that are still to be notified
  pub inline_v : List (Waiter Task)
  pub woken : List (Waiter Task)

module _ {ℓ} {Task : Type ℓ} where
  pub data Step (s : Waking Task) : Waking Task → Type ℓ where
    -- a send writes the flag of a cell, or a sender takes itself off the count; either notifies later
    changes : (sights : ℕ → Sight) → Step s (record s { sights = sights; owed = s.owed + 1 })
    -- `park` takes the lock, and its check fails
    locks :
        (w : Waiter Task)
        → s.holder ≡ none
        → check w.seq (s.sights w.at) ≡ false
        → Step s (record s { holder = some w })
    -- `parked.push_back(current())`, and the lock is released
    parks :
        (w : Waiter Task)
        → s.holder ≡ some w
        → Step s (record s { holder = none; wait = push w s.wait })
    -- `notify` takes up to 8 tasks out under the lock
    drains :
        s.holder ≡ none
        → 0 < s.owed
        → length s.wait.parked ≤ 8
        → Step s (record s {
          owed = s.owed - 1;
          wait = record (s.wait) { parked = [] };
          inline_v = s.inline_v ++ s.wait.parked;
        })
    -- and notifies them behind it
    wakes :
        (w : Waiter Task) (ws : List (Waiter Task))
        → s.inline_v ≡ w ∷ ws
        → Step s (record s { inline_v = ws; woken = s.woken ++ (w ∷ []) })
    -- more than 8 are notified under the lock
    wakes_all :
        s.holder ≡ none
        → 0 < s.owed
        → 8 < length s.wait.parked
        → Step s (record s {
          owed = s.owed - 1;
          wait = (Wait.notify s.wait s.woken).0;
          woken = (Wait.notify s.wait s.woken).1;
        })

  -- The states that a fresh `FutWait` can get into.
  pub data Reach (spins_first spins_yield : ℕ) : Waking Task → Type ℓ where
    start :
        (sights : ℕ → Sight)
        → Reach spins_first spins_yield (record {
          sights = sights;
          wait = Wait.with_spins spins_first spins_yield;
          holder = none;
          owed = 0;
          inline_v = [];
          woken = [];
        })
    later :
        {s t : Waking Task}
        → Reach spins_first spins_yield s
        → Step s t
        → Reach spins_first spins_yield t

-- ===== src/Wait.antt =====
-- src/wait.rs: how a receiver waits for its cell. What the other threads do meanwhile shows in what
-- each `check` sees; a strategy runs on the list of these sights, and returns the ones left over.
-- The lock and the condition variable are the parking_lot crate's: a sleep on the variable ends with
-- a notification, and only with one.
pub mod Laws
pub mod Blocking
use multiqueue.Prelude.{
  ℕ, zero, suc, List, [], ◌∷◌, Bool, true, false, ◌||◌, not, Result, ok, err, Fault, out_of_steps,
  ◌>>=◌, ◌==◌, if◌then◌else◌,
}
use multiqueue.CountedIndex.{past, rm_tag}

abbrev pub default_yield_spins : ℕ
default_yield_spins = 50

abbrev pub default_try_spins : ℕ
default_try_spins = 50

-- The flag of the cell and the count of the writers, as a `check` loads them.
pub record Sight : Type 0 where
  pub at : ℕ
  pub wc : ℕ

abbrev pub load_tagless : ℕ → ℕ
load_tagless val = rm_tag val

unfoldable pub check : ℕ → Sight → Bool
check seq s =
    let cur_count = load_tagless s.at in
    (s.wc == 0) || ((seq == cur_count) || (past seq cur_count).1)

pub record Spins : Type 0 where
  pub spins_first : ℕ
  pub spins_yield : ℕ

-- `YieldingWait::new` and `BlockingWait::new`
unfoldable pub new : Spins
new = record { spins_first = default_try_spins; spins_yield = default_yield_spins }

-- `for _ in 0..spins { if check(..) { return; } }`: whether it returned, and the sights left.
unfoldable pub spin : ℕ → ℕ → List Sight → Result Fault (Bool × List Sight)
spin zero seq sights = ok (false, sights)
spin (suc spins) seq [] = err out_of_steps
spin (suc spins) seq (s ∷ sights) =
    let rest = spin spins seq sights in if check seq s then ok (true, sights) else rest

-- `wait` of `BusyWait`
unfoldable pub busy_wait : ℕ → List Sight → Result Fault (List Sight)
busy_wait seq [] = err out_of_steps
busy_wait seq (s ∷ sights) =
    let rest = busy_wait seq sights in if check seq s then ok sights else rest

-- The endless loop of `wait` of `YieldingWait`, on fuel; the yields have no effect that shows.
unfoldable pub yield_loop : ℕ → ℕ → ℕ → List Sight → Result Fault (List Sight)
yield_loop zero spins_yield seq sights = err out_of_steps
yield_loop (suc rounds) spins_yield seq sights = do
  (returned, rest) ← spin spins_yield seq sights
  let again = yield_loop rounds spins_yield seq rest
  if returned then ok rest else again

-- `wait` of `YieldingWait`
unfoldable pub yielding_wait : ℕ → Spins → ℕ → List Sight → Result Fault (List Sight)
yielding_wait rounds w seq sights = do
  (returned, rest) ← spin w.spins_first seq sights
  let looping = yield_loop rounds w.spins_yield seq rest
  if returned then ok rest else looping

-- A moment in the sleeping phase of a `BlockingWait`: what a check sees then, and whether some
-- `notify` has taken the lock and called `notify_all` since the moment before.
pub record Moment : Type 0 where
  pub sight : Sight
  pub notified : Bool

-- Where the waiter stands: about to take the lock, or asleep on the condition variable.
pub data Stage : Type 0 where
  locking asleep : Stage

-- The endless loop of `wait` of `BlockingWait`. Under the lock it checks, and sleeps if that fails;
-- as `notify` needs the lock, no notification falls between this check and the sleep. It sleeps
-- until a notification, and then checks again.
unfoldable pub sleep_loop : Stage → ℕ → List Moment → Result Fault (List Moment)
sleep_loop stage seq [] = err out_of_steps
sleep_loop locking seq (m ∷ moments) =
    let sleeping = sleep_loop asleep seq moments in
    if check seq m.sight then ok moments else sleeping
sleep_loop asleep seq (m ∷ moments) =
    let sleeping = sleep_loop asleep seq moments in
    let again = sleep_loop locking seq moments in
    if not m.notified then sleeping else if check seq m.sight then ok moments else again

-- `wait` of `BlockingWait`: on the sights of its spins, and then on moments.
unfoldable pub blocking_wait :
    Spins → ℕ → List Sight → List Moment → Result Fault (List Sight × List Moment)
blocking_wait w seq sights moments = do
  (returned, rest) ← spin w.spins_first seq sights
  let yielding = do
    (returned', rest') ← spin w.spins_yield seq rest
    let sleeping = do left ← sleep_loop locking seq moments; ok (rest', left)
    if returned' then ok (rest', moments) else sleeping
  if returned then ok (rest, moments) else yielding

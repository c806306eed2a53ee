-- ===== src/CountedIndex/Moves.antt =====
-- Threads that move one `CountedIndex` of src/countedindex.rs side by side: the senders of a queue its
-- head, or the consumers of a stream its position. Each of them loads the counter and tries to commit;
-- a step is one access to the counter.
use multiqueue.Prelude.{ℕ, ◌≡◌, List, [], ◌∷◌, ◌++◌, Bool, Option, none, some, ◌==◌, if◌then◌else◌}
use multiqueue.CountedIndex.{CountedIndex, Transaction, load_transaction, commit}

pub record Moving : Type 0 where
  pub index : CountedIndex
  -- the transaction that each thread holds
  pub tries : ℕ → Option Transaction
  -- the positions that the commits so far have taken, the first one first
  pub taken : List ℕ

abbrev pub hold : ℕ → Option Transaction → (ℕ → Option Transaction) → ℕ → Option Transaction
hold thread t tries other = if thread == other then t else tries other

pub data Step (s : Moving) : Moving → Type 0 where
  -- `load_transaction`, or `reload`
  loads :
      (thread : ℕ)
      → Step s (record s { tries = hold thread (some (load_transaction s.index)) s.tries })
  -- a `commit` of one that succeeds
  commits :
      (thread : ℕ) (t : Transaction) (weak : Bool) (c : CountedIndex)
      → s.tries thread ≡ some t
      → commit s.index t 1 weak ≡ (none, c)
      → Step s (record {
        index = c;
        tries = hold thread none s.tries;
        taken = s.taken ++ (t.loaded_vals ∷ []);
      })
  -- and one that fails, and gives back a transaction to try again
  fails :
      (thread : ℕ) (t again : Transaction) (weak : Bool) (c : CountedIndex)
      → s.tries thread ≡ some t
      → commit s.index t 1 weak ≡ (some again, c)
      → Step s (record s { index = c; tries = hold thread (some again) s.tries })

-- The states that the threads can get into from a counter.
pub data Reach (from : CountedIndex) : Moving → Type 0 where
  start : Reach from (record { index = from; tries = λ _. none; taken = [] })
  later : {s t : Moving} → Reach from s → Step s t → Reach from t

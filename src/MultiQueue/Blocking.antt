-- ===== src/MultiQueue/Blocking.antt =====
-- `recv` and `recv_view` of `InnerRecv` in src/multiqueue.rs, which wait while there is nothing to
-- receive. The waiter is an argument, and so is what the other threads do to the queue during a
-- wait, a `Turn` for each time round the loop; the strategies of a waiter are in Wait.antt.
use multiqueue.Prelude.{
  ℕ, zero, suc, ◌-◌, List, [], ◌∷◌, length, get_or, none, some, Bool, Result, ok, err, Fault,
  out_of_steps, null_read, ◌>>=◌,
}
use multiqueue.Wait.{Sight}
use multiqueue.ReadCursor.Attempt.{Reader, load_count}
use multiqueue.MultiQueue.Policy.{QueueRw}
use multiqueue.MultiQueue.State.{MultiQueue, InnerRecv, blank}
use multiqueue.MultiQueue.Recv
use multiqueue.MultiQueue.Recv.{TryRecvError, empty, disconnected, Received}
use multiqueue.MultiQueue.Handles.{examine_signals}

-- `std::sync::mpsc::RecvError`
pub data RecvError : Type 0 where
  recv_error : RecvError

-- The outcomes of the weak compare-exchanges of one `try_recv`, and, for the wait that may follow
-- it, what the other threads make of the queue before each check of the waiter.
pub record Turn {ℓ} (T : Type ℓ) : Type ℓ where
  pub outcomes : List Bool
  pub meanwhile : List (MultiQueue T → MultiQueue T)

-- `wait` of the waiter, on the count and on what its checks see; it returns the sights left over.
abbrev pub Waiter : Type 0
Waiter = ℕ → List Sight → Result Fault (List Sight)

-- What a call of a handle leaves behind.
abbrev pub Handled {ℓ κ μ} : Type ℓ → Type κ → Type μ → Type (ℓ ⊔ κ ⊔ μ)
Handled T E R = Result Fault (MultiQueue T × InnerRecv × Result E R)

module _ {ℓ} {T : Type ℓ} where
  -- What `check` sees of the cell `pt`.
  abbrev pub sight_at : ℕ → MultiQueue T → Sight
  sight_at pt q = record { at = (get_or q.cells pt blank).wraps; wc = q.writers }

  unfoldable pub sights : ℕ → List (MultiQueue T → MultiQueue T) → MultiQueue T → List Sight
  sights pt [] q = []
  sights pt (change ∷ changes) q = sight_at pt (change q) ∷ sights pt changes (change q)

  -- The queue after the first `n` changes.
  unfoldable pub after : ℕ → List (MultiQueue T → MultiQueue T) → MultiQueue T → MultiQueue T
  after zero changes q = q
  after (suc n) [] q = q
  after (suc n) (change ∷ changes) q = after n changes (change q)

  -- `waiter.wait(count, pt, writers)`: the queue is left as the last check saw it.
  unfoldable pub wait_on :
      Waiter
      → ℕ
      → ℕ
      → List (MultiQueue T → MultiQueue T)
      → MultiQueue T
      → Result Fault (MultiQueue T)
  wait_on wait count pt changes q = do
    rest ← wait count (sights pt changes q)
    ok (after (length changes - length rest) changes q)

  -- The loop of both calls, for the try that each makes.
  unfoldable pub recv_loop {κ} :
      {R : Type κ}
      → (List Bool → MultiQueue T → Reader → Result Fault (Received T R))
      → Waiter
      → List (Turn T)
      → MultiQueue T
      → InnerRecv
      → Handled T RecvError R
  recv_loop try_once wait [] q rx = err out_of_steps
  recv_loop try_once wait (turn ∷ turns) q rx = do
    (q', reader, result) ← try_once turn.outcomes q rx.reader
    let rx' : InnerRecv = record rx { reader = reader }
    elim result [
      | ok v ↦ ok (q', rx', ok v)
      | err refusal ↦ elim refusal.1 [
        | disconnected ↦ ok (q', rx', err recv_error)
        | empty ↦ elim refusal.0 [
          | none ↦ err null_read
          | some pt ↦
              let count = load_count q'.manager.heap reader in
              wait_on wait count pt turn.meanwhile q' >>= λ q''.
              recv_loop try_once wait turns q'' rx'
        ]
      ]
    ]

  module _ (p : QueueRw T) where
    unfoldable pub recv : Waiter → List (Turn T) → MultiQueue T → InnerRecv → Handled T RecvError T
    recv wait turns q rx = recv_loop (Recv.try_recv p) wait turns (examine_signals rx q) rx

    unfoldable pub recv_view {κ} :
        {R : Type κ}
        → (T → R)
        → Waiter
        → List (Turn T)
        → MultiQueue T
        → InnerRecv
        → Handled T RecvError R
    recv_view op wait turns q rx =
        recv_loop (λ _. Recv.try_recv_view p op) wait turns (examine_signals rx q) rx

-- ===== src/Refinement/Woken.antt =====
-- A receiver of src/multiqueue.rs that waits with a strategy of src/wait.rs while others work.
use multiqueue.Prelude.{ℕ, ◌-◌, ◌<◌, ◌≡◌, ◌⊎◌, List, [], ◌∷◌, ◌++◌, Elem, length, true, ok}
use multiqueue.Wait.{check}
use multiqueue.Wait.Laws.{IsReady, after_ready}
use multiqueue.MultiQueue.State.{MultiQueue, InnerRecv}
use multiqueue.MultiQueue.Blocking.{Waiter, Handled, RecvError, sight_at, sights, after}
use multiqueue.Refinement.Log.{readers, position, IsLog}
use multiqueue.Refinement.Blocking.{Returns, Ends}

-- A waiter that returns right after the first check that passes.
abbrev pub IsPrompt : Waiter → Type 0
IsPrompt wait =
    (seq : ℕ) (seen : List multiqueue.Wait.Sight)
    → IsReady seq seen
    → wait seq seen ≡ ok (after_ready seq seen)

module _ {ℓ} {T : Type ℓ} where
  -- Something holds of the queue before each check.
  abbrev pub Always {κ} :
      (MultiQueue T → Type κ) → List (MultiQueue T → MultiQueue T) → MultiQueue T → Type κ
  Always P [] q = Unit
  Always P (change ∷ changes) q = P (change q) × Always P changes (change q)

  -- The others have sent `later` values, and left alone the stream that stood at the end.
  pub record Grown (k : ℕ) (sent : List T) (stream : ℕ) (view : MultiQueue T) : Type ℓ where
    pub later : List T
    pub log : IsLog k view (sent ++ later)
    pub there : Elem stream (readers view)
    pub stays : (position view stream).val ≡ length sent

  -- The queue that the last check of a wait has seen.
  record Seen {κ} (P : MultiQueue T → Type κ) (seq pt : ℕ)
      (changes : List (MultiQueue T → MultiQueue T)) (q : MultiQueue T) : Type (ℓ ⊔ κ) where
    view : MultiQueue T
    holds : P view
    passes : check seq (sight_at pt view) ≡ true
    fewer : length (after_ready seq (sights pt changes q)) < length changes
    last : after (length changes - length (after_ready seq (sights pt changes q))) changes q ≡ view

  -- What `recv` comes to on the queue that it was woken for.
  pub record Wakes (k : ℕ) (sent : List T) (rx : InnerRecv) (call : Handled T RecvError T)
      : Type ℓ where
    pub view : MultiQueue T
    pub grown : Grown k sent rx.reader.pos view
    pub result :
        Returns k view (sent ++ grown.later) rx call ⊎ Ends view (sent ++ grown.later) rx call

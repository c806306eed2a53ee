-- ===== src/Refinement/Threads/Progress.antt =====
-- A sender that is left alone ends its call, wherever it stands.
use multiqueue.Prelude.{
  ℕ, get_or, ◌≡◌, ◌⊎◌, refl, ap, inl, inr, List, [], ◌∷◌, ◌++◌, Option, none, some, false,
  Bool-cases, ok, arith,
}
use multiqueue.CountedIndex
use multiqueue.CountedIndex.{CountedIndex, Transaction, matches_previous}
use multiqueue.CountedIndex.Bounds.{commit_lem}
use multiqueue.Heap.{update_self}
use multiqueue.ReadCursor.Group.{group_max_diff}
use multiqueue.MultiQueue.Policy.{QueueRw}
use multiqueue.MultiQueue.State.{MultiQueue}
use multiqueue.MultiQueue.Send.{reload_tail_multi}
use multiqueue.MultiQueue.Threads.{
  Pc, idle, loaded, stale, roomy, unread, claimed, written, Shared, System, cell_of, has_room,
  seems_full, stays_full, finds_room, is_unread, is_read, loses, claims, writes, publishes,
}
use multiqueue.Refinement.Log.{readers}
use multiqueue.Refinement.Threads.Alone.{Finishes, moves, returns}
use multiqueue.Refinement.Threads.Room.{after_scan, reload_tail_multi-after_scan}

-- The value that a thread is sending.
abbrev pub in_hand {ℓ} : {T : Type ℓ} → Pc T → Option T
in_hand (loaded t val) = some val
in_hand (stale t val tail) = some val
in_hand (roomy t val) = some val
in_hand (unread t val) = some val
in_hand (claimed t val) = some val
in_hand (written t val) = some val
in_hand _ = none

-- The log is as it was before, or has got the value.
abbrev pub Adds {ℓ} : {T : Type ℓ} → List T → T → Shared T → Type ℓ
Adds before val m = (m.sent ≡ before) ⊎ (m.sent ≡ before ++ (val ∷ []))

module _ {ℓ} {T : Type ℓ} (p : QueueRw T) (sole : ℕ → Option ℕ) (i : ℕ) (before : List T)
    (val : T) where
  v_of : (v : T) → (◌≡◌ {A = Option T} (some v) (some val)) → v ≡ val
  v_of v e = cc

  abbrev Ends : System T → Type ℓ
  Ends s = Finishes p sole i (Adds before val) s

  written-Finishes :
      (s : System T) (t : Transaction) → s.pc i ≡ written t val → Adds before val s.shared → Ends s
  written-Finishes s t at added = returns p sole i (Adds before val) at publishes added

  claimed-Finishes :
      (s : System T) (t : Transaction) → s.pc i ≡ claimed t val → Adds before val s.shared → Ends s
  claimed-Finishes s t at added =
      moves p sole i (Adds before val) at writes
        (written-Finishes _ t (update_self s.pc i (written t val)) added)

  -- The places before the commit, for what is known of the transaction and the head, given what the
  -- thread does once it has found the cell unread.
  module _ (P : Transaction → CountedIndex → Type 0)
      (unread_ends : (s : System T) (t : Transaction)
        → s.pc i ≡ unread t val
        → P t s.shared.queue.head
        → s.shared.sent ≡ before
        → Ends s) where
    roomy-Finishes :
        (s : System T) (t : Transaction)
        → s.pc i ≡ roomy t val
        → P t s.shared.queue.head
        → s.shared.sent ≡ before
        → Ends s
    roomy-Finishes s t at known same =
        elim (Bool-cases (p.check_ref (get_or s.shared.queue.refs (cell_of t) 0))) [
          | inl test ↦
              moves p sole i (Adds before val) at (is_unread test)
                (unread_ends _ t (update_self s.pc i (unread t val)) known same)
          | inr test ↦ returns p sole i (Adds before val) at (is_read test) (inl same)
        ]

    reloaded-Finishes :
        (s : System T) (t : Transaction) (tail : ℕ) (r : MultiQueue T × ℕ)
        → reload_tail_multi s.shared.queue tail (CountedIndex.get t).1 ≡ ok r
        → r.0.head ≡ s.shared.queue.head
        → s.pc i ≡ stale t val tail
        → P t s.shared.queue.head
        → s.shared.sent ≡ before
        → Ends s
    reloaded-Finishes s t tail (q, new_tail) e head at known same =
        elim (Bool-cases (matches_previous t new_tail)) [
          | inl test ↦
              returns p sole i (Adds before val) at (stays_full q new_tail e test) (inl same)
          | inr test ↦
              moves p sole i (Adds before val) at (finds_room q new_tail e test)
                (roomy-Finishes _ t (update_self s.pc i (roomy t val)) (rw head known) same)
        ]

    after_scan-head :
        (q : MultiQueue T) (tail c : ℕ) (scan : Option ℕ)
        → (after_scan q tail c scan).0.head ≡ q.head
    unfolding after_scan
    after_scan-head q tail c none = refl
    after_scan-head q tail c (some d) = ground arith

    stale-Finishes :
        (s : System T) (t : Transaction) (tail : ℕ)
        → s.pc i ≡ stale t val tail
        → P t s.shared.queue.head
        → s.shared.sent ≡ before
        → Ends s
    stale-Finishes s t tail at known same =
        let q = s.shared.queue in
        let scan = group_max_diff q.manager.heap (readers q) (CountedIndex.get t).1 in
        reloaded-Finishes s t tail (after_scan q tail (CountedIndex.get t).1 scan)
          (reload_tail_multi-after_scan q tail (CountedIndex.get t).1 scan refl)
          (after_scan-head q tail (CountedIndex.get t).1 scan) at known same

    loaded-Finishes :
        (s : System T) (t : Transaction)
        → s.pc i ≡ loaded t val
        → P t s.shared.queue.head
        → s.shared.sent ≡ before
        → Ends s
    loaded-Finishes s t at known same =
        elim (Bool-cases (matches_previous t s.shared.queue.tail_cache)) [
          | inl test ↦ moves p sole i (Adds before val) at (seems_full test) (
              stale-Finishes _ t s.shared.queue.tail_cache
                (update_self s.pc i (stale t val s.shared.queue.tail_cache)) known same)
          | inr test ↦
              moves p sole i (Adds before val) at (has_room test)
                (roomy-Finishes _ t (update_self s.pc i (roomy t val)) known same)
        ]

  -- A transaction that has the head's value commits.
  abbrev IsCurrent : Transaction → CountedIndex → Type 0
  IsCurrent t head = head.val ≡ t.loaded_vals

  current-Finishes :
      (s : System T) (t : Transaction)
      → s.pc i ≡ unread t val
      → IsCurrent t s.shared.queue.head
      → s.shared.sent ≡ before
      → Ends s
  current-Finishes s t at known same = elim (commit_lem s.shared.queue.head t 1 false) [
    | inl (won, _) ↦ moves p sole i (Adds before val) at (claims false _ won) (
        claimed-Finishes _ t (update_self s.pc i (claimed t val))
          (inr (ap (λ (l : List T). l ++ (val ∷ [])) same)))
    | inr (_, inl ne) ↦ absurd (ne known)
    | inr (_, inr no_reason) ↦ cc
  ]

  -- One that has an older value loads the head's, and then commits.
  unread-Finishes :
      (s : System T) (t : Transaction)
      → s.pc i ≡ unread t val
      → Unit {0}
      → s.shared.sent ≡ before
      → Ends s
  unread-Finishes s t at known same = elim (commit_lem s.shared.queue.head t 1 false) [
    | inl (won, _) ↦ moves p sole i (Adds before val) at (claims false _ won) (
        claimed-Finishes _ t (update_self s.pc i (claimed t val))
          (inr (ap (λ (l : List T). l ++ (val ∷ [])) same)))
    | inr (lost, _) ↦
        let again : Transaction = record t { loaded_vals = s.shared.queue.head.val } in
        moves p sole i (Adds before val) at (loses false again s.shared.queue.head lost) (
          loaded-Finishes IsCurrent current-Finishes _ again (update_self s.pc i (loaded again val))
            refl same)
  ]

  place-Finishes :
      (s : System T) (x : Pc T)
      → s.pc i ≡ x
      → in_hand x ≡ some val
      → s.shared.sent ≡ before
      → Ends s
  place-Finishes s (loaded t v) at e same =
      loaded-Finishes (λ _ _. Unit) unread-Finishes s t (rw (v_of v e) at at) tt same
  place-Finishes s (stale t v tail) at e same =
      stale-Finishes (λ _ _. Unit) unread-Finishes s t tail (rw (v_of v e) at at) tt same
  place-Finishes s (roomy t v) at e same =
      roomy-Finishes (λ _ _. Unit) unread-Finishes s t (rw (v_of v e) at at) tt same
  place-Finishes s (unread t v) at e same = unread-Finishes s t (rw (v_of v e) at at) tt same
  place-Finishes s (claimed t v) at e same = claimed-Finishes s t (rw (v_of v e) at at) (inl same)
  place-Finishes s (written t v) at e same = written-Finishes s t (rw (v_of v e) at at) (inl same)
  place-Finishes s idle at e same = cc
  place-Finishes s _ at e same = cc

-- From every state in which a thread is within `try_send_multi`, whatever the others have done so
-- far, the thread has moves of its own that end the call while the others stand still, and after
-- them the log is as before or has got the thread's value.
pub sender-Finishes {ℓ} :
    {T : Type ℓ} (p : QueueRw T) (sole : ℕ → Option ℕ) (i : ℕ) (s : System T) (val : T)
    → in_hand (s.pc i) ≡ some val
    → Finishes p sole i (Adds s.shared.sent val) s
sender-Finishes p sole i s val e = place-Finishes p sole i s.shared.sent val s (s.pc i) refl e refl

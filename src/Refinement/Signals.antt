-- ===== src/Refinement/Signals.antt =====
-- The signals that a handle looks at before its call: working on them leaves the log alone.
use multiqueue.Prelude.{ℕ, ◌≡◌, refl, ap, ◌∙◌, inl, inr, List, Option, not, Bool-cases, ◌==◌}
use multiqueue.AtomicSignal
use multiqueue.Memory
use multiqueue.Memory.{MemoryManager}
use multiqueue.MultiQueue.State.{MultiQueue, InnerRecv}
use multiqueue.MultiQueue.Handles.{refresh_token, examine_signals}
use multiqueue.Refinement.Log.{readers, position, IsLog}

-- What no log depends on: all of the manager but the positions and groups of the streams, what was
-- destroyed, and how often the waiter was notified.
pub outside-IsLog {ℓ} :
    {T : Type ℓ} {k : ℕ} {q : MultiQueue T} {sent : List T} (m : MemoryManager)
    (dropped : List (Option T)) (notified : ℕ)
    → m.heap.pos ≡ q.manager.heap.pos
    → m.heap.group ≡ q.manager.heap.group
    → IsLog k q sent
    → IsLog k (record q { manager = m; dropped = dropped; notified = notified }) sent
outside-IsLog {k} {q} {sent} m dropped notified same_pos same_group v = record {
  small = v.small;
  short = v.short;
  capacity = v.capacity;
  mask = v.mask;
  counted = v.counted;
  cells_width = v.cells_width;
  idle = v.idle;
  holds = v.holds;
  blanks = v.blanks;
  streams = rw (same_pos, same_group) v.streams;
  cache = v.cache;
  behind = rw (same_pos, same_group) v.behind;
}

module _ {ℓ} {T : Type ℓ} where
  -- What the work on the signals changes: tokens only.
  pub record Refreshed (q q' : MultiQueue T) : Type ℓ where
    pub manager : MemoryManager
    pub only_manager : q' ≡ record q { manager = manager }
    pub same_pos : manager.heap.pos ≡ q.manager.heap.pos
    pub same_group : manager.heap.group ≡ q.manager.heap.group
    pub same_signal : manager.signal ≡ q.manager.signal

  pub Refreshed-refl : (q : MultiQueue T) → Refreshed q q
  Refreshed-refl q = record {
    manager = q.manager;
    only_manager = refl;
    same_pos = refl;
    same_group = refl;
    same_signal = refl;
  }

  pub Refreshed-trans :
      {q q' q'' : MultiQueue T} → Refreshed q q' → Refreshed q' q'' → Refreshed q q''
  Refreshed-trans {q} {q'} {q''} a b = record {
    manager = b.manager;
    only_manager =
        b.only_manager ∙ ap (λ (s : MultiQueue T). record s { manager = b.manager }) a.only_manager;
    same_pos =
        b.same_pos ∙ ap (λ (s : MultiQueue T). s.manager.heap.pos) a.only_manager ∙ a.same_pos;
    same_group =
        b.same_group
        ∙ ap (λ (s : MultiQueue T). s.manager.heap.group) a.only_manager
        ∙ a.same_group;
    same_signal =
        b.same_signal ∙ ap (λ (s : MultiQueue T). s.manager.signal) a.only_manager ∙ a.same_signal;
  }

  pub refresh_token-Refreshed :
      (token : ℕ) (signal : AtomicSignal.LoadedSignal) (q : MultiQueue T)
      → Refreshed q (refresh_token token signal q)
  unfolding refresh_token Memory.update_token
  refresh_token-Refreshed token signal q = elim (Bool-cases (AtomicSignal.get_epoch signal)) [
    | inl e ↦ elim (Bool-cases (not (q.manager.heap.epochs token == q.manager.epoch))) [
      | inl moved ↦
          rw (e, moved)
            (record {
              manager = _;
              only_manager = refl;
              same_pos = refl;
              same_group = refl;
              same_signal = refl;
            })
      | inr same ↦ rw (e, same) (Refreshed-refl q)
    ]
    | inr e ↦ rw e (Refreshed-refl q)
  ]

  pub examine_signals-Refreshed :
      (rx : InnerRecv) (q : MultiQueue T) → Refreshed q (examine_signals rx q)
  unfolding examine_signals
  examine_signals-Refreshed rx q =
      elim (Bool-cases (AtomicSignal.has_action (AtomicSignal.load q.manager.signal))) [
        | inl e ↦ rw e (refresh_token-Refreshed rx.token (AtomicSignal.load q.manager.signal) q)
        | inr e ↦ rw e (Refreshed-refl q)
      ]

  pub Refreshed-IsLog :
      {k : ℕ} {q q' : MultiQueue T} {sent : List T}
      → Refreshed q q'
      → IsLog k q sent
      → IsLog k q' sent
  Refreshed-IsLog {q} r v =
      rw r.only_manager (outside-IsLog r.manager q.dropped q.notified r.same_pos r.same_group v)

  pub Refreshed-position :
      {q q' : MultiQueue T} → Refreshed q q' → (position q' ≡ position q) × (readers q' ≡ readers q)
  Refreshed-position {q} r = (
    rw r.only_manager r.same_pos,
    rw r.only_manager (ap (λ (g : ℕ → List ℕ). g q.tail.readers) r.same_group),
  )

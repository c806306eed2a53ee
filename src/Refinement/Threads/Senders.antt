-- ===== src/Refinement/Threads/Senders.antt =====
-- The moves of a sender keep the invariant: `try_send_multi`, step by step.

use multiqueue.Prelude.{
  ℕ, ◌+◌, ◌-◌, ◌%◌, ◌^◌, ◌≤◌, ◌<◌, ◌≡◌, refl, sym, ap, ◌∙◌, inl, inr, [], ◌∷◌, ◌++◌, Option, none,
  some, arith, All, All-imp, length, length-append, get_elem?, get_elem?-append_last, set, Bool,
  false, ok,
}
use multiqueue.CountedIndex
use multiqueue.CountedIndex.{CountedIndex, Transaction, rm_tag, matches_previous}
use multiqueue.CountedIndex.Bounds.{get_lem, commit_lem, store_val_one}
use multiqueue.Heap.{update}
use multiqueue.MultiQueue.Policy.{QueueRw}
use multiqueue.MultiQueue.State.{QueueEntry, MultiQueue}
use multiqueue.MultiQueue.Send.{reload_tail_multi}
use multiqueue.MultiQueue.Threads.{
  Pc, idle, loaded, unread, claimed, written, Shared, with_queue, cell_of, put_val, publish,
}
use multiqueue.Refinement.Log.{readers, position, InWindow}
use multiqueue.Refinement.Threads.Sound.{view, Owns, cell_at, Cached, Room, Claim, Local, Sound}
use multiqueue.Refinement.Threads.Room.{Reloaded, reload_tail_multi-Reloaded}
use multiqueue.Refinement.Threads.Changes.{
  Claim-bounds, Store-cache, Meanwhile-cache, Store-claim, Meanwhile-claim, Store-set,
  Meanwhile-set, cell_at-set_self,
}
use multiqueue.Refinement.Threads.Assembly.{IsFree, quiet, assembled}
use multiqueue.Refinement.Threads.Flags.{still, stale_flag}

module _ {ℓ} {T : Type ℓ} (k : ℕ) {sole : ℕ → Option ℕ} {first : ℕ → ℕ} (i : ℕ) (m : Shared T)
    {pc : ℕ → Pc T} (sound : Sound k sole first (view m) pc) where
  pub begins_send-Sound :
      (val : T)
      → pc i ≡ idle
      → Sound k sole first
          (view m)
          (update pc i (loaded (CountedIndex.load_transaction m.queue.head) val))
  unfolding CountedIndex.load_transaction
  begins_send-Sound val at =
      still k i sound idle (loaded (CountedIndex.load_transaction m.queue.head) val) at (λ c o. o)
        (λ c o. o)
        (record { mask = sound.store.mask; reached = omega (arith, sound.store.counted) })

  module _ {t : Transaction} (tail : ℕ) {q' : MultiQueue T} {new_tail : ℕ}
      (f : Cached k (view m) t tail)
      (e : reload_tail_multi m.queue tail (CountedIndex.get t).1 ≡ ok (q', new_tail)) where
    reloaded : Reloaded k m.queue t q' new_tail
    unfolding CountedIndex.get
    reloaded =
        reload_tail_multi-Reloaded m.queue t tail sound.store.small sound.store.short
          sound.store.streams sound.store.some_stream sound.store.cache sound.store.behind
          f.fits.mask f.fits.reached f.old e

    pub reloads-Sound :
        (x x' : Pc T)
        → pc i ≡ x
        → IsFree x
        → IsFree x'
        → Local k sole i (view (with_queue m q')) x'
        → Sound k sole first (view (with_queue m q')) (update pc i x')
    reloads-Sound x x' at free free' own =
        quiet k i x x' at sound
          (rw reloaded.queue (Store-cache k i sound reloaded.cache reloaded.grown reloaded.behind))
          (rw reloaded.queue
            (Meanwhile-cache k i sound reloaded.cache reloaded.grown reloaded.behind))
          own refl free free'

    pub Room-of_reload : matches_previous t new_tail ≡ false → Room k (view (with_queue m q')) t
    Room-of_reload test = rw reloaded.queue (record {
      fits = record { mask = f.fits.mask; reached = f.fits.reached };
      room = reloaded.room test;
    })

  -- The compare-exchange that fails hands the new value of the head back.
  pub loses-Sound :
      (t again : Transaction) (val : T) (weak : Bool) (head : CountedIndex)
      → pc i ≡ unread t val
      → CountedIndex.commit m.queue.head t 1 weak ≡ (some again, head)
      → Sound k sole first
          (view (with_queue m (record (m.queue) { head = head })))
          (update pc i (loaded again val))
  loses-Sound t again val weak head at e = elim (commit_lem m.queue.head t 1 weak) [
    | inl (won, _) ↦ cc
    | inr (lost, _) ↦
        let back : head ≡ m.queue.head = cc in
        let new : again ≡ record t { loaded_vals = m.queue.head.val } = cc in
        rw (back, new)
          (still k i sound (unread t val) (loaded (record t { loaded_vals = m.queue.head.val }) val)
            at (λ c o. o) (λ c o. o)
            (record {
              mask = (rw at at (sound.locals i)).fits.mask;
              reached = omega (arith, sound.store.counted);
            }))
  ]

  -- The one that succeeds adds the value to the log, and its position is the thread's own.
  pub claims-Sound :
      (t : Transaction) (val : T) (weak : Bool) (head : CountedIndex)
      → pc i ≡ unread t val
      → CountedIndex.commit m.queue.head t 1 weak ≡ (none, head)
      → length m.sent + 1 < 2 ^ 63 - 1
      → Room k (view m) t
      → Sound k sole first
          (view
            (record m { queue = record (m.queue) { head = head }; sent = m.sent ++ (val ∷ []) }))
          (update pc i (claimed t val))
  unfolding CountedIndex.commit_direct
  claims-Sound t val weak head at e fits room = elim (commit_lem m.queue.head t 1 weak) [
    | inr (lost, _) ↦ cc
    | inl (won, was) ↦
        let new : head ≡ CountedIndex.commit_direct m.queue.head t 1 = cc in
        let here : t.loaded_vals ≡ length m.sent = sym was ∙ sound.store.counted in
        let mask : head.mask ≡ 2 ^ k - 1 = rw new sound.store.mask in
        let counted : head.val ≡ length m.sent + 1 =
          rw new (omega (arith, here, store_val_one t (omega (arith, here)))) in
        let ahead : All (λ s. (position m.queue s).val ≤ t.loaded_vals) (readers m.queue) =
          All-imp (λ s. InWindow (2 ^ k) (length m.sent) (position m.queue s)) _ (readers m.queue)
            (λ s w. omega (arith, here, w.1)) sound.store.streams in
        assembled k i (unread t val) (claimed t val) at sound
          (Store-claim k i sound val head mask counted fits (omega (arith, here, room.room)))
          (Meanwhile-claim k i sound val head mask counted fits (omega (arith, here, room.room)))
          (record {
            mask = room.fits.mask;
            is_sent = get_elem?-append_last m.sent val t.loaded_vals here;
            ahead = ahead;
            older = λ d le lt. rw here (stale_flag k i sound d (omega (arith, here)) lt);
          })
          (λ c o. inr (omega (arith, here, o)))
          λ c lt before. elim before [
            | inl o ↦ absurd o
            | inr late ↦ inr (omega (arith, here, length-append m.sent (val ∷ [])))
          ]
  ]

  cell_of_lem : (t : Transaction) → t.mask ≡ 2 ^ k - 1 → cell_of t ≡ t.loaded_vals % 2 ^ k
  cell_of_lem t mask = ap (λ (r : ℕ × ℕ). r.0) (get_lem t k mask)

  pub writes-Sound :
      (p : QueueRw T) (t : Transaction) (val : T)
      → pc i ≡ claimed t val
      → Claim k (view m) t val
      → Sound k sole first
          (view (with_queue m (put_val p m.queue (cell_of t) val)))
          (update pc i (written t val))
  unfolding put_val
  writes-Sound p t val at claim = rw (cell_of_lem t claim.mask) (
      assembled k i (claimed t val) (written t val) at sound (Store-set k i sound entry claim mine)
        (Meanwhile-set k i sound entry claim mine)
        (
          record {
            mask = claim.mask;
            is_sent = claim.is_sent;
            ahead = claim.ahead;
            older = rw (cell_at-set_self k i sound entry claim mine) claim.older;
          },
          ap QueueEntry.val (cell_at-set_self k i sound entry claim mine),
        )
        (λ c o. inl o)
        λ c lt before. elim before [ inl o ↦ inr o | inr late ↦ absurd (omega arith) ])
    where
      entry : QueueEntry T
      entry = record { val = some val; wraps = (cell_at k (view m) t.loaded_vals).wraps }

      mine : Owns (pc i) t.loaded_vals
      mine = rw at refl

  pub publishes-Sound :
      (t : Transaction) (val : T)
      → pc i ≡ written t val
      → Claim k (view m) t val
      → (cell_at k (view m) t.loaded_vals).val ≡ some val
      → Sound k sole first
          (view (with_queue m (publish m.queue (cell_of t) (CountedIndex.get t).1)))
          (update pc i idle)
  unfolding publish CountedIndex.get
  publishes-Sound t val at claim there = rw (cell_of_lem t claim.mask) (
      assembled k i (written t val) idle at sound (Store-set k i sound entry claim mine)
        (Meanwhile-set k i sound entry claim mine) tt (λ c o. absurd o)
        λ c lt before. elim before [
          | inl o ↦ inl (rw (← o) (Claim-bounds k sound.store claim).0, rw (← o) here)
          | inr late ↦ absurd (omega arith)
        ])
    where
      entry : QueueEntry T
      entry = record { val = (cell_at k (view m) t.loaded_vals).val; wraps = t.loaded_vals }

      mine : Owns (pc i) t.loaded_vals
      mine = rw at refl

      here :
          cell_at k
            (record (view m) { cells = set m.queue.cells (t.loaded_vals % 2 ^ k) entry })
            t.loaded_vals
          ≡ record { val = get_elem? m.sent t.loaded_vals; wraps = t.loaded_vals }
      here =
          cell_at-set_self k i sound entry claim mine
          ∙ ap (λ (x : Option T). record { val = x; wraps = t.loaded_vals })
              (there ∙ sym claim.is_sent)

-- ===== src/Refinement/Threads/Pinning.antt =====
-- A move keeps what the counted consumers have pinned.
use native.Mathlib.Decide.{ℕ_discrete}
use native.Mathlib.Nat.{mod-eq-sub-mod}
use multiqueue.Prelude.{
  ℕ, ◌+◌, ◌-◌, ◌%◌, ◌^◌, ◌≤◌, ◌<◌, ◌≡◌, ◌≢◌, refl, sym, ap, ◌∙◌, inl, inr, Option, arith, All-Elem,
  length, length-append, get_or, ==_iff,
}
use multiqueue.CountedIndex.{Transaction}
use multiqueue.CountedIndex.Bounds.{get_lem}
use multiqueue.ReadCursor.Attempt
use multiqueue.ReadCursor.Attempt.{Reader, ReadAttempt}
use multiqueue.Heap.{update, update_self, update_ne}
use multiqueue.MultiQueue.Policy.{QueueRw, IsLawful}
use multiqueue.MultiQueue.Threads.{Pc, unread, current, counted, Shared, cell_of, Move}
use multiqueue.Refinement.Log.{readers, position, InWindow}
use multiqueue.Refinement.Threads.Sound.{view, Owns, Published, Room, Sound}
use multiqueue.Refinement.Threads.Counts.{
  IsCounting, share, tally, tally-le, share-le-tally, tally-update, Move-refs, Move-width,
}
use multiqueue.Refinement.Threads.Frame.{Published-flag}
use multiqueue.Refinement.Threads.Flags.{Owns-older}
use multiqueue.Refinement.Threads.Reached.{Move-sent}
use multiqueue.Refinement.Threads.Pins.{Move-claims, Move-unread, Move-current, Pinned, Pins}

module _ {ℓ} {T : Type ℓ} {p : QueueRw T} (lawful : IsLawful p) (counting : IsCounting p) (k : ℕ)
    (sole : ℕ → Option ℕ) (first : ℕ → ℕ) (threads : ℕ) (few : threads < 2 ^ 64 - 1) (i : ℕ)
    (in_range : i < threads) {m m' : Shared T} {pc : ℕ → Pc T} (x' : Pc T)
    (mv : Move p sole i m (pc i) m' x') (sound : Sound k sole first (view m) pc)
    (after : Sound k sole first (view m') (update pc i x')) (pinned : Pins k threads m pc) where
  refs_after : (c : ℕ) → get_or m'.queue.refs c 0 ≡ tally (update pc i x') threads c
  refs_after c = omega (
    arith,
    Move-refs counting k sound.store.small sole i mv (sound.locals i) pinned.width c
        (omega (arith, pinned.refs c, tally-le pc threads c))
        (omega (arith, pinned.refs c, share-le-tally pc threads c i in_range)),
    pinned.refs c,
    tally-update pc i x' threads c in_range,
  )

  not_owned : (j d : ℕ) → Published k (view m) d → Owns (pc j) d → ⊥
  not_owned j d there own =
      Owns-older k sole j (view m) d (pc j) (sound.locals j) own d (omega arith)
        (omega (arith, there.0, sound.store.short))
        (Published-flag k (view m) d sound.store.short there)

  -- What is pinned by thread j for the value numbered d.
  module _ (d : ℕ) (pin : Pinned k m pc d) where
    stays_last : length m'.sent ≤ d + 2 ^ k
    stays_last = elim (Move-claims p sole i mv) [
      | inl (same, _) ↦ rw same pin.last_round
      | inr (t, val, at, _, was, len) ↦
          omega (arith, len, was, sound.store.counted, pin.unwanted i t val at, pin.last_round)
    ]

    -- No thread has a claim on it after the move.
    still_unowned : (j : ℕ) → Owns (update pc i x' j) d → ⊥
    still_unowned j own = elim (ℕ_discrete i j) [
      | no ne ↦ not_owned j d pin.there (rw (update_ne pc i j x' ne) at own)
      | yes e ↦
          let mine : Owns x' d = rw (update_self pc i x') at (rw (← e) at own) in
          elim (Move-claims p sole i mv) [
            | inl (_, before) ↦ not_owned i d pin.there (before d mine)
            | inr (t, val, _, at, was, len) ↦ omega (
              arith,
              was,
              sound.store.counted,
              pin.there.0,
              let at' : t.loaded_vals ≡ d = rw at at mine in at',
            )
          ]
    ]

    stays_there : Published k (view m') d
    stays_there =
        let (more, e) = Move-sent p sole mv in
        elim (after.cells.filled d
          (omega (arith, ap length e, length-append m.sent more, pin.there.0)) stays_last) [
            | inl here ↦ here
            | inr (j, own) ↦ absurd (still_unowned j own)
          ]

  -- A sender that is about to commit for the cell would have found it unread.
  unread_elsewhere :
      (j d : ℕ) (r : Reader) (a : ReadAttempt) (t : Transaction) (val : T)
      → j < threads
      → pc j ≡ current r a
      → a.linked.loaded_vals ≡ d
      → x' ≡ unread t val
      → t.loaded_vals ≢ d + 2 ^ k
  unfolding Attempt.get
  unread_elsewhere j d r a t val lt at here now wanted =
      omega (arith, share-le-tally pc threads (d % 2 ^ k) j lt, counted_once, nobody)
    where
      room : Room k (view m') t
      room = rw now at (rw (update_self pc i x') at (after.locals i))

      cell : cell_of t ≡ d % 2 ^ k
      cell =
          ap (λ (x : ℕ × ℕ). x.0) (get_lem t k room.fits.mask)
          ∙ ap (λ (x : ℕ). x % 2 ^ k) wanted
          ∙ mod-eq-sub-mod {n = d + 2 ^ k} {m = 2 ^ k} (omega arith)
          ∙ ap (λ (x : ℕ). x % 2 ^ k) (omega arith)

      own_cell : (Attempt.get a).0 ≡ d % 2 ^ k
      own_cell =
          ap (λ (x : ℕ × ℕ). x.0) (get_lem a.linked k (rw at at (sound.locals j)).0.mask)
          ∙ ap (λ (x : ℕ). x % 2 ^ k) here

      counted_once : share (pc j) (d % 2 ^ k) ≡ 1
      counted_once = rw (at, own_cell, (==_iff (d % 2 ^ k) (d % 2 ^ k)).1 refl) refl

      nobody : tally pc threads (d % 2 ^ k) ≡ 0
      nobody =
          sym (pinned.refs (d % 2 ^ k))
          ∙ counting.none_left _ (rw cell at (Move-unread p sole i t val mv now))

  -- A pin of another thread holds on.
  kept_pin :
      (j : ℕ) (r : Reader) (a : ReadAttempt)
      → j < threads
      → pc j ≡ current r a
      → Pinned k m' (update pc i x') a.linked.loaded_vals
  kept_pin j r a lt at =
      let pin : Pinned k m pc a.linked.loaded_vals = pinned.pins j r a lt at in
      record {
        there = stays_there a.linked.loaded_vals pin;
        last_round = stays_last a.linked.loaded_vals pin;
        unwanted = λ j' t val at'. elim (ℕ_discrete i j') [
          | no ne ↦ pin.unwanted j' t val (rw (update_ne pc i j' x' ne) at at')
          | yes e ↦
              unread_elsewhere j a.linked.loaded_vals r a t val lt at refl
                (rw (update_self pc i x') at (rw (← e) at at'))
        ];
      }

  -- A consumer that has found its stream where it was has pinned the value there.
  new_pin :
      (r : Reader) (a : ReadAttempt)
      → x' ≡ current r a
      → Pinned k m' (update pc i x') a.linked.loaded_vals
  new_pin r a now =
      let (same, was, here) = Move-current p sole i r a mv now in
      rw same (record {
        there = (rw was at (sound.locals i)).1 (sym here);
        last_round = omega (arith, window was, here);
        unwanted = λ j t val at. elim (ℕ_discrete i j) [
          | yes e ↦ let at' = rw (update_self pc i x') at (rw (← e) at at) in cc
          | no ne ↦
              let room : Room k (view m) t =
                rw (rw (update_ne pc i j x' ne) at at) at (sound.locals j) in
              omega (arith, room.room, behind was, here)
        ];
      })
    where
      window : pc i ≡ counted r a → length m.sent ≤ (position m.queue r.pos).val + 2 ^ k
      window was =
          (All-Elem (λ s. InWindow (2 ^ k) (length m.sent) (position m.queue s)) r.pos
            (readers m.queue) sound.store.streams (rw was at (sound.locals i)).0.is_stream).2

      behind : pc i ≡ counted r a → m.queue.tail_cache ≤ (position m.queue r.pos).val
      behind was =
          All-Elem (λ s. m.queue.tail_cache ≤ (position m.queue s).val) r.pos (readers m.queue)
            sound.store.behind (rw was at (sound.locals i)).0.is_stream

  pub Move-Pins : Pins k threads m' (update pc i x')
  Move-Pins = record {
    width = Move-width counting k sound.store.small sole i mv ∙ pinned.width;
    refs = refs_after;
    pins = λ j r a lt at. elim (ℕ_discrete i j) [
      | yes e ↦ new_pin r a (rw (update_self pc i x') at (rw (← e) at at))
      | no ne ↦ kept_pin j r a lt (rw (update_ne pc i j x' ne) at at)
    ];
  }

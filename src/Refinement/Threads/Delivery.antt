-- ===== src/Refinement/Threads/Delivery.antt =====
-- What the streams give out, and where the values are that they have still to give out, however the
-- threads interleave.
use native.Mathlib.Decide.{ℕ_discrete}
use multiqueue.Prelude.{
  ℕ, ◌+◌, ◌-◌, ◌%◌, ◌^◌, ◌≤◌, ◌<◌, ◌≡◌, ◌≢◌, ◌⊎◌, refl, sym, List, Option, arith, All, All-Elem,
  Elem, length,
}
use multiqueue.ReadCursor.Attempt.{Reader, ReadAttempt}
use multiqueue.MultiQueue.Policy.{QueueRw, IsLawful}
use multiqueue.MultiQueue.State.{MultiQueue}
use multiqueue.MultiQueue.Threads.{Pc, claimed, written, seen, counted, current, System, Reach}
use multiqueue.Refinement.Log.{readers, position, InWindow, IsLog}
use multiqueue.Refinement.Threads.Sound.{
  View, view, Owns, Published, Tries, Sees, Local, Follows, Sound,
}
use multiqueue.Refinement.Threads.Frame.{Published-flag}
use multiqueue.Refinement.Threads.Changes.{Owns-bounds, cells_apart}
use multiqueue.Refinement.Threads.Flags.{Owns-older}
use multiqueue.Refinement.Threads.Reached.{Reach-streams, Reach-Sound}

-- The position whose cell a thread uses: a sender to write to it, a consumer to read out of it a
-- value that it can still give out.
abbrev pub Touches {ℓ} : {T : Type ℓ} → View T → Pc T → ℕ → Type 0
Touches v (claimed t val) c = t.loaded_vals ≡ c
Touches v (written t val) c = t.loaded_vals ≡ c
Touches v (seen r a) c = (a.linked.loaded_vals ≡ c) × (a.linked.loaded_vals ≡ (v.pos r.pos).val)
Touches v (counted r a) c = (a.linked.loaded_vals ≡ c) × (a.linked.loaded_vals ≡ (v.pos r.pos).val)
Touches v (current r a) c = (a.linked.loaded_vals ≡ c) × (a.linked.loaded_vals ≡ (v.pos r.pos).val)
Touches v _ c = ⊥

module _ {ℓ} {T : Type ℓ} {p : QueueRw T} {sole : ℕ → Option ℕ} {threads : ℕ} {q : MultiQueue T}
    {sent : List T} {k : ℕ} {s : System T} (lawful : IsLawful p) (log : IsLog k q sent)
    (some_stream : (r : ℕ) × Elem r (readers q)) (reach : Reach p sole threads q sent s)
    (short : length s.shared.sent < 2 ^ 63 - 1) where
  now : Sound k sole (λ r. (position q r).val) (view s.shared) s.pc
  now = Reach-Sound lawful log some_stream reach short

  -- With a lawful policy, from a queue that stands for a log and has a stream, and while fewer
  -- than 2 ^ 63 - 1 values are sent: in every state that the threads get into, each stream that
  -- the queue began with has given out exactly the values of the log from where it stood at first
  -- to where it stands, in order.
  pub Reach-Follows : All (Follows (λ r. (position q r).val) (view s.shared)) (readers q)
  Reach-Follows = rw (sym (Reach-streams reach)) now.store.follows

  -- With a lawful policy, from a queue that stands for a log and has a stream, and while fewer
  -- than 2 ^ 63 - 1 values are sent: in every state that the threads get into, a position of the
  -- log that a stream has still to pass is less than a round ahead of the stream, and its value
  -- lies in its cell under its flag, or a thread has claimed it and not yet published it.
  pub Reach-Held :
      (r c : ℕ)
      → Elem r (readers q)
      → (position s.shared.queue r).val ≤ c
      → c < length s.shared.sent
      → (c < (position s.shared.queue r).val + 2 ^ k)
        × (Published k (view s.shared) c ⊎ ((i : ℕ) × Owns (s.pc i) c))
  Reach-Held r c at le lt =
      let w : InWindow (2 ^ k) (length s.shared.sent) (position s.shared.queue r) =
        All-Elem (λ r. InWindow (2 ^ k) (length s.shared.sent) (position s.shared.queue r)) r
          (readers s.shared.queue) now.store.streams (rw (Reach-streams reach) at) in
      (omega (arith, w), now.cells.filled c lt (omega (arith, w)))

  owner_bounds :
      (i c : ℕ) → Owns (s.pc i) c → (c < length s.shared.sent) × (length s.shared.sent ≤ c + 2 ^ k)
  owner_bounds i c own = Owns-bounds k sole i (s.pc i) c now.store (now.locals i) own

  -- A position that is about to be published, and one that is published, have different cells.
  pub owned_apart :
      (i c d : ℕ)
      → Owns (s.pc i) c
      → Published k (view s.shared) d
      → length s.shared.sent ≤ d + 2 ^ k
      → c % 2 ^ k ≢ d % 2 ^ k
  owned_apart i c d own there le = elim (ℕ_discrete d c) [
    | yes e ↦ absurd (
        Owns-older k sole i (view s.shared) c (s.pc i) (now.locals i) own d (omega (arith, e))
          (omega (arith, there.0)) (rw (← e) (Published-flag k (view s.shared) d short there)))
    | no ne ↦
        let b = owner_bounds i c own in
        cells_apart (2 ^ k) (length s.shared.sent) d c there.0 le b.0 b.1 ne
  ]

  owners_apart : (i j c d : ℕ) → i ≢ j → Owns (s.pc i) c → Owns (s.pc j) d → c % 2 ^ k ≢ d % 2 ^ k
  owners_apart i j c d ne own other =
      let b = owner_bounds i c own in
      let b' = owner_bounds j d other in
      cells_apart (2 ^ k) (length s.shared.sent) d c b'.0 b'.1 b.0 b.1
        (λ e. ne (now.cells.unique i j c own (rw e at other)))

  seen_apart :
      (i j c d : ℕ) (r : Reader) (a : ReadAttempt)
      → Owns (s.pc i) c
      → Tries k sole j (view s.shared) r a × Sees k (view s.shared) r a
      → (a.linked.loaded_vals ≡ d) × (a.linked.loaded_vals ≡ (position s.shared.queue r.pos).val)
      → c % 2 ^ k ≢ d % 2 ^ k
  seen_apart i j c d r a own (f, sees) (at, here) =
      let w : InWindow (2 ^ k) (length s.shared.sent) (position s.shared.queue r.pos) =
        All-Elem (λ r. InWindow (2 ^ k) (length s.shared.sent) (position s.shared.queue r)) r.pos
          (readers s.shared.queue) now.store.streams f.is_stream in
      owned_apart i c d own (rw at at (sees here)) (omega (arith, w, at, here))

  touched :
      (i j c d : ℕ) (x : Pc T)
      → i ≢ j
      → s.pc j ≡ x
      → Owns (s.pc i) c
      → Local k sole j (view s.shared) x
      → Touches (view s.shared) x d
      → c % 2 ^ k ≢ d % 2 ^ k
  touched i j c d (claimed t val) ne at own f touch = owners_apart i j c d ne own (rw at touch)
  touched i j c d (written t val) ne at own f touch = owners_apart i j c d ne own (rw at touch)
  touched i j c d (seen r a) ne at own f touch = seen_apart i j c d r a own f touch
  touched i j c d (counted r a) ne at own f touch = seen_apart i j c d r a own f touch
  touched i j c d (current r a) ne at own f touch = seen_apart i j c d r a own f touch
  touched i j c d _ ne at own f touch = absurd touch

  -- With a lawful policy, from a queue that stands for a log and has a stream, and while fewer
  -- than 2 ^ 63 - 1 values are sent: in every state that the threads get into, the position that
  -- one thread has claimed and not yet published has another cell than the one that another
  -- thread has claimed, or has seen published for a stream that has not moved on since.
  pub Reach-Exclusive :
      (i j c d : ℕ)
      → i ≢ j
      → Owns (s.pc i) c
      → Touches (view s.shared) (s.pc j) d
      → c % 2 ^ k ≢ d % 2 ^ k
  Reach-Exclusive i j c d ne own touch = touched i j c d (s.pc j) ne refl own (now.locals j) touch

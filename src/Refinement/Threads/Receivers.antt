-- ===== src/Refinement/Threads/Receivers.antt =====
-- The moves of a consumer keep the invariant: `try_recv`, step by step.
use native.Mathlib.Decide.{dec_le, ℕ_discrete}
use mathlib.Core.Path.{fun_ext}
use multiqueue.Prelude.{
  ℕ, ◌+◌, ◌-◌, ◌%◌, ◌^◌, ◌<◌, ◌≡◌, ◌⊎◌, refl, sym, ap, ◌∙◌, inl, inr, [], ◌∷◌, ◌++◌, Option, none,
  some, arith, All-Elem, Elem, length, get_elem?, get_or, Bool, true, ◌==◌, ==_iff,
}
use multiqueue.CountedIndex
use multiqueue.CountedIndex.{CountedIndex, Transaction, rm_tag}
use multiqueue.CountedIndex.Bounds.{get_lem, commit_lem, store_val_one}
use multiqueue.ReadCursor.Attempt
use multiqueue.ReadCursor.Attempt.{Reader, ReaderState, single, multi, ReadAttempt}
use multiqueue.Heap.{update, update_self, update_ne}
use multiqueue.MultiQueue.Policy.{QueueRw, IsLawful}
use multiqueue.MultiQueue.State.{QueueEntry, blank}
use multiqueue.MultiQueue.Recv.{with_pos}
use multiqueue.MultiQueue.Threads.{
  Pc, idle, attempted, seen, released, Shared, MayAttempt, with_queue,
}
use multiqueue.Refinement.Log.{readers, position, InWindow}
use multiqueue.Refinement.Rounds.{ReaderState-cases}
use multiqueue.Refinement.Threads.Sound.{view, cell_at, Published, Tries, Sees, Holds, Local, Sound}
use multiqueue.Refinement.Threads.Advance.{Store-advance, Meanwhile-advance}
use multiqueue.Refinement.Threads.Assembly.{IsFree, quiet}
use multiqueue.Refinement.Threads.Flags.{still, stale_flag, Owns-older}

-- A commit that succeeds stores the next position, and unless the consumer is alone the position was
-- the one that the attempt had loaded.
commit_attempt-none :
    (c pos : CountedIndex) (a : ReadAttempt) (weak : Bool)
    → Attempt.commit_attempt c a 1 weak ≡ (none, pos)
    → (pos ≡ CountedIndex.commit_direct c a.linked 1)
      × ((a.state ≡ single) ⊎ (c.val ≡ a.linked.loaded_vals))
unfolding Attempt.commit_attempt
commit_attempt-none c pos a weak e = elim (ReaderState-cases a.state) [
  | inl alone ↦ let e' = rw alone at e in (cc, inl alone)
  | inr shared ↦ elim (commit_lem c a.linked 1 weak) [
    | inl (won, was) ↦ (let e' = rw (shared, won) at e in cc, inr was)
    | inr (lost, _) ↦ let e' = rw (shared, lost) at e in cc
  ]
]

-- One that fails leaves the position, and hands it back.
pub commit_attempt-some :
    (c pos : CountedIndex) (a again : ReadAttempt) (weak : Bool)
    → Attempt.commit_attempt c a 1 weak ≡ (some again, pos)
    → (a.state ≡ multi)
      × (pos ≡ c)
      × (again ≡ record { linked = record (a.linked) { loaded_vals = c.val }; state = multi })
unfolding Attempt.commit_attempt
commit_attempt-some c pos a again weak e = elim (ReaderState-cases a.state) [
  | inl alone ↦ let e' = rw alone at e in cc
  | inr shared ↦ elim (commit_lem c a.linked 1 weak) [
    | inl (won, was) ↦ let e' = rw (shared, won) at e in cc
    | inr (lost, _) ↦ let e' = rw (shared, lost) at e in (shared, cc, cc)
  ]
]

module _ {ℓ} {T : Type ℓ} (k : ℕ) {sole : ℕ → Option ℕ} {first : ℕ → ℕ} (i : ℕ) (m : Shared T)
    {pc : ℕ → Pc T} (sound : Sound k sole first (view m) pc) where
  window :
      (s : ℕ) → Elem s (readers m.queue) → InWindow (2 ^ k) (length m.sent) (position m.queue s)
  window s at =
      All-Elem (λ s. InWindow (2 ^ k) (length m.sent) (position m.queue s)) s (readers m.queue)
        sound.store.streams at

  -- The cell that an attempt names, and the flag that it is looking for.
  get-linked :
      {r : Reader} {a : ReadAttempt}
      → Tries k sole i (view m) r a
      → Attempt.get a ≡ (a.linked.loaded_vals % 2 ^ k, a.linked.loaded_vals)
  unfolding Attempt.get
  get-linked {r} {a} f = get_lem a.linked k f.mask

  -- A stream whose cell has the flag of its position stands at a published value.
  flag_Published :
      (s : ℕ)
      → Elem s (readers m.queue)
      → rm_tag (cell_at k (view m) (position m.queue s).val).wraps ≡ (position m.queue s).val
      → Published k (view m) (position m.queue s).val
  flag_Published s at flag = elim (dec_le (length m.sent) (position m.queue s).val) [
    | yes end ↦
        let here : (position m.queue s).val ≡ length m.sent = omega (arith, window s at) in
        absurd
          (stale_flag k i sound (length m.sent) (omega arith) sound.store.short (rw here at flag))
    | no more ↦
        elim (sound.cells.filled (position m.queue s).val (omega arith)
          (omega (arith, window s at))) [
            | inl here ↦ here
            | inr (j, own) ↦ absurd (
                Owns-older k sole j (view m) (position m.queue s).val (pc j) (sound.locals j) own
                  (position m.queue s).val (omega arith) (omega (arith, sound.store.short)) flag)
          ]
  ]

  pub sees-Sound :
      (r : Reader) (a : ReadAttempt)
      → pc i ≡ attempted r a
      → (rm_tag (get_or m.queue.cells (Attempt.get a).0 blank).wraps == (Attempt.get a).1) ≡ true
      → Tries k sole i (view m) r a
      → Sound k sole first (view m) (update pc i (seen r a))
  sees-Sound r a at test f =
      still k i sound (attempted r a) (seen r a) at (λ c o. o) (λ c o. o) (f, there)
    where
      flag : rm_tag (cell_at k (view m) a.linked.loaded_vals).wraps ≡ a.linked.loaded_vals
      flag = (==_iff _ a.linked.loaded_vals).0 (rw (get-linked f) at test)

      there : Sees k (view m) r a
      there e = rw e (flag_Published r.pos f.is_stream (rw e at flag))

  pub begins_recv-Sound :
      (r : Reader)
      → pc i ≡ idle
      → Elem r.pos (readers m.queue)
      → MayAttempt sole i r
      → Sound k sole first (view m) (
          update pc i (
            attempted r (record {
              linked = CountedIndex.load_transaction (position m.queue r.pos);
              state = r.state;
            })))
  unfolding CountedIndex.load_transaction
  begins_recv-Sound r at is_stream may =
      still k i sound idle
        (attempted r (record {
          linked = CountedIndex.load_transaction (position m.queue r.pos);
          state = r.state;
        }))
        at (λ c o. o) (λ c o. o)
        (record {
          is_stream = is_stream;
          mask = (window r.pos is_stream).0;
          reached = omega arith;
          role = elim (ReaderState-cases r.state) [
            | inl alone ↦ inr (rw alone at may, refl)
            | inr shared ↦ inl (shared, rw shared at may)
          ];
        })

  -- What is read out of the cell is the value of the log, if the stream has not moved on.
  read_Holds :
      (p : QueueRw T) (r : Reader) (a : ReadAttempt) (val : T)
      → IsLawful p
      → Tries k sole i (view m) r a
      → Sees k (view m) r a
      → (get_or m.queue.cells (Attempt.get a).0 blank).val ≡ some val
      → Holds k (view m) r a (p.get_val val)
  read_Holds p r a val lawful f sees read e =
      sym (ap QueueEntry.val (sees e).1)
      ∙ (rw (get-linked f) at read)
      ∙ ap some (sym (lawful.faithful val))

  pub reads-Sound :
      (p : QueueRw T) (x x' : Pc T) (r : Reader) (a : ReadAttempt) (val : T)
      → IsLawful p
      → pc i ≡ x
      → IsFree x
      → IsFree x'
      → Tries k sole i (view m) r a × Sees k (view m) r a
      → (get_or m.queue.cells (Attempt.get a).0 blank).val ≡ some val
      → (Tries k sole i (view m) r a × Sees k (view m) r a × Holds k (view m) r a (p.get_val val)
          → Local k sole i (view m) x')
      → Sound k sole first (view m) (update pc i x')
  reads-Sound p x x' r a val lawful at free free' f read own =
      still k i sound x x' at free free' (own (f.0, f.1, read_Holds p r a val lawful f.0 f.1 read))

  update_same : (r s : ℕ) → update (position m.queue) r (position m.queue r) s ≡ position m.queue s
  update_same r s = elim (ℕ_discrete r s) [
    | yes e ↦ rw (← e) (update_self (position m.queue) r (position m.queue r))
    | no ne ↦ update_ne (position m.queue) r s (position m.queue r) ne
  ]

  -- A commit that fails leaves the position, and the attempt is at it.
  pub misses-Sound :
      (r : Reader) (a again : ReadAttempt) (val : T) (weak : Bool) (pos : CountedIndex)
      → pc i ≡ released r a val
      → Attempt.commit_attempt (position m.queue r.pos) a 1 weak ≡ (some again, pos)
      → Tries k sole i (view m) r a
      → Sound k sole first
          (view (with_queue m (with_pos m.queue r.pos pos)))
          (update pc i (attempted r again))
  misses-Sound r a again val weak pos at e f =
      let (shared, back, new) = commit_attempt-some (position m.queue r.pos) pos a again weak e in
      rw (back, new, fun_ext (update_same r.pos))
        (still k i sound (released r a val)
          (attempted r (record {
            linked = record (a.linked) { loaded_vals = (position m.queue r.pos).val };
            state = multi;
          }))
          at (λ c o. o) (λ c o. o)
          (record {
            is_stream = f.is_stream;
            mask = f.mask;
            reached = omega arith;
            role = elim f.role [
              | inl others ↦ inl (refl, others.1)
              | inr (alone, _) ↦ inr (alone, refl)
            ];
          }))

  -- A commit that succeeds moves the stream on by the value that the thread has read out.
  pub gives-Sound :
      (r : Reader) (a : ReadAttempt) (val : T) (weak : Bool) (pos : CountedIndex)
      → pc i ≡ released r a val
      → Attempt.commit_attempt (position m.queue r.pos) a 1 weak ≡ (none, pos)
      → Tries k sole i (view m) r a × Sees k (view m) r a × Holds k (view m) r a val
      → Sound k sole first
          (view (record m {
            queue = with_pos m.queue r.pos pos;
            given = update m.given r.pos (m.given r.pos ++ (val ∷ []));
          }))
          (update pc i idle)
  unfolding CountedIndex.commit_direct
  gives-Sound r a val weak pos at e (f, sees, holds) =
      quiet k i (released r a val) idle at sound
        (Store-advance k i sound r.pos pos val f.is_stream mask next there value mine)
        (Meanwhile-advance k i sound r.pos pos val f.is_stream mask next there value mine) tt refl
        (λ c o. o) (λ c o. o)
    where
      committed :
          (pos ≡ CountedIndex.commit_direct (position m.queue r.pos) a.linked 1)
          × ((a.state ≡ single) ⊎ ((position m.queue r.pos).val ≡ a.linked.loaded_vals))
      committed = commit_attempt-none (position m.queue r.pos) pos a weak e

      here : a.linked.loaded_vals ≡ (position m.queue r.pos).val
      here = elim committed.1 [
        | inr same ↦ sym same
        | inl alone ↦ elim f.role [ inl (shared, _) ↦ cc | inr (_, same) ↦ same ]
      ]

      there : Published k (view m) (position m.queue r.pos).val
      there = rw here at (sees here)

      value : get_elem? m.sent (position m.queue r.pos).val ≡ some val
      value = rw here at (holds here)

      mask : pos.mask ≡ 2 ^ k - 1
      mask = rw committed.0 (window r.pos f.is_stream).0

      low : a.linked.loaded_vals < 2 ^ 63
      low = omega (arith, here, there.0, sound.store.short)

      next : pos.val ≡ (position m.queue r.pos).val + 1
      next =
          rw committed.0
            (omega (arith, here, there.0, sound.store.short, store_val_one a.linked low))

      mine : (sole r.pos ≡ none) ⊎ (sole r.pos ≡ some i)
      mine = elim f.role [ inl (_, nobody) ↦ inl nobody | inr (me, _) ↦ inr me ]

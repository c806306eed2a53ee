-- ===== src/Refinement/Threads/Frame.antt =====
-- What a move of one thread leaves alone, and why the other threads can rely on it.
use native.Mathlib.Decide.{dec_le}
use multiqueue.Prelude.{
  ℕ, ◌+◌, ◌-◌, ◌^◌, ◌≤◌, ◌<◌, ◌≡◌, ◌≢◌, ◌⊎◌, refl, ap, ◌∙◌, inl, inr, Option, none, some, arith,
  All-Elem, All-intro, Elem, length, get_elem?, lt_of_get_elem?,
}
use multiqueue.CountedIndex.{Transaction, rm_tag}
use multiqueue.CountedIndex.Bounds.{rm_tag_of_lt}
use multiqueue.ReadCursor.Attempt.{Reader, ReadAttempt}
use multiqueue.MultiQueue.State.{QueueEntry}
use multiqueue.MultiQueue.Threads.{
  Pc, idle, loaded, stale, roomy, unread, claimed, written, attempted, seen, counted, current,
  lapsed, taken, released,
}
use multiqueue.Refinement.Log.{InWindow}
use multiqueue.Refinement.Threads.Sound.{
  View, Owns, cell_at, Published, Fits, Room, Claim, Tries, Sees, Holds, Local, Store,
}

module _ {ℓ} {T : Type ℓ} (k : ℕ) where
  pub Published-flag :
      (v : View T) (c : ℕ)
      → length v.sent < 2 ^ 63 - 1
      → Published k v c
      → rm_tag (cell_at k v c).wraps ≡ c
  Published-flag v c short here =
      ap (λ (e : QueueEntry T). rm_tag e.wraps) here.1 ∙ rm_tag_of_lt c (omega (arith, here.0))

  -- A claimed position is not published.
  pub Claim-Published :
      {v : View T} {t : Transaction} {val : T}
      → length v.sent < 2 ^ 63 - 1
      → Claim k v t val
      → Published k v t.loaded_vals
      → ⊥
  Claim-Published {v} {t} short claim here =
      claim.older t.loaded_vals (omega arith) (omega (arith, here.0))
        (Published-flag v t.loaded_vals short here)

  -- What the others may rely on while thread i makes a move: the log only grows, a value stays
  -- published as long as it may be needed, a cell that another thread has claimed is left alone,
  -- and a stream moves on by one published value, if nobody else is its sole consumer.
  pub record Meanwhile (sole : ℕ → Option ℕ) (i : ℕ) (v : View T) (pc : ℕ → Pc T) (v' : View T)
      : Type ℓ where
    pub streams : v'.streams ≡ v.streams
    pub longer : length v.sent ≤ length v'.sent
    pub sent : (c : ℕ) → c < length v.sent → get_elem? v'.sent c ≡ get_elem? v.sent c
    pub cache : v.tail_cache ≤ v'.tail_cache
    pub published : (c : ℕ) → length v'.sent ≤ c + 2 ^ k → Published k v c → Published k v' c
    pub owned : (j c : ℕ) → j ≢ i → Owns (pc j) c → cell_at k v' c ≡ cell_at k v c
    pub moves :
        (s : ℕ)
        → Elem s v.streams
        → (v'.pos s ≡ v.pos s)
          ⊎ (((v'.pos s).val ≡ (v.pos s).val + 1)
              × Published k v (v.pos s).val
              × ((sole s ≡ none) ⊎ (sole s ≡ some i)))

  module _ {sole : ℕ → Option ℕ} {first : ℕ → ℕ} {i : ℕ} {v v' : View T} {pc : ℕ → Pc T}
      (short : length v.sent < 2 ^ 63 - 1) (store : Store k first v')
      (w : Meanwhile sole i v pc v') where
    Fits-stable : {t : Transaction} → Fits k v t → Fits k v' t
    Fits-stable f = record { mask = f.mask; reached = omega (arith, f.reached, w.longer) }

    Room-stable : {t : Transaction} → Room k v t → Room k v' t
    Room-stable f = record { fits = Fits-stable f.fits; room = omega (arith, f.room, w.cache) }

    Claim-stable :
        {t : Transaction} {val : T}
        → cell_at k v' t.loaded_vals ≡ cell_at k v t.loaded_vals
        → Claim k v t val
        → Claim k v' t val
    Claim-stable {t} {val} same claim = record {
      mask = claim.mask;
      is_sent =
          w.sent t.loaded_vals (lt_of_get_elem? v.sent t.loaded_vals val claim.is_sent)
          ∙ claim.is_sent;
      ahead = rw w.streams (All-intro (λ s. (v'.pos s).val ≤ t.loaded_vals) v.streams ahead);
      older = rw same claim.older;
    }
      where
        ahead : (s : ℕ) → Elem s v.streams → (v'.pos s).val ≤ t.loaded_vals
        ahead s at =
            let le : (v.pos s).val ≤ t.loaded_vals =
              All-Elem (λ s. (v.pos s).val ≤ t.loaded_vals) s v.streams claim.ahead at in
            elim (w.moves s at) [
              | inl e ↦ rw e le
              | inr (e, there, _) ↦ elim (dec_le t.loaded_vals (v.pos s).val) [
                | yes ge ↦
                    let here : (v.pos s).val ≡ t.loaded_vals = omega arith in
                    absurd (Claim-Published short claim (rw here at there))
                | no lt ↦ omega (arith, e)
              ]
            ]

    Tries-stable :
        {j : ℕ} {r : Reader} {a : ReadAttempt}
        → j ≢ i
        → Tries k sole j v r a
        → Tries k sole j v' r a
    Tries-stable {j} {r} {a} ne f = elim (w.moves r.pos f.is_stream) [
      | inl e ↦ record {
        is_stream = rw w.streams f.is_stream;
        mask = f.mask;
        reached = rw e f.reached;
        role = rw e f.role;
      }
      | inr (e, there, mine) ↦ record {
        is_stream = rw w.streams f.is_stream;
        mask = f.mask;
        reached = omega (arith, e, f.reached);
        role = elim f.role [
          | inl shared ↦ inl shared
          | inr (alone, at) ↦ elim mine [ inl nobody ↦ cc | inr me ↦ absurd (ne (cc)) ]
        ];
      }
    ]

    -- The stream has not moved, if it is where the attempt found it.
    not_moved :
        {j : ℕ} {r : Reader} {a : ReadAttempt}
        → Tries k sole j v r a
        → a.linked.loaded_vals ≡ (v'.pos r.pos).val
        → a.linked.loaded_vals ≡ (v.pos r.pos).val
    not_moved {j} {r} {a} f e = elim (w.moves r.pos f.is_stream) [
      | inl same ↦ rw same at e
      | inr (on, there, mine) ↦ absurd (omega (arith, on, f.reached, e))
    ]

    Sees-stable :
        {j : ℕ} {r : Reader} {a : ReadAttempt} → Tries k sole j v r a → Sees k v r a → Sees k v' r a
    Sees-stable {j} {r} {a} f sees e =
        let window : InWindow (2 ^ k) (length v'.sent) (v'.pos r.pos) =
          All-Elem (λ s. InWindow (2 ^ k) (length v'.sent) (v'.pos s)) r.pos v'.streams
            store.streams (rw w.streams f.is_stream) in
        w.published a.linked.loaded_vals (omega (arith, window, e)) (sees (not_moved f e))

    Holds-stable :
        {j : ℕ} {r : Reader} {a : ReadAttempt} {val : T}
        → Tries k sole j v r a
        → Holds k v r a val
        → Holds k v' r a val
    Holds-stable {j} {r} {a} {val} f holds e =
        let there : get_elem? v.sent a.linked.loaded_vals ≡ some val = holds (not_moved f e) in
        w.sent a.linked.loaded_vals (lt_of_get_elem? v.sent a.linked.loaded_vals val there) ∙ there

    Local-stable :
        (j : ℕ) (p : Pc T)
        → j ≢ i
        → ((c : ℕ) → Owns p c → cell_at k v' c ≡ cell_at k v c)
        → Local k sole j v p
        → Local k sole j v' p
    Local-stable j idle ne same f = tt
    Local-stable j (loaded t val) ne same f = Fits-stable f
    Local-stable j (stale t val tail) ne same f = record {
      fits = Fits-stable f.fits;
      old = omega (arith, f.old, w.cache);
    }
    Local-stable j (roomy t val) ne same f = Room-stable f
    Local-stable j (unread t val) ne same f = Room-stable f
    Local-stable j (claimed t val) ne same f = Claim-stable (same t.loaded_vals refl) f
    Local-stable j (written t val) ne same f =
        (Claim-stable (same t.loaded_vals refl) f.0, rw (same t.loaded_vals refl) f.1)
    Local-stable j (attempted r a) ne same f = Tries-stable ne f
    Local-stable j (seen r a) ne same f = (Tries-stable ne f.0, Sees-stable f.0 f.1)
    Local-stable j (counted r a) ne same f = (Tries-stable ne f.0, Sees-stable f.0 f.1)
    Local-stable j (current r a) ne same f = (Tries-stable ne f.0, Sees-stable f.0 f.1)
    Local-stable j (lapsed r a) ne same f = Tries-stable ne f
    Local-stable j (taken r a val) ne same f =
        (Tries-stable ne f.0, Sees-stable f.0 f.1, Holds-stable f.0 f.2)
    Local-stable j (released r a val) ne same f =
        (Tries-stable ne f.0, Sees-stable f.0 f.1, Holds-stable f.0 f.2)

    -- What holds of the other threads goes on holding.
    pub locals_stable : (j : ℕ) → j ≢ i → Local k sole j v (pc j) → Local k sole j v' (pc j)
    locals_stable j ne f = Local-stable j (pc j) ne (λ c own. w.owned j c ne own) f

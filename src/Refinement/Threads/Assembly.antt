-- ===== src/Refinement/Threads/Assembly.antt =====
-- The invariant after a move, from what the move does to the memory and to the thread's own place.
use native.Mathlib.Decide.{dec_le, ℕ_discrete}
use multiqueue.Prelude.{
  ℕ, ◌+◌, ◌^◌, ◌≤◌, ◌<◌, ◌≡◌, ◌≢◌, ◌⊎◌, sym, ◌∙◌, inl, inr, Option, arith, length,
}
use multiqueue.Heap.{update, update_self, update_ne}
use multiqueue.MultiQueue.Threads.{Pc}
use multiqueue.Refinement.Threads.Sound.{View, Owns, Published, Local, Store, Sound}
use multiqueue.Refinement.Threads.Frame.{Meanwhile, locals_stable}
use multiqueue.Refinement.Threads.Changes.{Owns-bounds}

-- A place at which no position is claimed.
abbrev pub IsFree {ℓ} : {T : Type ℓ} → Pc T → Type 0
IsFree x = (c : ℕ) → Owns x c → ⊥

module _ {ℓ} {T : Type ℓ} (k : ℕ) {sole : ℕ → Option ℕ} {first : ℕ → ℕ} (i : ℕ) {v v' : View T}
    {pc : ℕ → Pc T} (x x' : Pc T) (at : pc i ≡ x) (sound : Sound k sole first v pc)
    (store : Store k first v') (w : Meanwhile k sole i v pc v') (own : Local k sole i v' x') where
  locals : (j : ℕ) → Local k sole j v' (update pc i x' j)
  locals j = elim (ℕ_discrete i j) [
    | yes e ↦ rw (← e) (rw (update_self pc i x') own)
    | no ne ↦
        rw (update_ne pc i j x' ne)
          (locals_stable k sound.store.short store w j (λ e. ne (sym e)) (sound.locals j))
  ]

  module _ (new : (c : ℕ) → Owns x' c → Owns x c ⊎ (length v.sent ≤ c))
      (settled : (c : ℕ)
        → c < length v'.sent
        → Owns x c ⊎ (length v.sent ≤ c)
        → Published k v' c ⊎ Owns x' c) where
    filled :
        (c : ℕ)
        → c < length v'.sent
        → length v'.sent ≤ c + 2 ^ k
        → Published k v' c ⊎ ((j : ℕ) × Owns (update pc i x' j) c)
    filled c lt le = elim (dec_le (length v.sent) c) [
      | yes late ↦ mine (settled c lt (inr late))
      | no early ↦ elim (sound.cells.filled c (omega arith) (omega (arith, w.longer))) [
        | inl here ↦ inl (w.published c le here)
        | inr (j, owner) ↦ elim (ℕ_discrete i j) [
          | yes e ↦ mine (settled c lt (inl (rw at at (rw (← e) at owner))))
          | no ne ↦ inr (j, rw (update_ne pc i j x' ne) owner)
        ]
      ]
    ]
      where
        mine :
            Published k v' c ⊎ Owns x' c → Published k v' c ⊎ ((j : ℕ) × Owns (update pc i x' j) c)
        mine (inl here) = inl here
        mine (inr owner) = inr (i, rw (update_self pc i x') owner)

    -- No other thread has claimed a position that the thread has claimed.
    alone : (j c : ℕ) → i ≢ j → Owns x' c → Owns (pc j) c → ⊥
    alone j c ne owner other = elim (new c owner) [
      | inl before ↦ ne (sound.cells.unique i j c (rw at before) other)
      | inr late ↦
          omega (arith, late, Owns-bounds k sole j (pc j) c sound.store (sound.locals j) other)
    ]

    unique : (j j' c : ℕ) → Owns (update pc i x' j) c → Owns (update pc i x' j') c → j ≡ j'
    unique j j' c a b = elim (ℕ_discrete i j) [
      | yes e ↦ elim (ℕ_discrete i j') [
        | yes e' ↦ sym e ∙ e'
        | no ne' ↦ absurd (
            alone j' c ne' (rw (update_self pc i x') at (rw (← e) at a))
              (rw (update_ne pc i j' x' ne') at b))
      ]
      | no ne ↦ elim (ℕ_discrete i j') [
        | yes e' ↦ absurd (
            alone j c ne (rw (update_self pc i x') at (rw (← e') at b))
              (rw (update_ne pc i j x' ne) at a))
        | no ne' ↦
            sound.cells.unique j j' c (rw (update_ne pc i j x' ne) at a)
              (rw (update_ne pc i j' x' ne') at b)
      ]
    ]

    pub assembled : Sound k sole first v' (update pc i x')
    assembled = record {
      store = store;
      cells = record { filled = filled; unique = unique };
      locals = locals;
    }

  -- A move that neither claims nor publishes.
  pub quiet :
      length v'.sent ≡ length v.sent → IsFree x → IsFree x' → Sound k sole first v' (update pc i x')
  quiet same free free' =
      assembled (λ c o. absurd (free' c o))
        λ c lt before. elim before [
          | inl o ↦ absurd (free c o)
          | inr late ↦ absurd (omega (arith, same))
        ]

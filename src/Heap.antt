-- ===== src/Heap.antt =====
-- src/alloc.rs, and the objects that the queue keeps behind raw pointers: the positions and the
-- consumer counts of the streams, the groups of positions, and the tokens of the memory manager.
-- A pointer is a number; `next` is the first one not handed out. `freed` lists the pointers given
-- back, the latest first: a pointer that stands there twice was freed twice.
use multiqueue.Prelude.{
  ℕ, ◌+◌, ◌*◌, ◌^◌, ◌≡◌, ◌≢◌, ◌≤◌, ◌<◌, arith, ◌⊎◌, refl, List, ◌∷◌, ◌==◌, ==_iff, Bool-cases, inl,
  inr, if◌then◌else◌, Result, ok, err, Fault, capacity_overflow, leb,
}
use multiqueue.CountedIndex.{CountedIndex}

pub record Heap : Type 0 where
  pub next : ℕ
  pub pos : ℕ → CountedIndex
  pub consumers : ℕ → ℕ
  pub group : ℕ → List ℕ
  pub epochs : ℕ → ℕ
  pub freed : List ℕ

-- A write through a pointer.
abbrev pub update {ℓ} : {A : Type ℓ} → (ℕ → A) → ℕ → A → ℕ → A
update f p a q = if p == q then a else f q

unfoldable pub allocate : Heap → ℕ × Heap
allocate h = (h.next, record h { next = h.next + 1 })

-- `allocate` of `num` objects of `size` bytes each, for which `Vec::with_capacity` asks: it panics
-- above `isize::MAX` bytes. That memory runs out, which aborts the process, is left out.
unfoldable pub allocate_array : ℕ → ℕ → Result {0, 0} Fault Unit
allocate_array size num = if leb (2 ^ 63) (size * num) then err capacity_overflow else ok tt

unfoldable pub deallocate : ℕ → Heap → Heap
deallocate p h = record h { freed = p ∷ h.freed }

pub allocate_array-ok : (size num : ℕ) → size * num < 2 ^ 63 → allocate_array size num ≡ ok tt
unfolding allocate_array
allocate_array-ok size num h = elim (Bool-cases (leb (2 ^ 63) (size * num))) [
  | inl e ↦ ground arith
  | inr e ↦ rw e refl
]

pub allocate_array-err :
    (size num : ℕ) → 2 ^ 63 ≤ size * num → allocate_array size num ≡ err capacity_overflow
unfolding allocate_array
allocate_array-err size num h = elim (Bool-cases (leb (2 ^ 63) (size * num))) [
  | inl e ↦ rw e refl
  | inr e ↦ ground arith
]

pub allocate_array_cases :
    (size num : ℕ)
    → (allocate_array size num ≡ ok tt) ⊎ (allocate_array size num ≡ err capacity_overflow)
unfolding allocate_array
allocate_array_cases size num = elim (Bool-cases (leb (2 ^ 63) (size * num))) [
  | inl e ↦ inr (rw e refl)
  | inr e ↦ inl (rw e refl)
]

pub update_self {ℓ} : {A : Type ℓ} (f : ℕ → A) (p : ℕ) (a : A) → update f p a p ≡ a
update_self f p a = rw ((==_iff p p).1 refl) refl

pub update_ne {ℓ} : {A : Type ℓ} (f : ℕ → A) (p q : ℕ) (a : A) → p ≢ q → update f p a q ≡ f q
update_ne f p q a ne = elim (Bool-cases (p == q)) [
  | inl e ↦ absurd (ne ((==_iff p q).0 e))
  | inr e ↦ rw e refl
]

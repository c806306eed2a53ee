-- ===== src/Refinement/Log.antt =====
-- When a queue stands for a log, and what keeps it so.
use native.Mathlib.Decide.{dec_le}
use native.Mathlib.Nat.{
  mod-lt, mod-add-mod, mod-eq_of_lt, mod-eq-sub-mod, one-le-pow, pow-le-pow_right,
}
use multiqueue.Prelude.{
  ℕ, ◌+◌, ◌-◌, ◌%◌, ◌^◌, ◌≤◌, ◌<◌, ◌≡◌, refl, ap, ◌∙◌, ◌≢◌, List, [], ◌∷◌, ◌++◌, some, arith, All,
  length, length-append, get_elem?, get_elem?-append_left, get_elem?-append_last, get_or,
  get_or-set_self, get_or-set_ne, set, ℕ_discrete,
}
use multiqueue.CountedIndex.{CountedIndex}
use multiqueue.MultiQueue.State.{QueueEntry, MultiQueue, blank}

-- The streams that the writers look at, and where they stand.
abbrev pub readers {ℓ} : {T : Type ℓ} → MultiQueue T → List ℕ
readers q = q.manager.heap.group q.tail.readers

abbrev pub position {ℓ} : {T : Type ℓ} → MultiQueue T → ℕ → CountedIndex
position q = q.manager.heap.pos

-- A stream of a queue of `w` cells with `n` values sent: what it has not read is still there.
abbrev pub InWindow : ℕ → ℕ → CountedIndex → Type 0
InWindow w n c = (c.mask ≡ w - 1) × (c.val ≤ n) × (n ≤ c.val + w)

-- Two numbers less than `w` apart leave different remainders.
pub mod-ne : (w s n : ℕ) → s < n → n < s + w → n % w ≢ s % w
mod-ne w s n lo hi e = elim (dec_le w (s % w + (n - s))) [
  | yes over ↦ omega (
    arith,
    bound,
    shifted,
    mod-eq-sub-mod over,
    mod-eq_of_lt {n = s % w + (n - s) - w} {m = w} (omega (arith, bound)),
  )
  | no under ↦ omega (arith, shifted, mod-eq_of_lt {n = s % w + (n - s)} {m = w} (omega arith))
]
  where
    bound : s % w < w
    bound = mod-lt s (omega arith)

    shifted : (s % w + (n - s)) % w ≡ n % w
    shifted = mod-add-mod s w (n - s) ∙ ap (λ (t : ℕ). t % w) (omega arith)

-- The value numbered s lies in the cell s % w under the flag s, as long as no later one needs it.
abbrev pub Holds {ℓ} : {T : Type ℓ} → ℕ → List T → List (QueueEntry T) → Type ℓ
Holds w sent cells =
    (s : ℕ)
    → s < length sent
    → length sent ≤ s + w
    → get_or cells (s % w) blank ≡ record { val = get_elem? sent s; wraps = s }

-- No reader is counted at any cell.
abbrev pub IsIdle : ℕ → List ℕ → Type 0
IsIdle w refs = (length refs ≡ w) × ((i : ℕ) → get_or refs i 0 ≡ 0)

pub record IsLog {ℓ} {T : Type ℓ} (k : ℕ) (q : MultiQueue T) (sent : List T) : Type ℓ where
  -- at most 2 ^ 61 cells, and fewer than 2 ^ 63 - 1 values sent, so that no counter has wrapped
  pub small : k ≤ 61
  pub short : length sent < 2 ^ 63 - 1
  pub capacity : q.capacity ≡ 2 ^ k
  pub mask : q.head.mask ≡ 2 ^ k - 1
  pub counted : q.head.val ≡ length sent
  pub cells_width : length q.cells ≡ 2 ^ k
  pub idle : IsIdle (2 ^ k) q.refs
  pub holds : Holds (2 ^ k) sent q.cells
  pub blanks : (i : ℕ) → length sent ≤ i → get_or q.cells i blank ≡ blank
  pub streams : All (λ p. InWindow (2 ^ k) (length sent) (position q p)) (readers q)
  pub cache : (q.tail_cache ≤ length sent) × (length sent ≤ q.tail_cache + 2 ^ k)
  pub behind : All (λ p. q.tail_cache ≤ (position q p).val) (readers q)

pub pow_bounds : (k : ℕ) → k ≤ 61 → (0 < 2 ^ k) × (2 ^ k ≤ 2 ^ 61)
pow_bounds k h = (one-le-pow k 2 (omega arith), pow-le-pow_right (omega arith) h)

-- A write into the next cell adds the value to what the cells hold.
pub Holds-append {ℓ} :
    {T : Type ℓ} (w : ℕ) (sent : List T) (cells : List (QueueEntry T)) (v : T)
    → 0 < w
    → length cells ≡ w
    → Holds w sent cells
    → Holds w
        (sent ++ (v ∷ []))
        (set cells (length sent % w) (record { val = some v; wraps = length sent }))
Holds-append {T} w sent cells v hw hc holds s lo hi = elim (ℕ_discrete s (length sent)) [
  | yes e ↦
      rw
        (
          e,
          get_or-set_self cells (length sent % w) entry blank
              (omega (arith, hc, mod-lt (length sent) hw)),
          get_elem?-append_last sent v (length sent) refl,
        )
        refl
  | no ne ↦
      rw
        (
          get_or-set_ne cells (length sent % w) (s % w) entry blank
              (mod-ne w s (length sent) (omega (arith, len, lo)) (omega (arith, len, hi))),
          get_elem?-append_left sent (v ∷ []) s (omega (arith, len, lo)),
        )
        (holds s (omega (arith, len, lo)) (omega (arith, len, hi)))
]
  where
    entry : QueueEntry T
    entry = record { val = some v; wraps = length sent }

    len : length (sent ++ (v ∷ [])) ≡ length sent + 1
    len = length-append sent (v ∷ [])

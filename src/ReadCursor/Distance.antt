-- ===== src/ReadCursor/Distance.antt =====
-- The distance between the writer and its slowest reader, as `get_max_diff` finds it.
use native.Mathlib.Decide.{dec_le}
use multiqueue.Prelude.{
  ℕ, ◌+◌, ◌-◌, ◌^◌, ◌≤◌, ◌<◌, ◌≡◌, refl, ◌⊎◌, inl, inr, List, [], ◌∷◌, true, Option, none, some,
  arith, Elem, All, ltb, ◌==◌, ==_iff, if◌then◌else◌, ok, Bool-cases,
}
use multiqueue.CountedIndex.{CountedIndex, past, max_wrap}
use multiqueue.CountedIndex.Bounds.{past_cases}
use multiqueue.Heap.{Heap}
use multiqueue.ReadCursor.Group.{
  ReadCursor, Glimpse, calm, max_diff_from, group_max_diff, get_max_diff,
}

-- The position of a reader that the writer at `w` can still see: not ahead of it, and not so far
-- behind that the difference reads as a reader ahead.
abbrev pub IsNear : (ℕ → CountedIndex) → ℕ → ℕ → Type 0
IsNear pos w p = ((pos p).val ≤ w) × (w ≤ (pos p).val + max_wrap)

-- `d` is the largest distance of a reader, or the start value if that is larger.
pub record IsMaxDiff (pos : ℕ → CountedIndex) (w start : ℕ) (readers : List ℕ) (d : ℕ)
    : Type 0 where
  pub from : start ≤ d
  pub upper : All (λ p. w ≤ (pos p).val + d) readers
  pub attained : (d ≡ start) ⊎ ((p : ℕ) × Elem p readers × (w ≡ (pos p).val + d))

max_diff_from-step :
    (pos : ℕ → CountedIndex) (w start p : ℕ) (ps : List ℕ)
    → w < 2 ^ 63
    → IsNear pos w p
    → max_diff_from pos w start (p ∷ ps)
      ≡ max_diff_from pos w (if ltb start (w - (pos p).val) then w - (pos p).val else start) ps
unfolding max_diff_from
max_diff_from-step pos w start p ps hw near =
    ground (arith, past_cases w (pos p).val hw (omega arith))

-- For a writer and readers below 2 ^ 63 none of which is ahead of it or more than `MAX_WRAP`
-- behind, the scan returns the largest of the start value and the distances.
pub max_diff_from-IsMaxDiff :
    (pos : ℕ → CountedIndex) (w start : ℕ) (readers : List ℕ)
    → w < 2 ^ 63
    → All (IsNear pos w) readers
    → (d : ℕ) × (max_diff_from pos w start readers ≡ some d) × IsMaxDiff pos w start readers d
unfolding max_diff_from
max_diff_from-IsMaxDiff pos w start [] hw near =
    (start, refl, record { from = omega arith; upper = tt; attained = inl refl })
max_diff_from-IsMaxDiff pos w start (p ∷ ps) hw near =
    let (d, e, m) = max_diff_from-IsMaxDiff pos w next ps hw near.1 in
    (d, rw (max_diff_from-step pos w start p ps hw near.0) e, widen d m)
  where
    next : ℕ
    next = if ltb start (w - (pos p).val) then w - (pos p).val else start

    widen : (d : ℕ) → IsMaxDiff pos w next ps d → IsMaxDiff pos w start (p ∷ ps) d
    widen d m = record {
      from = ground (arith, m.from);
      upper = (ground (arith, m.from), m.upper);
      attained = elim m.attained [
        | inl e ↦ elim (dec_le (w - (pos p).val) start) [
          | yes l ↦ inl (ground arith)
          | no l ↦ inr (p, inl refl, ground arith)
        ]
        | inr (q, at, e) ↦ inr (q, inr at, e)
      ];
    }

-- If some reader's position is above the writer's, both below 2 ^ 63, the scan returns `None`.
pub max_diff_from-none :
    (pos : ℕ → CountedIndex) (w start p : ℕ) (readers : List ℕ)
    → w < 2 ^ 63
    → (pos p).val < 2 ^ 63
    → w < (pos p).val
    → Elem p readers
    → max_diff_from pos w start readers ≡ none
unfolding max_diff_from
max_diff_from-none pos w start p [] hw hp ahead at = absurd at
max_diff_from-none pos w start p (q ∷ qs) hw hp ahead (inl e) =
    let far : (past w (pos q).val).1 ≡ true = rw e at ((past_cases w (pos p).val hw hp).1 ahead) in
    rw (far, max_diff_from) refl
max_diff_from-none pos w start p (q ∷ qs) hw hp ahead (inr at) = ground (
  arith,
  max_diff_from-none pos w
      (if ltb start (past w (pos q).val).0 then (past w (pos q).val).0 else start) p qs hw hp ahead
      at,
)

-- What `get_max_diff` returns was computed in one of its rounds, in which both loads of the group
-- pointer agree.
pub get_max_diff_stable :
    (rounds : List Glimpse) (w : ℕ) {r : Option ℕ}
    → get_max_diff rounds w ≡ ok r
    → (g : Glimpse) × Elem g rounds
      × (g.second_ptr ≡ g.first_ptr)
      × (r ≡ group_max_diff g.heap (g.heap.group g.first_ptr) w)
unfolding get_max_diff
get_max_diff_stable [] w h = cc
get_max_diff_stable (g ∷ rounds) w h = elim (Bool-cases (g.second_ptr == g.first_ptr)) [
  | inl same ↦ (g, inl refl, ground arith, ground arith)
  | inr moved ↦
      let (k, at, same, e) = get_max_diff_stable rounds w (rw (moved, get_max_diff) at h) in
      (k, inr at, same, e)
]

-- With nothing running between the loads, one round is enough.
pub get_max_diff-calm :
    (h : Heap) (c : ReadCursor) (w : ℕ)
    → get_max_diff (calm h c ∷ []) w ≡ ok (group_max_diff h (h.group c.readers) w)
unfolding get_max_diff
get_max_diff-calm h c w = rw ((==_iff c.readers c.readers).1 refl) refl

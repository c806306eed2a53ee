-- ===== src/Refinement/Threads/Room.antt =====
-- What a sender learns of the tail: `matches_previous` on it, and the reload of it.
use native.Mathlib.Decide.{dec_le}
use multiqueue.Prelude.{
  ℕ, ◌+◌, ◌-◌, ◌^◌, ◌≤◌, ◌<◌, ◌≡◌, refl, ap, ◌∙◌, inl, inr, List, Option, none, some, arith, All,
  All-imp, All-Elem, All-intro, Elem, false, Bool-cases, ◌==◌, ==_iff, ok, if◌then◌else◌, subst,
}
use multiqueue.CountedIndex.{CountedIndex, Transaction, matches_previous, get_previous}
use multiqueue.CountedIndex.Bounds.{matches_previous_lem, get_previous_of_le}
use multiqueue.ReadCursor.Group.{max_diff_from, group_max_diff}
use multiqueue.ReadCursor.Distance.{
  IsNear, IsMaxDiff, max_diff_from-IsMaxDiff, max_diff_from-none, get_max_diff-calm,
}
use multiqueue.MultiQueue.State.{MultiQueue}
use multiqueue.MultiQueue.Send.{reload_tail_multi}
use multiqueue.Refinement.Log.{readers, position, InWindow, pow_bounds}

-- The test says that there is room behind a position, and there is.
pub room_of_no_match :
    (t : Transaction) (w x : ℕ)
    → t.mask ≡ w - 1
    → 0 < w
    → w ≤ 2 ^ 62
    → t.loaded_vals < 2 ^ 63
    → t.loaded_vals ≤ x + w
    → matches_previous t x ≡ false
    → t.loaded_vals < x + w
room_of_no_match t w x hm hw hb hl hr test = elim (dec_le x t.loaded_vals) [
  | yes le ↦ ground (arith, matches_previous_lem t w x hm hw hb hl le hr)
  | no gt ↦ omega arith
]

-- The group against a writer's count that may be old, or may be behind a stream: if the scan has a
-- result, no stream is ahead of the count, and the result is the largest distance.
pub max_diff_from-some :
    (pos : ℕ → CountedIndex) (w n c d : ℕ) (streams : List ℕ)
    → w ≤ 2 ^ 61
    → n < 2 ^ 63 - 1
    → c ≤ n
    → All (λ s. InWindow w n (pos s)) streams
    → max_diff_from pos c 0 streams ≡ some d
    → All (λ s. (pos s).val ≤ c) streams × IsMaxDiff pos c 0 streams d
max_diff_from-some pos w n c d streams hw hn hc windows e =
    let (d', e', m) = max_diff_from-IsMaxDiff pos c 0 streams (omega arith) near in
    (not_ahead, let same : d' ≡ d = cc (e, e') in subst (IsMaxDiff pos c 0 streams) same m)
  where
    window : (s : ℕ) → Elem s streams → InWindow w n (pos s)
    window s at = All-Elem (λ s. InWindow w n (pos s)) s streams windows at

    not_ahead : All (λ s. (pos s).val ≤ c) streams
    not_ahead =
        All-intro (λ s. (pos s).val ≤ c) streams
          λ s at. elim (dec_le (pos s).val c) [
            | yes le ↦ le
            | no gt ↦ absurd (
                cc (
                  e,
                  max_diff_from-none pos c 0 s streams (omega arith) (omega (arith, window s at))
                      (omega arith) at,
                ))
          ]

    near : All (IsNear pos c) streams
    near =
        All-intro (IsNear pos c) streams λ s at.
          (All-Elem (λ s. (pos s).val ≤ c) s streams not_ahead at, omega (arith, window s at))

module _ {ℓ} {T : Type ℓ} where
  -- A reload by a sender whose transaction may be old: but for the cached tail the queue is as it
  -- was, the cached tail has not gone back and is behind no stream, and the test on the tail that
  -- comes out is right about the one that is cached.
  pub record Reloaded (k : ℕ) (q : MultiQueue T) (t : Transaction) (q' : MultiQueue T)
      (new_tail : ℕ) : Type ℓ where
    pub cache : ℕ
    pub queue : q' ≡ record q { tail_cache = cache }
    pub grown : q.tail_cache ≤ cache
    pub behind : All (λ s. cache ≤ (position q s).val) (readers q)
    pub room : matches_previous t new_tail ≡ false → t.loaded_vals < cache + 2 ^ k

  -- What the reload makes of the scan's result.
  unfoldable pub after_scan : MultiQueue T → ℕ → ℕ → Option ℕ → MultiQueue T × ℕ
  after_scan q tail c none = (q, q.tail_cache)
  after_scan q tail c (some d) =
      if tail == get_previous c d
      then (q, get_previous c d)
      else if q.tail_cache == tail
      then (record q { tail_cache = get_previous c d }, get_previous c d)
      else (q, q.tail_cache)

  pub reload_tail_multi-after_scan :
      (q : MultiQueue T) (tail c : ℕ) (scan : Option ℕ)
      → group_max_diff q.manager.heap (readers q) c ≡ scan
      → reload_tail_multi q tail c ≡ ok (after_scan q tail c scan)
  unfolding reload_tail_multi after_scan
  reload_tail_multi-after_scan q tail c none e =
      rw (get_max_diff-calm q.manager.heap q.tail c ∙ ap ok e) refl
  reload_tail_multi-after_scan q tail c (some d) e =
      rw (get_max_diff-calm q.manager.heap q.tail c ∙ ap ok e) refl

  module _ {k n : ℕ} (q : MultiQueue T) (t : Transaction) (tail : ℕ) (small : k ≤ 61)
      (short : n < 2 ^ 63 - 1) (windows : All (λ s. InWindow (2 ^ k) n (position q s)) (readers q))
      (some_stream : (s : ℕ) × Elem s (readers q)) (cache : n ≤ q.tail_cache + 2 ^ k)
      (behind : All (λ s. q.tail_cache ≤ (position q s).val) (readers q))
      (mask : t.mask ≡ 2 ^ k - 1) (reached : t.loaded_vals ≤ n) (old : tail ≤ q.tail_cache) where
    room_at :
        (x : ℕ)
        → t.loaded_vals ≤ x + 2 ^ k
        → matches_previous t x ≡ false
        → t.loaded_vals < x + 2 ^ k
    room_at x near test =
        room_of_no_match t (2 ^ k) x mask (pow_bounds k small).0 (omega (arith, pow_bounds k small))
          (omega arith) near test

    -- The cached tail stays.
    kept : Reloaded k q t q q.tail_cache
    kept = record {
      cache = q.tail_cache;
      queue = refl;
      grown = omega arith;
      behind = behind;
      room = λ test. room_at q.tail_cache (omega arith) test;
    }

    module _ (d : ℕ) (far : All (λ s. (position q s).val ≤ t.loaded_vals) (readers q))
        (m : IsMaxDiff (position q) t.loaded_vals 0 (readers q) d) where
      -- The position of the slowest stream, or the writer's own.
      scanned :
          (d ≤ t.loaded_vals)
          × (d ≤ 2 ^ k)
          × (q.tail_cache ≤ t.loaded_vals - d)
          × (get_previous t.loaded_vals d ≡ t.loaded_vals - d)
      scanned = elim m.attained [
        | inl e ↦
            let s = some_stream.0 in
            let le : (position q s).val ≤ t.loaded_vals =
              All-Elem (λ s. (position q s).val ≤ t.loaded_vals) s (readers q) far some_stream.1 in
            let ge : q.tail_cache ≤ (position q s).val =
              All-Elem (λ s. q.tail_cache ≤ (position q s).val) s (readers q) behind
                some_stream.1 in
            (
              omega arith,
              omega arith,
              omega arith,
              get_previous_of_le t.loaded_vals d (omega arith) (omega arith),
            )
        | inr (s, at, e) ↦
            let ge : q.tail_cache ≤ (position q s).val =
              All-Elem (λ s. q.tail_cache ≤ (position q s).val) s (readers q) behind at in
            let window : InWindow (2 ^ k) n (position q s) =
              All-Elem (λ s. InWindow (2 ^ k) n (position q s)) s (readers q) windows at in
            (
              omega (arith, e),
              omega (arith, e, window.2),
              omega (arith, e),
              get_previous_of_le t.loaded_vals d (omega (arith, e)) (omega arith),
            )
      ]

      slowest : All (λ s. t.loaded_vals - d ≤ (position q s).val) (readers q)
      slowest =
          All-imp (λ s. t.loaded_vals ≤ (position q s).val + d) _ (readers q)
            (λ s u. omega (arith, u)) m.upper

      -- The cached tail becomes that position.
      moved : Reloaded k q t (record q { tail_cache = t.loaded_vals - d }) (t.loaded_vals - d)
      moved = record {
        cache = t.loaded_vals - d;
        queue = refl;
        grown = scanned.2;
        behind = slowest;
        room = λ test. room_at (t.loaded_vals - d) (omega (arith, scanned)) test;
      }

      -- It is the one that the sender had loaded, and the cached tail is no older.
      same : tail ≡ t.loaded_vals - d → Reloaded k q t q (t.loaded_vals - d)
      same e = record {
        cache = q.tail_cache;
        queue = refl;
        grown = omega arith;
        behind = behind;
        room = λ test. omega (arith, e, room_at (t.loaded_vals - d) (omega (arith, scanned)) test);
      }

      after_scan-Reloaded :
          Reloaded k q t
            (after_scan q tail t.loaded_vals (some d)).0
            (after_scan q tail t.loaded_vals (some d)).1
      unfolding after_scan
      after_scan-Reloaded = elim (Bool-cases (tail == t.loaded_vals - d)) [
        | inl e ↦ rw (scanned.3, e) (same ((==_iff tail (t.loaded_vals - d)).0 e))
        | inr ne ↦ elim (Bool-cases (q.tail_cache == tail)) [
          | inl e ↦ rw (scanned.3, ne, e) moved
          | inr ne' ↦ rw (scanned.3, ne, ne') kept
        ]
      ]

    scan-Reloaded :
        (scan : Option ℕ)
        → group_max_diff q.manager.heap (readers q) t.loaded_vals ≡ scan
        → Reloaded k q t
            (after_scan q tail t.loaded_vals scan).0
            (after_scan q tail t.loaded_vals scan).1
    unfolding after_scan group_max_diff
    scan-Reloaded none e = kept
    scan-Reloaded (some d) e =
        let (far, m) =
          max_diff_from-some (position q) (2 ^ k) n t.loaded_vals d (readers q)
            (pow_bounds k small).1 short reached windows e in
        after_scan-Reloaded d far m

    pub reload_tail_multi-Reloaded :
        {q' : MultiQueue T} {new_tail : ℕ}
        → reload_tail_multi q tail t.loaded_vals ≡ ok (q', new_tail)
        → Reloaded k q t q' new_tail
    reload_tail_multi-Reloaded {q'} {new_tail} e =
        let scan : Option ℕ = group_max_diff q.manager.heap (readers q) t.loaded_vals in
        let left : after_scan q tail t.loaded_vals scan ≡ (q', new_tail) =
          cc (e, reload_tail_multi-after_scan q tail t.loaded_vals scan refl) in
        subst (λ (r : MultiQueue T × ℕ). Reloaded k q t r.0 r.1) left (scan-Reloaded scan refl)

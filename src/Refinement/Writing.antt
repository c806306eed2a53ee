-- ===== src/Refinement/Writing.antt =====
-- What `try_send_single` does step by step, on a queue that stands for a log: the test for a full
-- queue, the reload of the tail, and the write.
use native.Mathlib.Nat.{mod-le}
use multiqueue.Prelude.{
  ℕ, ◌+◌, ◌-◌, ◌%◌, ◌^◌, ◌≤◌, ◌<◌, ◌≡◌, refl, sym, ap, ◌∙◌, inl, inr, List, [], ◌∷◌, ◌++◌, some,
  arith, All, Elem, All-imp, All-imp₂, All-Elem, length, length-append, length-set, get_or-set_ne,
  ◌==◌, ok,
}
use multiqueue.CountedIndex
use multiqueue.CountedIndex.{CountedIndex, Transaction, get_previous, matches_previous, max_wrap}
use multiqueue.CountedIndex.Bounds.{
  store_val_one, matches_previous_lem, get_lem, get_previous_of_le,
}
use multiqueue.ReadCursor.Group.{get_max_diff, max_diff_from, group_max_diff}
use multiqueue.ReadCursor.Distance.{IsNear, IsMaxDiff, max_diff_from-IsMaxDiff}
use multiqueue.MultiQueue.Policy.{QueueRw, IsLawful}
use multiqueue.MultiQueue.State.{MultiQueue, blank}
use multiqueue.MultiQueue.Send.{reload_tail_single, write_cell, send_single_checked}
use multiqueue.Refinement.Log.{readers, position, InWindow, IsLog, pow_bounds, Holds-append}

module _ {ℓ} {T : Type ℓ} where
  -- What a send looks at: the transaction on the head.
  abbrev pub on_head : MultiQueue T → Transaction
  on_head q = CountedIndex.load_transaction q.head

  pub get-on_head :
      {k : ℕ} {q : MultiQueue T} {sent : List T}
      → IsLog k q sent
      → CountedIndex.get (on_head q) ≡ (length sent % 2 ^ k, length sent)
  unfolding CountedIndex.load_transaction
  get-on_head {k} {q} v = get_lem (on_head q) k v.mask ∙ ap (λ (t : ℕ). (t % 2 ^ k, t)) v.counted

  -- The test for a full queue, at a bound on the tail.
  pub matches_previous-on_head :
      {k : ℕ} {q : MultiQueue T} {sent : List T} (tail : ℕ)
      → IsLog k q sent
      → tail ≤ length sent
      → length sent ≤ tail + 2 ^ k
      → matches_previous (on_head q) tail ≡ (length sent == tail + 2 ^ k)
  unfolding CountedIndex.load_transaction
  matches_previous-on_head {k} {q} {sent} tail v lo hi =
      matches_previous_lem (on_head q) (2 ^ k) tail v.mask (pow_bounds k v.small).0
        (omega (arith, pow_bounds k v.small)) (omega arith) (omega arith) (omega arith)
      ∙ ap (λ (t : ℕ). t == tail + 2 ^ k) v.counted

  -- The state after a send that had room.
  abbrev pub after_send : QueueRw T → MultiQueue T → ℕ → List T → T → MultiQueue T
  after_send p q k sent val =
      write_cell p (record q { head = CountedIndex.commit_direct q.head (on_head q) 1 })
        (length sent % 2 ^ k) (length sent) val

  pub send_single_checked-idle :
      (p : QueueRw T) {k : ℕ} {q : MultiQueue T} {sent : List T} (val : T)
      → IsLawful p
      → IsLog k q sent
      → send_single_checked p q (on_head q) val ≡ (after_send p q k sent val, ok tt)
  unfolding send_single_checked
  send_single_checked-idle p {k} {q} {sent} val lawful v =
      rw (get-on_head v, v.idle.1 (length sent % 2 ^ k), lawful.idle) refl

  val-commit_direct :
      {k : ℕ} {q : MultiQueue T} {sent : List T}
      → IsLog k q sent
      → (CountedIndex.commit_direct q.head (on_head q) 1).val ≡ length sent + 1
  unfolding CountedIndex.commit_direct CountedIndex.load_transaction
  val-commit_direct {q} v = omega (arith, store_val_one (on_head q) (omega arith))

  -- With room up to the tail it knows of, a send adds the value to the log.
  pub after_send-IsLog :
      (p : QueueRw T) {k : ℕ} {q : MultiQueue T} {sent : List T} (val : T)
      → IsLog k q sent
      → length sent + 1 < 2 ^ 63 - 1
      → length sent < q.tail_cache + 2 ^ k
      → IsLog k (after_send p q k sent val) (sent ++ (val ∷ []))
  unfolding write_cell CountedIndex.commit_direct
  after_send-IsLog p {k} {q} {sent} val v fits room = record {
    small = v.small;
    short = omega (arith, len);
    capacity = v.capacity;
    mask = v.mask;
    counted = val-commit_direct v ∙ sym len;
    cells_width = length-set q.cells (length sent % 2 ^ k) _ ∙ v.cells_width;
    idle = v.idle;
    holds = Holds-append (2 ^ k) sent q.cells val (pow_bounds k v.small).0 v.cells_width v.holds;
    blanks = λ i le.
        get_or-set_ne q.cells (length sent % 2 ^ k) i _ blank
          (λ e. absurd (omega (arith, len, mod-le (length sent) (2 ^ k))))
        ∙ v.blanks i (omega (arith, len));
    streams =
        All-imp₂ (λ r. InWindow (2 ^ k) (length sent) (position q r)) _ _ (readers q)
          (λ r w b. (w.0, omega (arith, len, w.1), omega (arith, len))) v.streams v.behind;
    cache = (omega (arith, len, v.cache.0), omega (arith, len));
    behind = v.behind;
  }
    where
      len : length (sent ++ (val ∷ [])) ≡ length sent + 1
      len = length-append sent (val ∷ [])

  -- Any bound on the tail that no stream is behind may be cached.
  pub with_cache-IsLog :
      {k : ℕ} {q : MultiQueue T} {sent : List T} (c : ℕ)
      → IsLog k q sent
      → (c ≤ length sent) × (length sent ≤ c + 2 ^ k)
      → All (λ r. c ≤ (position q r).val) (readers q)
      → IsLog k (record q { tail_cache = c }) sent
  with_cache-IsLog c v cache behind = record {
    small = v.small;
    short = v.short;
    capacity = v.capacity;
    mask = v.mask;
    counted = v.counted;
    cells_width = v.cells_width;
    idle = v.idle;
    holds = v.holds;
    blanks = v.blanks;
    streams = v.streams;
    cache = cache;
    behind = behind;
  }

  -- The slowest stream is at most a whole queue behind.
  pub max_diff_bounds :
      {k : ℕ} {q : MultiQueue T} {sent : List T} (d : ℕ)
      → IsLog k q sent
      → IsMaxDiff (position q) (length sent) 0 (readers q) d
      → (d ≤ length sent) × (d ≤ 2 ^ k)
  max_diff_bounds {k} {q} {sent} d v m = elim m.attained [
    | inl e ↦ (omega arith, omega arith)
    | inr (r, at, e) ↦ (omega (arith, e), omega (arith, e, window r at))
  ]
    where
      window : (r : ℕ) → Elem r (readers q) → InWindow (2 ^ k) (length sent) (position q r)
      window r at =
          All-Elem (λ r. InWindow (2 ^ k) (length sent) (position q r)) r (readers q) v.streams at

  -- What a reload of the tail leaves: the queue as it was, but for the cached tail, which is the
  -- position of a slowest stream, or the head where no stream is left behind it.
  pub reload_tail_single-IsLog :
      {k : ℕ} {q : MultiQueue T} {sent : List T}
      → IsLog k q sent
      → (d : ℕ) × (group_max_diff q.manager.heap (readers q) (length sent) ≡ some d)
        × (reload_tail_single q (length sent)
            ≡ ok (record q { tail_cache = length sent - d }, length sent - d))
        × IsLog k (record q { tail_cache = length sent - d }) sent
        × IsMaxDiff (position q) (length sent) 0 (readers q) d
  unfolding reload_tail_single get_max_diff group_max_diff
  reload_tail_single-IsLog {k} {q} {sent} v =
      let (d, e, m) =
        max_diff_from-IsMaxDiff (position q) (length sent) 0 (readers q) (omega arith) near in
      (d, e, reloaded d e (max_diff_bounds d v m), cached d m (max_diff_bounds d v m), m)
    where
      reloaded :
          (d : ℕ)
          → max_diff_from (position q) (length sent) 0 (readers q) ≡ some d
          → (d ≤ length sent) × (d ≤ 2 ^ k)
          → reload_tail_single q (length sent)
            ≡ ok (record q { tail_cache = length sent - d }, length sent - d)
      reloaded d e b = ground (arith, previous)
        where
          previous : get_previous (length sent) d ≡ length sent - d
          previous = get_previous_of_le (length sent) d b.0 (omega arith)

      cached :
          (d : ℕ)
          → IsMaxDiff (position q) (length sent) 0 (readers q) d
          → (d ≤ length sent) × (d ≤ 2 ^ k)
          → IsLog k (record q { tail_cache = length sent - d }) sent
      cached d m b =
          with_cache-IsLog (length sent - d) v (omega arith, omega (arith, b))
            (All-imp (λ r. length sent ≤ (position q r).val + d) _ (readers q)
              (λ r u. omega (arith, u)) m.upper)

      near : All (IsNear (position q) (length sent)) (readers q)
      near =
          All-imp (λ r. InWindow (2 ^ k) (length sent) (position q r)) _ (readers q)
            (λ r w. (w.1, omega (arith, w.2, pow_bounds k v.small))) v.streams

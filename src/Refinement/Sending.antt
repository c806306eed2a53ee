-- ===== src/Refinement/Sending.antt =====
-- `try_send_single` against the log: it appends the value, or a stream is a whole queue behind.

use multiqueue.Prelude.{
  ℕ, ◌+◌, ◌-◌, ◌^◌, ◌≤◌, ◌<◌, ◌≡◌, refl, ap, ◌⊎◌, inl, inr, List, [], ◌∷◌, ◌++◌, arith, All, Elem,
  All-imp, length, true, false, Bool-cases, ◌==◌, Result, ok, err, Fault, if◌then◌else◌,
}
use multiqueue.CountedIndex.{matches_previous}
use multiqueue.ReadCursor.Distance.{IsMaxDiff}
use multiqueue.MultiQueue.Policy.{QueueRw, IsLawful}
use multiqueue.MultiQueue.State.{MultiQueue}
use multiqueue.MultiQueue.Send.{
  full, Sent, reload_tail_single, write_cell, send_single_checked, try_send_single,
}
use multiqueue.Refinement.Log.{readers, position, IsLog, pow_bounds}
use multiqueue.Refinement.Writing.{
  on_head, get-on_head, matches_previous-on_head, after_send, send_single_checked-idle,
  after_send-IsLog, max_diff_bounds, reload_tail_single-IsLog,
}

-- A send that added its value to the log: every stream had room, and the streams are left alone.
pub record Appended {ℓ} {T : Type ℓ} (k : ℕ) (q : MultiQueue T) (sent : List T) (val : T)
    (result : Result Fault (Sent T)) : Type ℓ where
  pub queue : MultiQueue T
  pub returned : result ≡ ok (queue, ok tt)
  pub log : IsLog k queue (sent ++ (val ∷ []))
  pub room : All (λ r. length sent < (position q r).val + 2 ^ k) (readers q)
  pub streams_kept : (queue.manager ≡ q.manager) × (queue.tail ≡ q.tail)
  pub outside_kept : (queue.needs_notify ≡ q.needs_notify) × (queue.notified ≡ q.notified)

-- A send that gave its value back: some stream is a whole queue behind, and nothing but the cached
-- tail has changed.
pub record Refused {ℓ} {T : Type ℓ} (k : ℕ) (q : MultiQueue T) (sent : List T) (val : T)
    (result : Result Fault (Sent T)) : Type ℓ where
  pub cache : ℕ
  pub returned : result ≡ ok (record q { tail_cache = cache }, err (full val))
  pub log : IsLog k (record q { tail_cache = cache }) sent
  pub slowest : ℕ
  pub is_reader : Elem slowest (readers q)
  pub lags : length sent ≡ (position q slowest).val + 2 ^ k

module _ {ℓ} {T : Type ℓ} (p : QueueRw T) (lawful : IsLawful p) where
  -- The test fails only with room in the cached tail.
  pub room_of_test :
      {k : ℕ} {q : MultiQueue T} {sent : List T}
      → IsLog k q sent
      → matches_previous (on_head q) q.tail_cache ≡ false
      → length sent < q.tail_cache + 2 ^ k
  room_of_test {k} {q} {sent} v direct = ground (arith, test)
    where
      test : matches_previous (on_head q) q.tail_cache ≡ (length sent == q.tail_cache + 2 ^ k)
      test = matches_previous-on_head q.tail_cache v v.cache.0 v.cache.1

  -- A send with room in the cached tail.
  pub send_single_checked-Appended :
      {k : ℕ} {q : MultiQueue T} {sent : List T} (val : T)
      → IsLog k q sent
      → length sent + 1 < 2 ^ 63 - 1
      → length sent < q.tail_cache + 2 ^ k
      → Appended k q sent val (ok (send_single_checked p q (on_head q) val))
  unfolding write_cell
  send_single_checked-Appended {k} {q} {sent} val v fits room = record {
    queue = after_send p q k sent val;
    returned = ap ok (send_single_checked-idle p val lawful v);
    log = after_send-IsLog p val v fits room;
    room =
        All-imp (λ r. q.tail_cache ≤ (position q r).val) _ (readers q) (λ r b. omega (arith, b))
          v.behind;
    streams_kept = (refl, refl);
    outside_kept = (refl, refl);
  }

  -- Where the cached tail shows a full queue, the tail is loaded again and decides.
  pub try_send_single-reloaded :
      {k : ℕ} {q q' : MultiQueue T} {sent : List T} {tail : ℕ} (val : T)
      → IsLog k q sent
      → matches_previous (on_head q) q.tail_cache ≡ true
      → reload_tail_single q (length sent) ≡ ok (q', tail)
      → try_send_single p q val
        ≡ ok (
            if matches_previous (on_head q) tail
            then (q', err (full val))
            else send_single_checked p q' (on_head q) val)
  unfolding try_send_single
  try_send_single-reloaded val v maybe reloaded = rw (maybe, get-on_head v, reloaded) refl

  pub try_send_single-direct :
      (q : MultiQueue T) (val : T)
      → matches_previous (on_head q) q.tail_cache ≡ false
      → try_send_single p q val ≡ ok (send_single_checked p q (on_head q) val)
  unfolding try_send_single
  try_send_single-direct q val direct = rw direct refl

  -- What a send comes to once the tail has been loaded again.
  pub after_reload :
      {k : ℕ} {q : MultiQueue T} {sent : List T} (val : T) (d : ℕ)
      → IsLog k q sent
      → length sent + 1 < 2 ^ 63 - 1
      → IsLog k (record q { tail_cache = length sent - d }) sent
      → IsMaxDiff (position q) (length sent) 0 (readers q) d
      → let result : Result Fault (Sent T) = ok (
          if matches_previous (on_head q) (length sent - d)
          then (record q { tail_cache = length sent - d }, err (full val))
          else send_single_checked p (record q { tail_cache = length sent - d }) (on_head q) val) in
        Appended k q sent val result ⊎ Refused k q sent val result
  after_reload {k} {q} {sent} val d v fits log m =
      elim (Bool-cases (length sent == (length sent - d) + 2 ^ k)) [
        | inl is_full ↦ inr (rw (test, is_full) (refused (ground arith)))
        | inr has_room ↦ inl (
            rw (test, has_room)
              (widen (send_single_checked-Appended val log fits (ground (arith, log.cache)))))
      ]
    where
      bounds : (d ≤ length sent) × (d ≤ 2 ^ k)
      bounds = max_diff_bounds d v m

      test :
          matches_previous (on_head q) (length sent - d)
          ≡ (length sent == (length sent - d) + 2 ^ k)
      test = matches_previous-on_head (length sent - d) v (omega arith) (omega (arith, bounds))

      refused :
          length sent ≡ (length sent - d) + 2 ^ k
          → Refused k q sent val (ok (record q { tail_cache = length sent - d }, err (full val)))
      refused lap = elim m.attained [
        | inl e ↦ absurd (omega (arith, lap, e, pow_bounds k v.small))
        | inr (r, at, e) ↦ record {
          cache = length sent - d;
          returned = refl;
          log = log;
          slowest = r;
          is_reader = at;
          lags = omega (arith, lap, e, bounds);
        }
      ]

      widen :
          {result : Result Fault (Sent T)}
          → Appended k (record q { tail_cache = length sent - d }) sent val result
          → Appended k q sent val result
      widen a = record {
        queue = a.queue;
        returned = a.returned;
        log = a.log;
        room = a.room;
        streams_kept = a.streams_kept;
        outside_kept = a.outside_kept;
      }

  -- On a queue that stands for a log with fewer than 2 ^ 63 - 2 values, and with a lawful policy,
  -- `try_send_single` ends without a panic: it appends the value and every stream had room for
  -- it, or gives it back and some stream is a whole queue behind; then nothing but the cached
  -- tail has changed.
  pub try_send_single_lem :
      {k : ℕ} {q : MultiQueue T} {sent : List T} (val : T)
      → IsLog k q sent
      → length sent + 1 < 2 ^ 63 - 1
      → Appended k q sent val (try_send_single p q val)
        ⊎ Refused k q sent val (try_send_single p q val)
  try_send_single_lem {k} {q} {sent} val v fits =
      elim (Bool-cases (matches_previous (on_head q) q.tail_cache)) [
        | inr direct ↦
            rw (try_send_single-direct q val direct)
              (inl (send_single_checked-Appended val v fits (room_of_test v direct)))
        | inl maybe ↦
            let (d, e, reloaded, log, m) = reload_tail_single-IsLog v in
            rw (try_send_single-reloaded val v maybe reloaded) (after_reload val d v fits log m)
      ]

-- ===== src/Refinement/Multi.antt =====
-- `try_send_multi` with no other writer at work: it does what `try_send_single` does.
use multiqueue.Prelude.{
  ℕ, ◌-◌, ◌^◌, ◌≤◌, ◌≡◌, refl, sym, ap, ◌∙◌, inl, inr, List, [], ◌∷◌, some, arith, Elem, length,
  Bool, true, false, Bool-cases, ◌==◌, ==_iff, ok, err, ◌>>=◌, if◌then◌else◌,
}
use multiqueue.CountedIndex
use multiqueue.CountedIndex.{CountedIndex, Transaction, matches_previous, get_previous}
use multiqueue.CountedIndex.Bounds.{get_previous_of_le}
use multiqueue.ReadCursor.Group.{calm, get_max_diff, group_max_diff}
use multiqueue.ReadCursor.Distance.{get_max_diff-calm}
use multiqueue.MultiQueue.Policy.{QueueRw, IsLawful}
use multiqueue.MultiQueue.State.{MultiQueue}
use multiqueue.MultiQueue.Send.{
  full, returns, continues, reload_tail_multi, reload_tail_single, send_single_checked,
  send_multi_checked, send_multi_round, send_multi_from, try_send_single, try_send_multi,
}
use multiqueue.Refinement.Log.{readers, IsLog}
use multiqueue.Refinement.Writing.{on_head, get-on_head, reload_tail_single-IsLog, max_diff_bounds}
use multiqueue.Refinement.Sending.{try_send_single-direct, try_send_single-reloaded}

module _ {ℓ} {T : Type ℓ} (p : QueueRw T) where
  -- The compare-exchange that does not fail stores what the plain store does.
  send_multi_checked-false :
      (q : MultiQueue T) (val : T)
      → send_multi_checked p false q (on_head q) val
        ≡ returns (send_single_checked p q (on_head q) val)
  unfolding send_multi_checked send_single_checked CountedIndex.commit CountedIndex.commit_direct
      CountedIndex.load_transaction
  send_multi_checked-false q val = ground arith

  -- One that fails leaves the queue, and the transaction is as before.
  send_multi_checked-true :
      (q : MultiQueue T) (val : T) {k : ℕ} {sent : List T}
      → IsLawful p
      → IsLog k q sent
      → send_multi_checked p true q (on_head q) val ≡ continues q (on_head q)
  unfolding send_multi_checked CountedIndex.commit CountedIndex.load_transaction
  send_multi_checked-true q val lawful v =
      ground (arith, v.idle.1 (CountedIndex.get (on_head q)).0, lawful.idle)

  -- The tail that a sender among many loads is the one that a single sender loads.
  reload_tail_multi-eq-single :
      {k : ℕ} {q : MultiQueue T} {sent : List T}
      → IsLog k q sent
      → reload_tail_multi q q.tail_cache (length sent) ≡ reload_tail_single q (length sent)
  unfolding reload_tail_multi
  reload_tail_multi-eq-single {k} {q} {sent} v =
      let (d, e, reloaded, log, m) = reload_tail_single-IsLog v in
      rw reloaded (same d e (max_diff_bounds d v m))
    where
      same :
          (d : ℕ)
          → group_max_diff q.manager.heap (readers q) (length sent) ≡ some d
          → (d ≤ length sent) × (d ≤ 2 ^ k)
          → reload_tail_multi q q.tail_cache (length sent)
            ≡ ok (record q { tail_cache = length sent - d }, length sent - d)
      same d e b = elim (Bool-cases (q.tail_cache == length sent - d)) [
        | inl cached ↦
            rw (read, previous, cached)
              (ap (λ (t : ℕ). ok (record q { tail_cache = t }, length sent - d))
                ((==_iff q.tail_cache (length sent - d)).0 cached))
        | inr stale ↦ rw (read, previous, stale, (==_iff q.tail_cache q.tail_cache).1 refl) refl
      ]
        where
          read : get_max_diff (calm q.manager.heap q.tail ∷ []) (length sent) ≡ ok (some d)
          read = get_max_diff-calm q.manager.heap q.tail (length sent) ∙ ap ok e

          previous : get_previous (length sent) d ≡ length sent - d
          previous = get_previous_of_le (length sent) d b.0 (omega arith)

  -- Once the cached tail shows room, the loop ends at the first compare-exchange that does not fail.
  send_multi_from-direct :
      (outcomes : List Bool) (q : MultiQueue T) (val : T) {k : ℕ} {sent : List T}
      → IsLawful p
      → IsLog k q sent
      → matches_previous (on_head q) q.tail_cache ≡ false
      → Elem false outcomes
      → send_multi_from p outcomes q (on_head q) val ≡ ok (send_single_checked p q (on_head q) val)
  unfolding send_multi_from send_multi_round
  send_multi_from-direct [] q val lawful v direct at = absurd at
  send_multi_from-direct (false ∷ outcomes) q val lawful v direct at =
      rw (direct, send_multi_checked-false q val) refl
  send_multi_from-direct (true ∷ outcomes) q val lawful v direct (inl e) = cc
  send_multi_from-direct (true ∷ outcomes) q val lawful v direct (inr at) =
      rw (direct, send_multi_checked-true q val lawful v)
        (send_multi_from-direct outcomes q val lawful v direct at)

  -- The rest of a round that found room, and of the loop behind it.
  send_multi_from-room :
      (weak : Bool) (outcomes : List Bool) (q : MultiQueue T) (val : T) {k : ℕ} {sent : List T}
      → IsLawful p
      → IsLog k q sent
      → matches_previous (on_head q) q.tail_cache ≡ false
      → Elem false (weak ∷ outcomes)
      → (ok (send_multi_checked p weak q (on_head q) val) >>= elim [
        | returns r ↦ ok r
        | continues q' transaction' ↦ send_multi_from p outcomes q' transaction' val
      ])
        ≡ ok (send_single_checked p q (on_head q) val)
  send_multi_from-room false outcomes q val lawful v direct at =
      rw (send_multi_checked-false q val) refl
  send_multi_from-room true outcomes q val lawful v direct (inl e) = cc
  send_multi_from-room true outcomes q val lawful v direct (inr at) =
      rw (send_multi_checked-true q val lawful v)
        (send_multi_from-direct outcomes q val lawful v direct at)

  -- The loop where the cached tail shows a full queue, and the tail is loaded again.
  send_multi_from-reloaded :
      (outcomes : List Bool) (q : MultiQueue T) (val : T) (tail : ℕ) {k : ℕ} {sent : List T}
      → IsLawful p
      → IsLog k q sent
      → IsLog k (record q { tail_cache = tail }) sent
      → reload_tail_multi q q.tail_cache (length sent) ≡ ok (record q { tail_cache = tail }, tail)
      → matches_previous (on_head q) q.tail_cache ≡ true
      → Elem false outcomes
      → send_multi_from p outcomes q (on_head q) val
        ≡ ok (
            if matches_previous (on_head q) tail
            then (record q { tail_cache = tail }, err (full val))
            else send_single_checked p (record q { tail_cache = tail }) (on_head q) val)
  unfolding send_multi_from send_multi_round
  send_multi_from-reloaded [] q val tail lawful v log reloaded maybe at = absurd at
  send_multi_from-reloaded (weak ∷ outcomes) q val tail lawful v log reloaded maybe at =
      elim (Bool-cases (matches_previous (on_head q) tail)) [
        | inl is_full ↦ rw (maybe, get-on_head v, reloaded, is_full) refl
        | inr has_room ↦
            rw (maybe, get-on_head v, reloaded, has_room)
              (send_multi_from-room weak outcomes (record q { tail_cache = tail }) val lawful log
                has_room at)
      ]

  -- On a queue that stands for a log, with a lawful policy, `try_send_multi` with no other writer
  -- at work does what `try_send_single` does, as soon as one of its compare-exchanges does not
  -- fail for no reason.
  pub try_send_multi-eq-single :
      (outcomes : List Bool) {k : ℕ} {q : MultiQueue T} {sent : List T} (val : T)
      → IsLawful p
      → IsLog k q sent
      → Elem false outcomes
      → try_send_multi p outcomes q val ≡ try_send_single p q val
  unfolding try_send_multi
  try_send_multi-eq-single outcomes {k} {q} {sent} val lawful v at =
      elim (Bool-cases (matches_previous (on_head q) q.tail_cache)) [
        | inr direct ↦
            send_multi_from-direct outcomes q val lawful v direct at
            ∙ sym (try_send_single-direct p lawful q val direct)
        | inl maybe ↦
            let (d, e, reloaded, log, m) = reload_tail_single-IsLog v in
            send_multi_from-reloaded outcomes q val (length sent - d) lawful v log
              (reload_tail_multi-eq-single v ∙ reloaded) maybe at
            ∙ sym (try_send_single-reloaded p lawful val v maybe reloaded)
      ]

-- ===== src/Refinement/Waiting.antt =====
-- A receive on a stream that has reached the end of the log.
use multiqueue.Prelude.{
  ℕ, ◌-◌, ◌%◌, ◌^◌, ◌≡◌, refl, List, ◌∷◌, none, some, Elem, All-Elem, length, get_or, Bool, false,
  ◌==◌, Result, ok, err, Fault, if◌then◌else◌,
}
use multiqueue.CountedIndex.{rm_tag}
use multiqueue.ReadCursor.Attempt.{Reader}
use multiqueue.MultiQueue.Policy.{QueueRw}
use multiqueue.MultiQueue.State.{MultiQueue, blank}
use multiqueue.MultiQueue.Recv.{
  empty, disconnected, Received, refuse, recv_round, recv_from, try_recv, try_recv_view,
}
use multiqueue.Refinement.Log.{readers, position, InWindow, IsLog}
use multiqueue.Refinement.Receiving.{flag_missing}
use multiqueue.Refinement.Taking.{get-attempt_of, load_attempt_lem}

-- A receive that found nothing: the queue is as it was, the reader is on the same stream, and the
-- end of all input is told from the lack of it by the count of the writers.
pub record Waits {ℓ κ} {T : Type ℓ} {R : Type κ} (k : ℕ) (q : MultiQueue T) (n : ℕ) (r : Reader)
    (result : Result Fault (Received T R)) : Type (ℓ ⊔ κ) where
  pub reader : Reader
  pub returned :
      result
      ≡ ok (
        q,
        reader,
        err (if q.writers == 0 then (none, disconnected) else (some (n % 2 ^ k), empty)),
      )
  pub same_stream : reader.pos ≡ r.pos

module _ {ℓ} {T : Type ℓ} (p : QueueRw T) where
  refuse_lem :
      {k : ℕ} {q : MultiQueue T} {sent : List T} (s : ℕ)
      → IsLog k q sent
      → s ≡ length sent
      → refuse q (s % 2 ^ k) s
        ≡ (if q.writers == 0 then (none, disconnected) else (some (s % 2 ^ k), empty))
  unfolding refuse
  refuse_lem s v e = rw (flag_missing s v e) refl

  -- On a queue that stands for a log, for a stream of it at the end of the log, `try_recv` and
  -- `try_recv_view` leave the queue as it was, and return `Disconnected` if it has no writer and
  -- otherwise `Empty` with the cell to wait on.
  pub recv_at_end {κ} :
      {R : Type κ} (op : T → R) (weak : Bool) (outcomes : List Bool) {k : ℕ} {q : MultiQueue T}
      {sent : List T} (r : Reader)
      → IsLog k q sent
      → Elem r.pos (readers q)
      → (position q r.pos).val ≡ length sent
      → Waits k q (length sent) r (try_recv p (weak ∷ outcomes) q r)
        × Waits k q (length sent) r (try_recv_view p op q r)
  unfolding try_recv try_recv_view recv_from recv_round
  recv_at_end op weak outcomes {k} {q} {sent} r v at e =
      let (r', loaded, stream, meta) = load_attempt_lem q r in
      (
        record {
          reader = r';
          returned =
              rw
                (
                  loaded,
                  get-attempt_of k q r' (rw stream mask),
                  flag r' stream,
                  refuse_lem (position q r'.pos).val v (here r' stream),
                  here r' stream,
                )
                refl;
          same_stream = stream;
        },
        record {
          reader = r';
          returned =
              rw
                (
                  loaded,
                  get-attempt_of k q r' (rw stream mask),
                  flag r' stream,
                  refuse_lem (position q r'.pos).val v (here r' stream),
                  here r' stream,
                )
                refl;
          same_stream = stream;
        },
      )
    where
      mask : (position q r.pos).mask ≡ 2 ^ k - 1
      mask =
          (All-Elem (λ s. InWindow (2 ^ k) (length sent) (position q s)) r.pos (readers q) v.streams
            at).0

      here : (r' : Reader) → r'.pos ≡ r.pos → (position q r'.pos).val ≡ length sent
      here r' stream = rw stream e

      flag :
          (r' : Reader)
          → r'.pos ≡ r.pos
          → (rm_tag (get_or q.cells ((position q r'.pos).val % 2 ^ k) blank).wraps
              == (position q r'.pos).val)
            ≡ false
      flag r' stream = flag_missing (position q r'.pos).val v (rw stream e)

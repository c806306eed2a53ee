-- ===== src/Refinement/Threads/Cloning.antt =====
-- With a policy that counts readers, a value is cloned while nobody writes to its cell.
use multiqueue.Prelude.{
  ℕ, zero, suc, ◌-◌, ◌%◌, ◌^◌, ◌<◌, ◌≡◌, refl, sym, ap, ◌∙◌, List, Option, arith, Elem, length,
  length-append,
}
use multiqueue.ReadCursor.Attempt.{Reader, ReadAttempt}
use multiqueue.MultiQueue.Policy.{QueueRw, IsLawful}
use multiqueue.MultiQueue.State.{MultiQueue}
use multiqueue.MultiQueue.Threads.{idle, current, System, pick, Reach, start, later}
use multiqueue.Refinement.Log.{readers, position, IsLog}
use multiqueue.Refinement.Threads.Sound.{view, Owns, Published}
use multiqueue.Refinement.Threads.Counts.{IsCounting, tally}
use multiqueue.Refinement.Threads.Reached.{Move-sent, Reach-Sound}
use multiqueue.Refinement.Threads.Pins.{Pinned, Pins}
use multiqueue.Refinement.Threads.Pinning.{Move-Pins}
use multiqueue.Refinement.Threads.Delivery.{owned_apart}

tally_idle {ℓ} : (T : Type ℓ) (n c : ℕ) → tally {T = T} (λ _. idle) n c ≡ 0
tally_idle T zero c = refl
tally_idle T (suc n) c = omega (arith, tally_idle T n c)

module _ {ℓ} {T : Type ℓ} {p : QueueRw T} {sole : ℕ → Option ℕ} {threads : ℕ} {q : MultiQueue T}
    {sent : List T} {k : ℕ} (lawful : IsLawful p) (counting : IsCounting p)
    (few : threads < 2 ^ 64 - 1) (log : IsLog k q sent)
    (some_stream : (r : ℕ) × Elem r (readers q)) where
  Reach-Pins :
      {s : System T}
      → Reach p sole threads q sent s
      → length s.shared.sent < 2 ^ 63 - 1
      → Pins k threads s.shared s.pc
  Reach-Pins start short = record {
    width = log.idle.0;
    refs = λ c. log.idle.1 c ∙ sym (tally_idle T threads c);
    pins = λ j r a lt at. cc;
  }
  Reach-Pins (later {s} r (pick i {pc} in_range mv)) short =
      let (more, e) = Move-sent p sole mv in
      let low : length s.shared.sent < 2 ^ 63 - 1 =
        omega (arith, ap length e, length-append s.shared.sent more) in
      Move-Pins lawful counting k sole (λ r. (position q r).val) threads few i in_range pc mv
        (Reach-Sound lawful log some_stream r low)
        (Reach-Sound lawful log some_stream (later r (pick i in_range mv)) short) (Reach-Pins r low)

  -- With a lawful policy that counts readers, fewer than 2 ^ 64 - 1 threads, a queue that stands
  -- for a log and has a stream, and fewer than 2 ^ 63 - 1 values sent: in every state that the
  -- threads get into, a consumer that has counted itself at a cell and found its stream unmoved,
  -- and is about to read the value out, has the value of its attempt in that cell under its flag,
  -- and no thread has a claim on that cell, even if the stream has moved on since.
  pub Reach-Cloned :
      {s : System T} (j : ℕ) (r : Reader) (a : ReadAttempt)
      → Reach p sole threads q sent s
      → length s.shared.sent < 2 ^ 63 - 1
      → j < threads
      → s.pc j ≡ current r a
      → Published k (view s.shared) a.linked.loaded_vals
        × ¬ ((i : ℕ) × (c : ℕ) × Owns (s.pc i) c × (c % 2 ^ k ≡ a.linked.loaded_vals % 2 ^ k))
  Reach-Cloned {s} j r a reach short lt at =
      let pin : Pinned k s.shared s.pc a.linked.loaded_vals =
        (Reach-Pins reach short).pins j r a lt at in
      (
        pin.there,
        λ (i, c, own, same).
            owned_apart lawful log some_stream reach short i c a.linked.loaded_vals own pin.there
              pin.last_round same,
      )

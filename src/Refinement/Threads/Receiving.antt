-- ===== src/Refinement/Threads/Receiving.antt =====
-- A consumer that is left alone in a state that the threads have got into ends its call.
use multiqueue.Prelude.{ℕ, ◌-◌, ◌^◌, ◌<◌, ◌≡◌, refl, List, Option, some, Elem, length, subst}
use multiqueue.ReadCursor.Attempt.{Reader, ReadAttempt}
use multiqueue.MultiQueue.Policy.{QueueRw, IsLawful}
use multiqueue.MultiQueue.State.{MultiQueue}
use multiqueue.MultiQueue.Threads.{
  Pc, idle, attempted, seen, counted, current, lapsed, taken, released, System, Reach,
}
use multiqueue.Refinement.Log.{readers, position, IsLog}
use multiqueue.Refinement.Threads.Sound.{view, Local, Tries, Sound}
use multiqueue.Refinement.Threads.Reached.{Reach-Sound}
use multiqueue.Refinement.Threads.Alone.{Finishes}
use multiqueue.Refinement.Threads.Values.{Reads, Values, attempt_low, Reach-Values}
use multiqueue.Refinement.Threads.Consuming.{
  Gives, receiver, Unknown, IsReady, attempted-Ends, seen-Ends, counted-Ends, current-Ends,
  taken-Ends, lapsed-Ends, released-Unknown, lapsed-Unknown,
}

module _ {ℓ} {T : Type ℓ} (p : QueueRw T) (k : ℕ) (sole : ℕ → Option ℕ) (first : ℕ → ℕ) (i : ℕ)
    (s : System T) (sound : Sound k sole first (view s.shared) s.pc) (values : Values s) where
  ready :
      (r : Reader) (a : ReadAttempt)
      → Tries k sole i (view s.shared) r a
      → IsReady p sole i (s.shared.given r.pos) r s
  ready r a f = record {
    filled = values.filled;
    low = (attempt_low k sole first s i r a sound f).0;
    same = refl;
  }

  place_lem :
      (x : Pc T) (r : Reader)
      → s.pc i ≡ x
      → receiver x ≡ some r
      → Local k sole i (view s.shared) x
      → Reads s.shared.queue.cells x
      → Finishes p sole i (Gives (s.shared.given r.pos) r.pos) s
  place_lem (attempted r' a) r at e f v =
      let same : r' ≡ r = cc in
      subst (λ (r : Reader). Finishes p sole i (Gives (s.shared.given r.pos) r.pos) s) same
        (attempted-Ends p sole i (s.shared.given r'.pos) r' Unknown (released-Unknown p sole i _ r')
          (lapsed-Unknown p sole i _ r') s a at (attempt_low k sole first s i r' a sound f).1 tt
          (ready r' a f))
  place_lem (seen r' a) r at e f v =
      let same : r' ≡ r = cc in
      subst (λ (r : Reader). Finishes p sole i (Gives (s.shared.given r.pos) r.pos) s) same
        (seen-Ends p sole i (s.shared.given r'.pos) r' Unknown (released-Unknown p sole i _ r')
          (lapsed-Unknown p sole i _ r') s a at v tt (ready r' a f.0))
  place_lem (counted r' a) r at e f v =
      let same : r' ≡ r = cc in
      subst (λ (r : Reader). Finishes p sole i (Gives (s.shared.given r.pos) r.pos) s) same
        (counted-Ends p sole i (s.shared.given r'.pos) r' Unknown (released-Unknown p sole i _ r')
          (lapsed-Unknown p sole i _ r') s a at v tt (ready r' a f.0))
  place_lem (current r' a) r at e f v =
      let same : r' ≡ r = cc in
      subst (λ (r : Reader). Finishes p sole i (Gives (s.shared.given r.pos) r.pos) s) same
        (current-Ends p sole i (s.shared.given r'.pos) r' Unknown (released-Unknown p sole i _ r')
          (lapsed-Unknown p sole i _ r') s a at v tt (ready r' a f.0))
  place_lem (lapsed r' a) r at e f v =
      let same : r' ≡ r = cc in
      subst (λ (r : Reader). Finishes p sole i (Gives (s.shared.given r.pos) r.pos) s) same
        (lapsed-Ends p sole i (s.shared.given r'.pos) r' s a at (ready r' a f))
  place_lem (taken r' a val) r at e f v =
      let same : r' ≡ r = cc in
      subst (λ (r : Reader). Finishes p sole i (Gives (s.shared.given r.pos) r.pos) s) same
        (taken-Ends p sole i (s.shared.given r'.pos) r' Unknown (released-Unknown p sole i _ r')
          (lapsed-Unknown p sole i _ r') s a val at tt (ready r' a f.0))
  place_lem (released r' a val) r at e f v =
      let same : r' ≡ r = cc in
      subst (λ (r : Reader). Finishes p sole i (Gives (s.shared.given r.pos) r.pos) s) same
        (released-Unknown p sole i (s.shared.given r'.pos) r' s a val at tt (ready r' a f.0))
  place_lem idle r at e f v = cc
  place_lem _ r at e f v = cc

-- With a lawful policy, from a queue that stands for a log and has a stream, and while fewer than
-- 2 ^ 63 - 1 values are sent: in every state that the threads get into, a thread that is within
-- `try_recv` has moves of its own that end the call while the others stand still, and after them
-- its stream has given out what it had before or one value more.
pub consumer-Finishes {ℓ} :
    {T : Type ℓ} {p : QueueRw T} {sole : ℕ → Option ℕ} {threads : ℕ} {q : MultiQueue T}
    {sent : List T} {k : ℕ} {s : System T} (i : ℕ) (r : Reader)
    → IsLawful p
    → IsLog k q sent
    → (r : ℕ) × Elem r (readers q)
    → Reach p sole threads q sent s
    → length s.shared.sent < 2 ^ 63 - 1
    → receiver (s.pc i) ≡ some r
    → Finishes p sole i (Gives (s.shared.given r.pos) r.pos) s
consumer-Finishes {p = p} {sole} {q = q} {k = k} {s} i r lawful log some_stream reach short e =
    let sound : Sound k sole (λ r. (position q r).val) (view s.shared) s.pc =
      Reach-Sound lawful log some_stream reach short in
    let values : Values s = Reach-Values lawful log some_stream reach short in
    place_lem p k sole (λ r. (position q r).val) i s sound values (s.pc i) r refl e (sound.locals i)
      (values.reads i)

-- ===== src/Refinement/Calls.antt =====
-- Sequences of sends and receives on a queue, and what they come to against the log.
use multiqueue.Prelude.{
  ℕ, zero, suc, ◌+◌, ◌<◌, ◌≡◌, refl, sym, ap, ◌∙◌, List, [], ◌∷◌, ◌++◌, some, arith, Elem, length,
  get_elem?, get_elem?-append_left, Bool, false, ◌==◌, ==_iff, Result, ok, err, Fault,
  if◌then◌else◌, ◌>>=◌,
}
use multiqueue.ReadCursor.Attempt.{Reader}
use multiqueue.MultiQueue.Policy.{QueueRw}
use multiqueue.MultiQueue.State.{MultiQueue}
use multiqueue.MultiQueue.Send.{try_send_single}
use multiqueue.MultiQueue.Recv.{TryRecvError, try_recv}
use multiqueue.Refinement.Log.{readers, position, IsLog}

-- A call, with the handle of a receive and the outcomes of its weak compare-exchanges.
pub data Call {ℓ} (T : Type ℓ) : Type ℓ where
  sends : T → Call T
  receives : Reader → List Bool → Call T

-- What the caller sees of it; a receive is told by its stream.
pub data Event {ℓ} (T : Type ℓ) : Type ℓ where
  accepted : T → Event T
  rejected : T → Event T
  took : ℕ → T → Event T
  waited : ℕ → TryRecvError → Event T

module _ {ℓ} {T : Type ℓ} where
  unfoldable pub sent_event :
      T → MultiQueue T × Result (multiqueue.MultiQueue.Send.TrySendError T) (Unit {0}) → Event T
  sent_event v (q, ok u) = accepted v
  sent_event v (q, err e) = rejected v

  unfoldable pub run :
      QueueRw T → List (Call T) → MultiQueue T → Result Fault (MultiQueue T × List (Event T))
  unfolding sent_event
  run p [] q = ok (q, [])
  run p (sends v ∷ calls) q = do
    s ← try_send_single p q v
    (q', events) ← run p calls (s.0)
    ok (q', sent_event v s ∷ events)
  run p (receives r outcomes ∷ calls) q = do
    (q1, _, result) ← try_recv p outcomes q r
    (q', events) ← run p calls q1
    ok (q', elim result [ ok x ↦ took r.pos x | err e ↦ waited r.pos (e.1) ] ∷ events)

  -- The values that went in, and those that a stream got, in the order of the calls.
  abbrev pub all_accepted : List (Event T) → List T
  all_accepted [] = []
  all_accepted (accepted v ∷ es) = v ∷ all_accepted es
  all_accepted (rejected v ∷ es) = all_accepted es
  all_accepted (took s x ∷ es) = all_accepted es
  all_accepted (waited s e ∷ es) = all_accepted es

  abbrev pub all_taken : ℕ → List (Event T) → List T
  all_taken r [] = []
  all_taken r (accepted v ∷ es) = all_taken r es
  all_taken r (rejected v ∷ es) = all_taken r es
  all_taken r (took s x ∷ es) = if s == r then x ∷ all_taken r es else all_taken r es
  all_taken r (waited s e ∷ es) = all_taken r es

  -- A call that the theorem speaks of: a receive is on a stream of the queue, and not all of its
  -- compare-exchanges fail.
  abbrev pub IsCallOn : List ℕ → Call T → Type 0
  IsCallOn streams (sends v) = Unit
  IsCallOn streams (receives r outcomes) = Elem r.pos streams × Elem false outcomes

  -- What a stream got is the log from its position on.
  pub record Delivers (q q' : MultiQueue T) (sent : List T) (events : List (Event T)) (s : ℕ)
      : Type ℓ where
    pub advances : (position q' s).val ≡ (position q s).val + length (all_taken s events)
    pub in_order :
        (i : ℕ)
        → i < length (all_taken s events)
        → get_elem? (all_taken s events) i
          ≡ get_elem? (sent ++ all_accepted events) ((position q s).val + i)

  -- What a run comes to.
  pub record Served (k : ℕ) (q : MultiQueue T) (sent : List T)
      (result : Result Fault (MultiQueue T × List (Event T))) : Type ℓ where
    pub queue : MultiQueue T
    pub events : List (Event T)
    pub returned : result ≡ ok (queue, events)
    pub log : IsLog k queue (sent ++ all_accepted events)
    pub readers_kept : readers queue ≡ readers q
    pub delivers : (s : ℕ) → Elem s (readers q) → Delivers q queue sent events s

  -- A stream that stands where it stood before a call gets the same by the rest of the calls.
  pub Delivers-still :
      {q q1 q' : MultiQueue T} {sent sent1 : List T} {e : Event T} {es : List (Event T)} (s : ℕ)
      → (position q1 s).val ≡ (position q s).val
      → sent1 ++ all_accepted es ≡ sent ++ all_accepted (e ∷ es)
      → all_taken s (e ∷ es) ≡ all_taken s es
      → Delivers q1 q' sent1 es s
      → Delivers q q' sent (e ∷ es) s
  Delivers-still {q} {q1} {q'} {sent} {sent1} {e} {es} s same log taken d = record {
    advances = rw taken (d.advances ∙ ap (λ (t : ℕ). t + length (all_taken s es)) same);
    in_order = λ i lt. rw (taken, ← log, ← same) (d.in_order i (rw taken at lt));
  }

  -- A stream that gets a value gets the one that its position names, and then the rest.
  pub Delivers-took :
      {q q1 q' : MultiQueue T} {sent : List T} {es : List (Event T)} (s : ℕ) (x : T)
      → (position q1 s).val ≡ (position q s).val + 1
      → get_elem? sent (position q s).val ≡ some x
      → (position q s).val < length sent
      → Delivers q1 q' sent es s
      → Delivers q q' sent (took s x ∷ es) s
  Delivers-took {q} {q1} {q'} {sent} {es} s x moved next lt d = record {
    advances = rw taken (omega (arith, d.advances));
    in_order = λ i below. rw taken (here i (rw taken at below));
  }
    where
      taken : all_taken s (took s x ∷ es) ≡ x ∷ all_taken s es
      taken = rw ((==_iff s s).1 refl) refl

      here :
          (i : ℕ)
          → i < suc (length (all_taken s es))
          → get_elem? (x ∷ all_taken s es) i
            ≡ get_elem? (sent ++ all_accepted es) ((position q s).val + i)
      here zero below = sym (
          ap (get_elem? (sent ++ all_accepted es)) (omega arith)
          ∙ get_elem?-append_left sent (all_accepted es) (position q s).val lt
          ∙ next)
      here (suc i) below =
          d.in_order i (omega arith) ∙ ap (get_elem? (sent ++ all_accepted es)) (omega arith)

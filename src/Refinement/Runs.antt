-- ===== src/Refinement/Runs.antt =====
-- Any sequence of sends and receives on a queue: what each stream gets is what was sent, in order,
-- without a gap and without a repetition.
use multiqueue.Prelude.{
  ℕ, ◌+◌, ◌-◌, ◌%◌, ◌^◌, ◌<◌, ◌≡◌, refl, ap, ◌∙◌, ◌⊎◌, inl, inr, List, [], ◌∷◌, ◌++◌, none, some,
  arith, All, Elem, All-Elem, length, length-append, get_elem?, get_elem?-lt, lt_of_get_elem?, Bool,
  true, false, Bool-cases, ◌==◌, ==_iff, if◌then◌else◌, subst, dec_lt,
}
use multiqueue.CountedIndex.{CountedIndex}
use multiqueue.ReadCursor.Attempt.{Reader}
use multiqueue.MultiQueue.Policy.{QueueRw, IsLawful}
use mathlib.Core.List.{append_assoc, append-nil}
use multiqueue.Memory.{MemoryManager}
use multiqueue.MultiQueue.State.{MultiQueue}
use multiqueue.MultiQueue.Send.{try_send_single}
use multiqueue.MultiQueue.Recv.{empty, disconnected, Refusal, try_recv}
use multiqueue.Refinement.Log.{readers, position, InWindow, IsLog}
use multiqueue.Refinement.Sending.{Appended, Refused, try_send_single_lem}
use multiqueue.Refinement.Taking.{Took}
use multiqueue.Refinement.Loop.{try_recv-Took}
use multiqueue.Refinement.Waiting.{Waits, recv_at_end}
use multiqueue.Refinement.Calls.{
  Call, sends, receives, accepted, rejected, took, waited, run, all_accepted, IsCallOn, Delivers,
  Served, Delivers-still, Delivers-took,
}

module _ {ℓ} {T : Type ℓ} where
  module _ (p : QueueRw T) where
    run_accepted-Served :
        {k : ℕ} {q : MultiQueue T} {sent : List T} (v : T) (calls : List (Call T))
        → (a : Appended k q sent v (try_send_single p q v))
        → Served k a.queue (sent ++ (v ∷ [])) (run p calls a.queue)
        → Served k q sent (run p (sends v ∷ calls) q)
    unfolding run
    run_accepted-Served {k} {q} {sent} v calls a ih = record {
      queue = ih.queue;
      events = accepted v ∷ ih.events;
      returned = rw (a.returned, ih.returned) refl;
      log = rw longer at ih.log;
      readers_kept = ih.readers_kept ∙ streams;
      delivers = λ s at.
          Delivers-still s (ap (λ (m : MemoryManager). (m.heap.pos s).val) a.streams_kept.0) longer
            refl (ih.delivers s (rw streams at));
    }
      where
        longer : (sent ++ (v ∷ [])) ++ all_accepted ih.events ≡ sent ++ (v ∷ all_accepted ih.events)
        longer = append_assoc sent (v ∷ []) (all_accepted ih.events)

        streams : readers a.queue ≡ readers q
        streams = λ i. (a.streams_kept.0 i).heap.group ((a.streams_kept.1 i).readers)

    run_rejected-Served :
        {k : ℕ} {q : MultiQueue T} {sent : List T} (v : T) (calls : List (Call T))
        → (f : Refused k q sent v (try_send_single p q v))
        → Served k
            (record q { tail_cache = f.cache })
            sent
            (run p calls (record q { tail_cache = f.cache }))
        → Served k q sent (run p (sends v ∷ calls) q)
    unfolding run
    run_rejected-Served v calls f ih = record {
      queue = ih.queue;
      events = rejected v ∷ ih.events;
      returned = rw (f.returned, ih.returned) refl;
      log = ih.log;
      readers_kept = ih.readers_kept;
      delivers = λ s at. Delivers-still s refl refl refl (ih.delivers s at);
    }

    run_ready-Served :
        {k : ℕ} {q : MultiQueue T} {sent : List T} (r : Reader) (outcomes : List Bool) (x : T)
        (calls : List (Call T))
        → (t : Took k q sent r x (try_recv p outcomes q r))
        → get_elem? sent (position q r.pos).val ≡ some x
        → Served k t.queue sent (run p calls t.queue)
        → Served k q sent (run p (receives r outcomes ∷ calls) q)
    unfolding run
    run_ready-Served {k} {q} {sent} r outcomes x calls t next ih = record {
      queue = ih.queue;
      events = took r.pos x ∷ ih.events;
      returned = rw (t.returned, ih.returned) refl;
      log = ih.log;
      readers_kept = ih.readers_kept ∙ t.keeps.readers_kept;
      delivers = λ s at.
          by_stream s (Bool-cases (r.pos == s)) (ih.delivers s (rw t.keeps.readers_kept at));
    }
      where
        by_stream :
            (s : ℕ)
            → ((r.pos == s) ≡ true) ⊎ ((r.pos == s) ≡ false)
            → Delivers t.queue ih.queue sent ih.events s
            → Delivers q ih.queue sent (took r.pos x ∷ ih.events) s
        by_stream s (inl e) d =
            subst
              (λ (s' : ℕ).
                Delivers t.queue ih.queue sent ih.events s'
                → Delivers q ih.queue sent (took r.pos x ∷ ih.events) s')
              ((==_iff r.pos s).0 e)
              (Delivers-took r.pos x (ap (λ (c : CountedIndex). c.val) t.moved) next
                (lt_of_get_elem? sent _ x next))
              d
        by_stream s (inr e) d =
            Delivers-still s
              (ap (λ (c : CountedIndex). c.val) (t.keeps.others s (λ same. ground arith))) refl
              (rw e refl) d

    reason : ℕ → MultiQueue T → List T → Refusal
    reason k q sent =
        if q.writers == 0 then (none, disconnected) else (some (length sent % 2 ^ k), empty)

    pub try_recv-Waits :
        (outcomes : List Bool) {k : ℕ} {q : MultiQueue T} {sent : List T} (r : Reader)
        → IsLog k q sent
        → Elem r.pos (readers q)
        → (position q r.pos).val ≡ length sent
        → Elem false outcomes
        → Waits k q (length sent) r (try_recv p outcomes q r)
    try_recv-Waits [] r v at e no_outcome = absurd no_outcome
    try_recv-Waits (weak ∷ outcomes) r v at e some_outcome =
        (recv_at_end p (λ (x : T). x) weak outcomes r v at e).0

    run_waited-Served :
        {k : ℕ} {q : MultiQueue T} {sent : List T} (r : Reader) (outcomes : List Bool)
        (calls : List (Call T))
        → (w : Waits k q (length sent) r (try_recv p outcomes q r))
        → Served k q sent (run p calls q)
        → Served k q sent (run p (receives r outcomes ∷ calls) q)
    unfolding run reason
    run_waited-Served {k} {q} {sent} r outcomes calls w ih = record {
      queue = ih.queue;
      events = waited r.pos (reason k q sent).1 ∷ ih.events;
      returned = rw (w.returned, ih.returned) refl;
      log = ih.log;
      readers_kept = ih.readers_kept;
      delivers = λ s at. Delivers-still s refl refl refl (ih.delivers s at);
    }

    -- Whatever sequence of sends and receives runs on a queue that stands for a log, with a
    -- lawful policy, as long as the counters cannot wrap and not all compare-exchanges of a
    -- receive fail for no reason: no call panics, the log grows by exactly the accepted values,
    -- the streams stay the same, and each stream gets the values of the log from its position on,
    -- in order, each once, and moves by as many.
    pub run-Served :
        IsLawful p
        → (calls : List (Call T)) {k : ℕ} {q : MultiQueue T} {sent : List T} → IsLog k q sent
        → All (IsCallOn (readers q)) calls
        → length sent + length calls < 2 ^ 63 - 1
        → Served k q sent (run p calls q)
    unfolding run
    run-Served lawful [] {k} {q} {sent} v on fits = record {
      queue = q;
      events = [];
      returned = refl;
      log = rw append-nil v;
      readers_kept = refl;
      delivers = λ s at. record { advances = omega arith; in_order = λ i lt. absurd (omega arith) };
    }
    run-Served lawful (sends val ∷ calls) {k} {q} {sent} v on fits =
        elim (try_send_single_lem p lawful val v (omega arith)) [
          | inl a ↦ run_accepted-Served val calls a (
              run-Served lawful calls a.log (rw (streams a) on.1)
                (omega (arith, length-append sent (val ∷ []))))
          | inr f ↦
              run_rejected-Served val calls f (run-Served lawful calls f.log on.1 (omega arith))
        ]
      where
        streams :
            (a : Appended k q sent val (try_send_single p q val)) → readers a.queue ≡ readers q
        streams a = λ i. (a.streams_kept.0 i).heap.group ((a.streams_kept.1 i).readers)
    run-Served lawful (receives r outcomes ∷ calls) {k} {q} {sent} v on fits =
        elim (dec_lt (position q r.pos).val (length sent)) [
          | yes ready ↦
              let (x, next) = get_elem?-lt sent (position q r.pos).val ready in
              let t = try_recv-Took p outcomes r x lawful v on.0.0 next on.0.1 in
              run_ready-Served r outcomes x calls t next
                (run-Served lawful calls t.log (rw t.keeps.readers_kept on.1) (omega arith))
          | no at_end ↦
              run_waited-Served r outcomes calls
                (try_recv-Waits outcomes r v on.0.0 (omega (arith, window)) on.0.1)
                (run-Served lawful calls v on.1 (omega arith))
        ]
      where
        window : InWindow (2 ^ k) (length sent) (position q r.pos)
        window =
            All-Elem (λ s. InWindow (2 ^ k) (length sent) (position q s)) r.pos (readers q)
              v.streams on.0.0

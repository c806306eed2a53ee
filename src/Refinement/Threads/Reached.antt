-- ===== src/Refinement/Threads/Reached.antt =====
-- Every state that the threads get into keeps the invariant.
use mathlib.Core.List.{append-nil, append_assoc}
use multiqueue.Prelude.{
  ℕ, ◌-◌, ◌^◌, ◌<◌, ◌≡◌, refl, sym, ap, ◌∙◌, inl, inr, List, [], ◌∷◌, ◌++◌, Option, arith, All-imp,
  Elem, length, length-append, ok,
}
use multiqueue.CountedIndex
use multiqueue.ReadCursor.Attempt
use multiqueue.Heap.{update}
use multiqueue.MultiQueue.Policy.{QueueRw, IsLawful}
use multiqueue.MultiQueue.State.{MultiQueue}
use multiqueue.MultiQueue.Send.{reload_tail_multi}
use multiqueue.MultiQueue.Recv.{inc_ref, dec_ref}
use multiqueue.MultiQueue.Threads.{
  Pc, idle, loaded, stale, roomy, unread, attempted, seen, counted, current, lapsed, taken,
  released, Shared, System, Move, begins_send, has_room, seems_full, stays_full, finds_room,
  is_unread, is_read, loses, claims, writes, publishes, begins_recv, finds_none, sees, takes_alone,
  counts, still_there, comes_late, tries_again, takes, releases, misses, gives, pick, Reach, start,
  later, put_val, publish,
}
use multiqueue.Refinement.Log.{readers, position, InWindow, IsLog}
use multiqueue.Refinement.Threads.Sound.{view, Local, Sound}
use multiqueue.Refinement.Threads.Flags.{still, Room-of_test}
use multiqueue.Refinement.Threads.Senders.{
  begins_send-Sound, reloads-Sound, Room-of_reload, loses-Sound, claims-Sound, writes-Sound,
  publishes-Sound,
}
use multiqueue.Refinement.Threads.Receivers.{
  sees-Sound, begins_recv-Sound, reads-Sound, misses-Sound, gives-Sound,
}

module _ {ℓ} {T : Type ℓ} (p : QueueRw T) (sole : ℕ → Option ℕ) where
  -- A move adds at most one value to the log, behind the others.
  pub Move-sent :
      {i : ℕ} {m m' : Shared T} {x x' : Pc T}
      → Move p sole i m x m' x'
      → (rest : List T) × (m'.sent ≡ m.sent ++ rest)
  Move-sent {m} (claims {t} {val} weak head e) = (val ∷ [], refl)
  Move-sent {m} _ = ([], sym (append-nil m.sent))

  reload_streams :
      (q q' : MultiQueue T) (tail c new_tail : ℕ)
      → reload_tail_multi q tail c ≡ ok (q', new_tail)
      → readers q' ≡ readers q
  unfolding reload_tail_multi
  reload_streams q q' tail c new_tail e = ground arith

  Move-streams :
      {i : ℕ} {m m' : Shared T} {x x' : Pc T}
      → Move p sole i m x m' x'
      → readers m'.queue ≡ readers m.queue
  unfolding put_val publish inc_ref dec_ref
  Move-streams {m} (stays_full {t} {val} {tail_cache} q new_tail e test) =
      reload_streams m.queue q tail_cache (CountedIndex.get t).1 new_tail e
  Move-streams {m} (finds_room {t} {val} {tail_cache} q new_tail e test) =
      reload_streams m.queue q tail_cache (CountedIndex.get t).1 new_tail e
  Move-streams (begins_send _) = refl
  Move-streams _ = refl

module _ {ℓ} {T : Type ℓ} {p : QueueRw T} (lawful : IsLawful p) (k : ℕ) (sole : ℕ → Option ℕ)
    (first : ℕ → ℕ) (i : ℕ) where
  -- A move of a thread keeps the invariant, as long as the log stays short.
  pub Move-Sound :
      {m m' : Shared T} {x x' : Pc T} {pc : ℕ → Pc T}
      → Move p sole i m x m' x'
      → pc i ≡ x
      → Local k sole i (view m) x
      → length m'.sent < 2 ^ 63 - 1
      → Sound k sole first (view m) pc
      → Sound k sole first (view m') (update pc i x')
  unfolding inc_ref dec_ref Attempt.reload CountedIndex.reload
  Move-Sound {m} (begins_send val) at f short sound = begins_send-Sound k i m sound val at
  Move-Sound {m} (has_room {t} {val} test) at f short sound =
      still k i sound (loaded t val) (roomy t val) at (λ c o. o) (λ c o. o)
        (Room-of_test k i sound f test)
  Move-Sound {m} (seems_full {t} {val} test) at f short sound =
      still k i sound (loaded t val) (stale t val m.queue.tail_cache) at (λ c o. o) (λ c o. o)
        (record { fits = f; old = omega arith })
  Move-Sound {m} (stays_full {t} {val} {tail_cache} q new_tail e test) at f short sound =
      reloads-Sound k i m sound tail_cache f e (stale t val tail_cache) idle at (λ c o. o)
        (λ c o. o) tt
  Move-Sound {m} (finds_room {t} {val} {tail_cache} q new_tail e test) at f short sound =
      reloads-Sound k i m sound tail_cache f e (stale t val tail_cache) (roomy t val) at (λ c o. o)
        (λ c o. o) (Room-of_reload k i m sound tail_cache f e test)
  Move-Sound {m} (is_unread {t} {val} test) at f short sound =
      still k i sound (roomy t val) (unread t val) at (λ c o. o) (λ c o. o) f
  Move-Sound {m} (is_read {t} {val} test) at f short sound =
      still k i sound (roomy t val) idle at (λ c o. o) (λ c o. o) tt
  Move-Sound {m} (loses {t} {val} weak again head e) at f short sound =
      loses-Sound k i m sound t again val weak head at e
  Move-Sound {m} (claims {t} {val} weak head e) at f short sound =
      claims-Sound k i m sound t val weak head at e (omega (arith, length-append m.sent (val ∷ [])))
        f
  Move-Sound {m} (writes {t} {val}) at f short sound = writes-Sound k i m sound p t val at f
  Move-Sound {m} (publishes {t} {val}) at f short sound =
      publishes-Sound k i m sound t val at f.0 f.1
  Move-Sound {m} (begins_recv r is_stream may) at f short sound =
      begins_recv-Sound k i m sound r at is_stream may
  Move-Sound {m} (finds_none {r} {a} test) at f short sound =
      still k i sound (attempted r a) idle at (λ c o. o) (λ c o. o) tt
  Move-Sound {m} (sees {r} {a} test) at f short sound = sees-Sound k i m sound r a at test f
  Move-Sound {m} (takes_alone {r} {a} val alone read) at f short sound =
      reads-Sound k i m sound p (seen r a) (released r a (p.get_val val)) r a val lawful at
        (λ c o. o) (λ c o. o) f read (λ own. own)
  Move-Sound {m} (counts {r} {a} shared) at f short sound =
      still k i sound (seen r a) (counted r a) at (λ c o. o) (λ c o. o) f
  Move-Sound {m} (still_there {r} {a} test) at f short sound =
      still k i sound (counted r a) (current r a) at (λ c o. o) (λ c o. o) f
  Move-Sound {m} (comes_late {r} {a} test) at f short sound =
      still k i sound (counted r a) (lapsed r a) at (λ c o. o) (λ c o. o) f.0
  Move-Sound {m} (tries_again {r} {a}) at f short sound =
      still k i sound (lapsed r a) (attempted r (Attempt.reload (m.queue.manager.heap.pos r.pos) a))
        at (λ c o. o) (λ c o. o)
        (record {
          is_stream = f.is_stream;
          mask = f.mask;
          reached = omega arith;
          role = elim f.role [ inl others ↦ inl others | inr (alone, _) ↦ inr (alone, refl) ];
        })
  Move-Sound {m} (takes {r} {a} val read) at f short sound =
      reads-Sound k i m sound p (current r a) (taken r a (p.get_val val)) r a val lawful at
        (λ c o. o) (λ c o. o) f read (λ own. own)
  Move-Sound {m} (releases {r} {a} {val}) at f short sound =
      still k i sound (taken r a val) (released r a val) at (λ c o. o) (λ c o. o) f
  Move-Sound {m} (misses {r} {a} {val} weak again pos e) at f short sound =
      misses-Sound k i m sound r a again val weak pos at e f.0
  Move-Sound {m} (gives {r} {a} {val} weak pos e) at f short sound =
      gives-Sound k i m sound r a val weak pos at e f

-- Nobody is at work: the queue that stands for a log is as the threads keep it.
start-Sound {ℓ} :
    {T : Type ℓ} (k : ℕ) (sole : ℕ → Option ℕ) (q : MultiQueue T) (sent : List T)
    → IsLog k q sent
    → (r : ℕ) × Elem r (readers q)
    → Sound k sole
        (λ s. (position q s).val)
        (view (record { queue = q; sent = sent; given = λ _. [] }))
        (λ _. idle)
start-Sound k sole q sent log some_stream = record {
  store = record {
    small = log.small;
    short = log.short;
    mask = log.mask;
    counted = log.counted;
    cells_width = log.cells_width;
    streams = log.streams;
    some_stream = some_stream;
    cache = log.cache.1;
    behind = log.behind;
    blanks = log.blanks;
    follows =
        All-imp (λ s. InWindow (2 ^ k) (length sent) (position q s)) _ (readers q)
          (λ s w. record { stands = omega arith; in_order = λ i lt. absurd (omega arith) })
          log.streams;
  };
  cells = record {
    filled = λ c lt le. inl (lt, log.holds c lt le);
    unique = λ i j c a b. absurd a;
  };
  locals = λ i. tt;
}

module _ {ℓ} {T : Type ℓ} {p : QueueRw T} {sole : ℕ → Option ℕ} {threads : ℕ} {q : MultiQueue T}
    {sent : List T} where
  -- The log only grows.
  pub Reach-sent :
      {s : System T}
      → Reach p sole threads q sent s
      → (rest : List T) × (s.shared.sent ≡ sent ++ rest)
  Reach-sent start = ([], sym (append-nil sent))
  Reach-sent (later r (pick i in_range mv)) =
      let (before, e) = Reach-sent r in
      let (more, e') = Move-sent p sole mv in
      (before ++ more, e' ∙ ap (λ (l : List T). l ++ more) e ∙ append_assoc sent before more)

  -- The streams that the senders wait for stay the same.
  pub Reach-streams :
      {s : System T} → Reach p sole threads q sent s → readers s.shared.queue ≡ readers q
  Reach-streams start = refl
  Reach-streams (later r (pick i in_range mv)) = Move-streams p sole mv ∙ Reach-streams r

  pub Reach-Sound :
      {k : ℕ} {s : System T}
      → IsLawful p
      → IsLog k q sent
      → (r : ℕ) × Elem r (readers q)
      → Reach p sole threads q sent s
      → length s.shared.sent < 2 ^ 63 - 1
      → Sound k sole (λ r. (position q r).val) (view s.shared) s.pc
  Reach-Sound {k} lawful log some_stream start short = start-Sound k sole q sent log some_stream
  Reach-Sound {k} lawful log some_stream (later {s} r (pick i in_range mv)) short =
      let (more, e) = Move-sent p sole mv in
      let before : Sound k sole (λ r. (position q r).val) (view s.shared) s.pc =
        Reach-Sound lawful log some_stream r
          (omega (arith, ap length e, length-append s.shared.sent more)) in
      Move-Sound lawful k sole (λ r. (position q r).val) i mv refl (before.locals i) short before

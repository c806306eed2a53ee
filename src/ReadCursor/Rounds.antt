-- ===== src/ReadCursor/Rounds.antt =====
-- The loop of `add_stream` of `ReadCursor` while other threads exchange the group.
use multiqueue.Prelude.{
  ℕ, ◌+◌, ◌-◌, ◌^◌, ◌≤◌, ◌<◌, ◌≡◌, refl, ap, ◌∙◌, ◌⊎◌, inl, inr, true, false, Bool-cases, List, [],
  ◌∷◌, ◌++◌, arith, ◌==◌, ==_iff, Result, ok, Fault, if◌then◌else◌, Elem, All, Elem-append_last,
  Elem-append_left,
}
use multiqueue.CountedIndex
use multiqueue.CountedIndex.{CountedIndex, validate_wrap}
use multiqueue.CountedIndex.Wrap.{validate_wrap-pow}
use multiqueue.Heap.{Heap, allocate, deallocate, update, update_self, update_ne}
use multiqueue.Memory
use multiqueue.Memory.{MemoryManager}
use multiqueue.Memory.Frame.{free-IsSame}
use multiqueue.ReadCursor.Attempt.{Reader, single}
use multiqueue.ReadCursor.Group.{
  ReadCursor, Interference, added, raced, group_add_stream, try_add_stream, add_stream_from,
}

-- The heap with one stream more, which stands at `index`.
abbrev pub grown_heap : Heap → List ℕ → CountedIndex → Heap
grown_heap h streams index = record h {
  next = h.next + 1 + 1 + 1;
  pos = update h.pos (h.next + 1 + 1) index;
  consumers = update h.consumers h.next 1;
  group = update h.group (h.next + 1) (streams ++ ((h.next + 1 + 1) ∷ []));
}

-- The group that the cursor points at.
abbrev pub current_group : ReadCursor × MemoryManager → List ℕ
current_group s = s.1.heap.group (s.0.readers)

-- What other threads may do: pointers are handed out, the group is exchanged, and what was published
-- stays as it is.
pub record IsOrderly (f : Interference) : Type 0 where
  pub next : (s : ReadCursor × MemoryManager) → s.1.heap.next ≤ (f s).1.heap.next
  pub group :
      (s : ReadCursor × MemoryManager) (p : ℕ)
      → p < s.1.heap.next
      → (f s).1.heap.group p ≡ s.1.heap.group p
  pub mask :
      (s : ReadCursor × MemoryManager) (p : ℕ)
      → p < s.1.heap.next
      → ((f s).1.heap.pos p).mask ≡ (s.1.heap.pos p).mask
  pub current :
      (s : ReadCursor × MemoryManager)
      → s.0.readers < s.1.heap.next
      → (f s).0.readers < (f s).1.heap.next

-- A stream of the group stays in it.
abbrev pub Keeps : ℕ → Interference → Type 0
Keeps stream f =
    (s : ReadCursor × MemoryManager)
    → Elem stream (current_group s)
    → Elem stream (current_group (f s))

-- Afterwards the stream is in the group.
abbrev pub Adds : ℕ → Interference → Type 0
Adds stream f = (s : ReadCursor × MemoryManager) → Elem stream (current_group (f s))

abbrev pub LeavesPointer : Interference → Type 0
LeavesPointer f = (s : ReadCursor × MemoryManager) → (f s).0.readers ≡ s.0.readers

-- In some round nobody exchanges the group.
abbrev pub Settles : List Interference → Type 0
Settles [] = ⊥
Settles (f ∷ rounds) = LeavesPointer f ⊎ Settles rounds

-- The reader's position and the group are on the heap, and the position is one of 2 ^ k cells.
pub record IsPlaced (k : ℕ) (reader : Reader) (c : ReadCursor) (m : MemoryManager) : Type 0 where
  pub small : k ≤ 61
  pub wrap : (m.heap.pos reader.pos).mask + 1 ≡ 2 ^ k
  pub pos : reader.pos < m.heap.next
  pub group : c.readers < m.heap.next

-- The call has made a reader of a stream that is in the group, as is the other stream.
pub record Joined (stream : ℕ) (call : Result Fault (Reader × ReadCursor × MemoryManager))
    : Type 0 where
  pub reader : Reader
  pub cursor : ReadCursor
  pub manager : MemoryManager
  pub returned : call ≡ ok (reader, cursor, manager)
  pub joined : Elem reader.pos (current_group (cursor, manager))
  pub kept : Elem stream (current_group (cursor, manager))

module _ (reader : Reader) (f : Interference) (c : ReadCursor) (m : MemoryManager) where
  abbrev new_reader : Reader
  new_reader = record { state = single; pos = m.heap.next + 1 + 1; meta = m.heap.next }

  -- What the others find before the exchange.
  abbrev prepared : ReadCursor × MemoryManager
  prepared = (
    c,
    record m {
      heap =
          grown_heap m.heap (m.heap.group c.readers)
            (record (m.heap.pos reader.pos) { mask = (m.heap.pos reader.pos).mask + 1 - 1 });
    },
  )

  abbrev dropped_again : MemoryManager
  unfolding deallocate
  dropped_again = record ((f prepared).1) {
    heap =
        deallocate (m.heap.next + 1)
          (deallocate new_reader.pos (deallocate new_reader.meta ((f prepared).1.heap)));
  }

  try_add_stream_lem :
      {k : ℕ}
      → IsPlaced k reader c m
      → try_add_stream f reader c.readers c m
        ≡ ok (
            if (f prepared).0.readers == c.readers
            then added new_reader
                (record ((f prepared).0) { readers = m.heap.next + 1 })
                (Memory.free true true c.readers ((f prepared).1))
            else raced ((f prepared).0.readers) ((f prepared).0) dropped_again)
  unfolding try_add_stream group_add_stream CountedIndex.from_usize CountedIndex.wrap_at allocate
      dropped_again deallocate
  try_add_stream_lem {k} p = rw (ap validate_wrap p.wrap ∙ validate_wrap-pow k p.small) refl

  dropped_again-IsPlaced :
      {k : ℕ}
      → IsOrderly f
      → IsPlaced k reader c m
      → IsPlaced k reader ((f prepared).0) dropped_again
  unfolding dropped_again deallocate
  dropped_again-IsPlaced o p = record {
    small = p.small;
    wrap =
        ap (λ (n : ℕ). n + 1) (o.mask prepared reader.pos (omega (arith, p.pos)) ∙ same) ∙ p.wrap;
    pos = omega (arith, p.pos, o.next prepared);
    group = o.current prepared (omega (arith, p.group));
  }
    where
      same : (prepared.1.heap.pos reader.pos).mask ≡ (m.heap.pos reader.pos).mask
      same =
          ap (λ (i : CountedIndex). i.mask)
            (update_ne m.heap.pos (m.heap.next + 1 + 1) reader.pos _ (λ e. omega (arith, p.pos)))

  -- The group behind an exchange that succeeds.
  exchanged :
      {k : ℕ}
      → IsOrderly f
      → IsPlaced k reader c m
      → (Memory.free true true c.readers ((f prepared).1)).heap.group (m.heap.next + 1)
        ≡ m.heap.group c.readers ++ (new_reader.pos ∷ [])
  exchanged o p =
      ap (λ (g : ℕ → List ℕ). g (m.heap.next + 1))
        (free-IsSame true true c.readers ((f prepared).1)).group
      ∙ (o.group prepared (m.heap.next + 1) (omega arith)
          ∙ update_self m.heap.group (m.heap.next + 1) _)

  -- Before it the group was still the one that was copied.
  unexchanged :
      {k : ℕ}
      → IsOrderly f
      → IsPlaced k reader c m
      → (f prepared).0.readers ≡ c.readers
      → current_group (f prepared) ≡ m.heap.group c.readers
  unexchanged o p e =
      ap (λ (t : ℕ). (f prepared).1.heap.group t) e
      ∙ (o.group prepared c.readers (omega (arith, p.group))
          ∙ update_ne m.heap.group (m.heap.next + 1) c.readers _ (λ e'. omega (arith, p.group)))

  add_round-Joined :
      {k : ℕ} (stream : ℕ) (rounds : List Interference)
      → IsOrderly f
      → IsPlaced k reader c m
      → Elem stream (current_group (f prepared))
      → (((f prepared).0.readers ≡ c.readers)
          ⊎ Joined stream (
              add_stream_from rounds reader
                ((f prepared).0.readers)
                ((f prepared).0)
                dropped_again))
      → Joined stream (add_stream_from (f ∷ rounds) reader c.readers c m)
  unfolding add_stream_from
  add_round-Joined stream rounds o p there on =
      elim (Bool-cases ((f prepared).0.readers == c.readers)) [
        | inl e ↦ record {
          reader = new_reader;
          cursor = record ((f prepared).0) { readers = m.heap.next + 1 };
          manager = Memory.free true true c.readers ((f prepared).1);
          returned = rw (try_add_stream_lem p, e) refl;
          joined = rw (exchanged o p) (Elem-append_last _ (m.heap.group c.readers));
          kept = rw (exchanged o p) (
              Elem-append_left stream (m.heap.group c.readers) _
                (rw⁻¹ (unexchanged o p ((==_iff _ _).0 e)) there));
        }
        | inr e ↦ elim on [
          | inl same ↦ absurd (ne_of_false e same)
          | inr j ↦ record {
            reader = j.reader;
            cursor = j.cursor;
            manager = j.manager;
            returned = rw (try_add_stream_lem p, e) j.returned;
            joined = j.joined;
            kept = j.kept;
          }
        ]
      ]
    where
      ne_of_false : {a b : ℕ} → (a == b) ≡ false → a ≡ b → ⊥
      ne_of_false {a} {b} e same = cc ((==_iff a b).1 same, e)

add_rounds-Joined :
    {k : ℕ} (reader : Reader) (stream : ℕ) (rounds : List Interference) (c : ReadCursor)
    (m : MemoryManager)
    → All (λ f. IsOrderly f × Keeps stream f) rounds
    → Settles rounds
    → IsPlaced k reader c m
    → Elem stream (current_group (c, m))
    → Joined stream (add_stream_from rounds reader c.readers c m)
unfolding dropped_again deallocate
add_rounds-Joined reader stream [] c m orderly settles p there = absurd settles
add_rounds-Joined reader stream (f ∷ rounds) c m orderly settles p there =
    let after = orderly.0.1 (prepared reader f c m) before in
    add_round-Joined reader f c m stream rounds orderly.0.0 p after (elim settles [
      | inl leaves ↦ inl (leaves (prepared reader f c m))
      | inr settles' ↦ inr (
          add_rounds-Joined reader stream rounds ((f (prepared reader f c m)).0)
            (dropped_again reader f c m) orderly.1 settles'
            (dropped_again-IsPlaced reader f c m orderly.0.0 p) after)
    ])
  where
    before : Elem stream (current_group (prepared reader f c m))
    before =
        rw
          (update_ne m.heap.group (m.heap.next + 1) c.readers
            (m.heap.group c.readers ++ ((m.heap.next + 1 + 1) ∷ [])) (λ e. omega (arith, p.group)))
          there

-- For a reader and a group on the heap, the position one of a queue of 2 ^ k cells with k at most
-- 61: if before the first exchange other threads have put a stream into the group, if what they
-- do there and in later rounds leaves what is published as it is and keeps the stream, and if in
-- some later round they leave the pointer of the group alone, then the loop of `add_stream`
-- returns a reader, whose stream is in the group then, as is that stream.
pub add_stream_from-Joined :
    {k : ℕ} (reader : Reader) (stream : ℕ) (first : Interference) (rounds : List Interference)
    (c : ReadCursor) (m : MemoryManager)
    → IsPlaced k reader c m
    → IsOrderly first
    → Adds stream first
    → All (λ f. IsOrderly f × Keeps stream f) rounds
    → Settles rounds
    → Joined stream (add_stream_from (first ∷ rounds) reader c.readers c m)
unfolding dropped_again deallocate
add_stream_from-Joined reader stream first rounds c m p orderly adds all settles =
    add_round-Joined reader first c m stream rounds orderly p (adds (prepared reader first c m)) (
      inr (
        add_rounds-Joined reader stream rounds ((first (prepared reader first c m)).0)
          (dropped_again reader first c m) all settles
          (dropped_again-IsPlaced reader first c m orderly p) (adds (prepared reader first c m))))

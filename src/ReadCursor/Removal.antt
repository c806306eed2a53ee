-- ===== src/ReadCursor/Removal.antt =====
-- What `remove_reader` of src/read_cursor.rs leaves on the heap.
use multiqueue.Prelude.{
  ℕ, ◌+◌, ◌<◌, ◌≡◌, refl, ap, ◌∙◌, ◌⊎◌, inl, inr, List, [], ◌∷◌, Bool, true, false, not,
  if◌then◌else◌, arith, length, retain, ◌==◌, ==_iff, ok,
}
use multiqueue.Heap.{Heap, allocate, deallocate, update, update_self, update_ne}
use multiqueue.Memory
use multiqueue.Memory.{MemoryManager}
use multiqueue.Memory.Frame.{IsSame, IsSame-trans, free-IsSame, IsWord, free-IsWord}
use multiqueue.ReadCursor.Attempt.{Reader, load_count}
use multiqueue.ReadCursor.Group
use multiqueue.ReadCursor.Group.{ReadCursor}

-- Nobody is left in the group exactly when it is empty.
pub has_readers_cases :
    (h : Heap) (c : ReadCursor)
    → ((Group.has_readers h c ≡ true) × (h.group c.readers ≡ []))
      ⊎ ((Group.has_readers h c ≡ false) × (0 < length (h.group c.readers)))
unfolding Group.has_readers
has_readers_cases h c = by_group (h.group c.readers) refl
  where
    by_group :
        (g : List ℕ)
        → h.group c.readers ≡ g
        → ((Group.has_readers h c ≡ true) × (h.group c.readers ≡ []))
          ⊎ ((Group.has_readers h c ≡ false) × (0 < length (h.group c.readers)))
    by_group [] e = rw e (inl (refl, refl))
    by_group (x ∷ xs) e = rw e (inr (refl, omega arith))

-- The streams that are left without one of them.
abbrev pub without : ℕ → List ℕ → List ℕ
without s streams = retain (λ t. not (t == s)) streams

-- The heap with the group that leaves a stream out.
abbrev pub shrunk_heap : Heap → List ℕ → ℕ → Heap
shrunk_heap h streams s = record h {
  next = h.next + 1;
  group = update h.group h.next (without s streams);
}

-- The manager that `remove_reader` leaves, in the steps that it takes.
module _ (reader : Reader) (c : ReadCursor) (m : MemoryManager) where
  abbrev pub shrunk : MemoryManager
  shrunk = record m { heap = shrunk_heap m.heap (m.heap.group c.readers) reader.pos }

  abbrev pub group_freed : MemoryManager
  group_freed = Memory.free true true c.readers shrunk

  abbrev pub pos_freed : MemoryManager
  pos_freed = Memory.free true true reader.pos group_freed

  unfoldable pub freed_manager : MemoryManager
  unfolding deallocate
  freed_manager = record pos_freed { heap = deallocate reader.meta pos_freed.heap }

abbrev pub shrunk_cursor : Reader → ReadCursor → MemoryManager → ReadCursor
shrunk_cursor reader c m =
    if length
        (update m.heap.group m.heap.next (without reader.pos (m.heap.group c.readers)) c.readers)
      == 1
    then record c { readers = m.heap.next; last_pos = load_count m.heap reader }
    else record c { readers = m.heap.next }

pub remove_reader_returns :
    (reader : Reader) (c : ReadCursor) (m : MemoryManager)
    → Group.remove_reader reader c m
      ≡ ok (
        Group.has_readers (freed_manager reader c m).heap (shrunk_cursor reader c m),
        shrunk_cursor reader c m,
        freed_manager reader c m,
      )
unfolding Group.remove_reader Group.remove_reader_from Group.group_remove_reader allocate
    freed_manager deallocate
remove_reader_returns reader c m = rw ((==_iff c.readers c.readers).1 refl) refl

-- What is on the heap behind it.
module _ (reader : Reader) (c : ReadCursor) (m : MemoryManager) where
  pub freed-IsSame : IsSame (shrunk reader c m).heap (freed_manager reader c m).heap
  unfolding freed_manager deallocate
  freed-IsSame =
      let s =
        IsSame-trans (free-IsSame true true c.readers (shrunk reader c m))
          (free-IsSame true true reader.pos (group_freed reader c m)) in
      record {
        next = s.next;
        pos = s.pos;
        consumers = s.consumers;
        group = s.group;
        epochs = s.epochs;
      }

  pub freed-IsWord : {r : Bool} → IsWord r m.signal → IsWord r (freed_manager reader c m).signal
  unfolding freed_manager
  freed-IsWord w =
      free-IsWord true true reader.pos (group_freed reader c m)
        (free-IsWord true true c.readers (shrunk reader c m) w)

  pub group_after :
      (freed_manager reader c m).heap.group m.heap.next
      ≡ without reader.pos (m.heap.group c.readers)
  group_after =
      ap (λ (g : ℕ → List ℕ). g m.heap.next) freed-IsSame.group
      ∙ update_self m.heap.group m.heap.next _

  pub cursor_after : (shrunk_cursor reader c m).readers ≡ m.heap.next
  cursor_after = by_count (
      length
        (update m.heap.group m.heap.next (without reader.pos (m.heap.group c.readers)) c.readers)
      == 1)
    where
      by_count :
          (b : Bool)
          → (if b
              then record c { readers = m.heap.next; last_pos = load_count m.heap reader }
              else record c { readers = m.heap.next }).readers
            ≡ m.heap.next
      by_count true = refl
      by_count false = refl

  pub last_after :
      c.readers < m.heap.next
      → length (m.heap.group c.readers) ≡ 1
      → (shrunk_cursor reader c m).last_pos ≡ (m.heap.pos reader.pos).val
  last_after lt one =
      rw
        (
          update_ne m.heap.group m.heap.next c.readers (without reader.pos (m.heap.group c.readers))
              (λ e. omega arith),
          (==_iff (length (m.heap.group c.readers)) 1).1 one,
        )
        refl

-- ===== src/ReadCursor/Group.antt =====
-- `ReaderGroup` and `ReadCursor` of src/read_cursor.rs.
use multiqueue.Prelude.{
  ℕ, List, [], ◌∷◌, ◌++◌, Bool, true, false, not, Option, none, some, Result, ok, err, Fault,
  out_of_steps, ◌>>=◌, ltb, ◌==◌, if◌then◌else◌, length, retain,
}
use multiqueue.CountedIndex
use multiqueue.CountedIndex.{CountedIndex, past}
use multiqueue.Heap.{Heap, update, allocate, deallocate}
use multiqueue.Memory
use multiqueue.Memory.{MemoryManager}
use multiqueue.ReadCursor.Attempt.{Reader, single, load_count}

-- `readers` points at the current group, a list of positions on the heap.
pub record ReadCursor : Type 0 where
  pub readers : ℕ
  pub last_pos : ℕ

-- `ReaderGroup::add_stream`: the new group, and a reader of the new stream.
unfoldable pub group_add_stream : Heap → List ℕ → ℕ → ℕ → Result Fault (ℕ × Reader × Heap)
group_add_stream h readers raw wrap = do
  index ← CountedIndex.from_usize raw wrap
  let (new_meta, h1) = allocate h
  let (new_group, h2) = allocate h1
  let (new_pos, h3) = allocate h2
  ok (
    new_group,
    record { state = single; pos = new_pos; meta = new_meta },
    record h3 {
      pos = update h3.pos new_pos index;
      consumers = update h3.consumers new_meta 1;
      group = update h3.group new_group (readers ++ (new_pos ∷ []));
    },
  )

-- `ReaderGroup::remove_reader`
unfoldable pub group_remove_reader : Heap → List ℕ → ℕ → ℕ × Heap
group_remove_reader h readers reader =
    let (new_group, h') = allocate h in
    (
      new_group,
      record h' { group = update h'.group new_group (retain (λ pt. not (pt == reader)) readers) },
    )

-- The loop of `ReaderGroup::get_max_diff`, with the largest distance so far.
unfoldable pub max_diff_from : (ℕ → CountedIndex) → ℕ → ℕ → List ℕ → Option ℕ
max_diff_from pos cur_writer max_diff [] = some max_diff
max_diff_from pos cur_writer max_diff (reader ∷ readers) =
    let (diff, tofar) = past cur_writer (CountedIndex.load_count (pos reader)) in
    let rest =
      max_diff_from pos cur_writer (if ltb max_diff diff then diff else max_diff) readers in
    if tofar then none else rest

unfoldable pub group_max_diff : Heap → List ℕ → ℕ → Option ℕ
group_max_diff h readers cur_writer = max_diff_from h.pos cur_writer 0 readers

-- `ReadCursor::new`; the group that it starts from is empty, and stands nowhere.
unfoldable pub new : Heap → ℕ → Result Fault (ReadCursor × Reader × Heap)
new h wrap = do
  (real_group, reader, h') ← group_add_stream h [] 0 wrap
  ok (record { readers = real_group; last_pos = 0 }, reader, h')

-- What one round of `ReadCursor::get_max_diff` sees: the group pointer at its two loads, and the
-- heap in between. Other threads may have changed the pointer from the one to the other.
pub record Glimpse : Type 0 where
  pub first_ptr : ℕ
  pub heap : Heap
  pub second_ptr : ℕ

-- `ReadCursor::get_max_diff`: the distances count only if the pointer has not changed meanwhile.
unfoldable pub get_max_diff : List Glimpse → ℕ → Result Fault (Option ℕ)
get_max_diff [] cur_writer = err out_of_steps
get_max_diff (g ∷ rounds) cur_writer =
    let rval = group_max_diff g.heap (g.heap.group g.first_ptr) cur_writer in
    let again = get_max_diff rounds cur_writer in
    if g.second_ptr == g.first_ptr then ok rval else again

-- A round in which nothing else runs.
abbrev pub calm : Heap → ReadCursor → Glimpse
calm h c = record { first_ptr = c.readers; heap = h; second_ptr = c.readers }

is_empty : List ℕ → Bool
is_empty [] = true
is_empty (x ∷ xs) = false

-- As in the source: true where the group is empty.
unfoldable pub has_readers : Heap → ReadCursor → Bool
unfolding is_empty
has_readers h c = is_empty (h.group c.readers)

-- What the other threads do to the read cursor and to what the manager keeps, in one round, between
-- the load of the group pointer and the compare-exchange.
abbrev pub Interference : Type 0
Interference = ReadCursor × MemoryManager → ReadCursor × MemoryManager

abbrev pub undisturbed : Interference
undisturbed s = s

-- One round of the loop of `ReadCursor::add_stream`, for the group pointer loaded last: the new
-- reader, or the pointer found instead.
pub data Attempted : Type 0 where
  added : Reader → ReadCursor → MemoryManager → Attempted
  raced : ℕ → ReadCursor → MemoryManager → Attempted

unfoldable pub try_add_stream :
    Interference → Reader → ℕ → ReadCursor → MemoryManager → Result Fault Attempted
try_add_stream meanwhile reader current_ptr c m = do
  let raw = CountedIndex.load_raw (m.heap.pos reader.pos)
  let wrap = CountedIndex.wrap_at (m.heap.pos reader.pos)
  (new_group, new_reader, h) ← group_add_stream m.heap (m.heap.group current_ptr) raw wrap
  let (c', m') = meanwhile (c, record m { heap = h })
  ok (
      if c'.readers == current_ptr
      then added new_reader (record c' { readers = new_group })
          (Memory.free true true current_ptr m')
      else raced c'.readers c' (record m' {
        heap =
            deallocate new_group (deallocate new_reader.pos (deallocate new_reader.meta (m'.heap)));
      }))

-- `ReadCursor::add_stream`, from the pointer loaded last, with what the others do in each round.
unfoldable pub add_stream_from :
    List Interference
    → Reader
    → ℕ
    → ReadCursor
    → MemoryManager
    → Result Fault (Reader × ReadCursor × MemoryManager)
add_stream_from [] reader current_ptr c m = err out_of_steps
add_stream_from (meanwhile ∷ rounds) reader current_ptr c m =
    try_add_stream meanwhile reader current_ptr c m >>= elim [
      | added r c' m' ↦ ok (r, c', m')
      | raced ptr c' m' ↦ add_stream_from rounds reader ptr c' m'
    ]

-- The same while no other thread works on the group: one round is enough.
unfoldable pub add_stream :
    Reader → ReadCursor → MemoryManager → Result Fault (Reader × ReadCursor × MemoryManager)
add_stream reader c m = add_stream_from (undisturbed ∷ []) reader c.readers c m

-- `ReadCursor::remove_reader`, likewise: whether the group is empty now.
unfoldable pub remove_reader_from :
    List Interference
    → Reader
    → ℕ
    → ReadCursor
    → MemoryManager
    → Result Fault (Bool × ReadCursor × MemoryManager)
remove_reader_from [] reader current_group c m = err out_of_steps
remove_reader_from (meanwhile ∷ rounds) reader current_group c m =
    let (new_group, h) = group_remove_reader m.heap (m.heap.group current_group) reader.pos in
    let (found, m0) = meanwhile (c, record m { heap = h }) in
    let swapped : ReadCursor = record found { readers = new_group } in
    let c' : ReadCursor =
      if length (m0.heap.group current_group) == 1
      then record swapped { last_pos = load_count m0.heap reader }
      else swapped in
    let m1 = Memory.free true true current_group m0 in
    let m2 = Memory.free true true reader.pos m1 in
    let m3 : MemoryManager = record m2 { heap = deallocate reader.meta (m2.heap) } in
    let again =
      remove_reader_from rounds reader found.readers found
        (record m0 { heap = deallocate new_group (m0.heap) }) in
    if found.readers == current_group then ok (has_readers m3.heap c', c', m3) else again

unfoldable pub remove_reader :
    Reader → ReadCursor → MemoryManager → Result Fault (Bool × ReadCursor × MemoryManager)
remove_reader reader c m = remove_reader_from (undisturbed ∷ []) reader c.readers c m

-- ===== src/ReadCursor/Attempt.antt =====
-- `Reader` and `ReadAttempt` of src/read_cursor.rs: a consumer of a stream, and one try of it to
-- move the stream on.
use multiqueue.Prelude.{ℕ, Bool, true, false, ◌&&◌, Option, none, some, ◌==◌, if◌then◌else◌}
use multiqueue.Word.{wrapping_add, wrapping_sub}
use multiqueue.CountedIndex
use multiqueue.CountedIndex.{CountedIndex, Transaction}
use multiqueue.Heap.{Heap, update}

pub data ReaderState : Type 0 where
  single multi : ReaderState

-- `pos` and `meta` are pointers; a clone of a reader shares them.
pub record Reader : Type 0 where
  pub state : ReaderState
  pub pos : ℕ
  pub meta : ℕ

-- The atomic behind `linked` is the position of the reader that made the attempt, and is passed in.
pub record ReadAttempt : Type 0 where
  pub linked : Transaction
  pub state : ReaderState

unfoldable pub get : ReadAttempt → ℕ × ℕ
get a = CountedIndex.get a.linked

-- What a commit leaves behind: a new attempt if it failed.
unfoldable pub commit_attempt :
    CountedIndex → ReadAttempt → ℕ → Bool → Option ReadAttempt × CountedIndex
commit_attempt c a by weak = elim a.state [
  | single ↦ (none, CountedIndex.commit_direct c a.linked by)
  | multi ↦
      let (left, c') = CountedIndex.commit c a.linked by weak in
      (elim left [ some t ↦ some (record { linked = t; state = multi }) | none ↦ none ], c')
]

unfoldable pub reload : CountedIndex → ReadAttempt → ReadAttempt
reload c a = record a { linked = CountedIndex.reload c a.linked }

unfoldable pub commit_direct : CountedIndex → ReadAttempt → ℕ → CountedIndex
commit_direct c a by = CountedIndex.commit_direct c a.linked by

abbrev is_multi : ReaderState → Bool
is_multi single = false
is_multi multi = true

unfoldable pub get_consumers : Heap → Reader → ℕ
get_consumers h r = h.consumers r.meta

unfoldable pub is_single : Heap → Reader → Bool
unfolding get_consumers
is_single h r = get_consumers h r == 1

-- A handle that finds itself the last consumer falls back to direct commits.
unfoldable pub load_attempt : Heap → Reader → ReadAttempt × Reader
load_attempt h r =
    let r' : Reader =
      if is_multi r.state && (h.consumers r.meta == 1) then record r { state = single } else r in
    (record { linked = CountedIndex.load_transaction (h.pos r.pos); state = r'.state }, r')

abbrev pub load_count : Heap → Reader → ℕ
load_count h r = CountedIndex.load_count (h.pos r.pos)

unfoldable pub dup_consumer : Heap → Reader → Heap × Reader
dup_consumer h r = (
  record h { consumers = update h.consumers r.meta (wrapping_add (h.consumers r.meta) 1) },
  record r { state = multi },
)

-- `fetch_sub` returns the count before.
unfoldable pub remove_consumer : Heap → Reader → ℕ × Heap
remove_consumer h r = (
  h.consumers r.meta,
  record h { consumers = update h.consumers r.meta (wrapping_sub (h.consumers r.meta) 1) },
)

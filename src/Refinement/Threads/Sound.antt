-- ===== src/Refinement/Threads/Sound.antt =====
-- What holds in every state that threads side by side get into: of the queue, and of each thread.
use multiqueue.Prelude.{
  ℕ, ◌+◌, ◌-◌, ◌%◌, ◌^◌, ◌≤◌, ◌<◌, ◌≡◌, ◌≢◌, ◌⊎◌, List, Option, none, some, All, Elem, length,
  get_elem?, get_or,
}
use multiqueue.CountedIndex.{CountedIndex, Transaction, rm_tag}
use multiqueue.ReadCursor.Attempt.{Reader, multi, ReadAttempt}
use multiqueue.MultiQueue.State.{QueueEntry, blank}
use multiqueue.MultiQueue.Threads.{
  Pc, idle, loaded, stale, roomy, unread, claimed, written, attempted, seen, counted, current,
  lapsed, taken, released, Shared,
}
use multiqueue.Refinement.Log.{readers, position, InWindow}

-- What of the memory the proofs are about: all but the counts of readers at the cells, and what
-- has been destroyed.
pub record View {ℓ} (T : Type ℓ) : Type ℓ where
  pub head : CountedIndex
  pub tail_cache : ℕ
  pub cells : List (QueueEntry T)
  pub streams : List ℕ
  pub pos : ℕ → CountedIndex
  pub sent : List T
  pub given : ℕ → List T

abbrev pub view {ℓ} : {T : Type ℓ} → Shared T → View T
view m = record {
  head = m.queue.head;
  tail_cache = m.queue.tail_cache;
  cells = m.queue.cells;
  streams = readers m.queue;
  pos = position m.queue;
  sent = m.sent;
  given = m.given;
}

-- The position that a thread has claimed and not published yet.
abbrev pub Owns {ℓ} : {T : Type ℓ} → Pc T → ℕ → Type 0
Owns (claimed t val) c = t.loaded_vals ≡ c
Owns (written t val) c = t.loaded_vals ≡ c
Owns _ c = ⊥

-- What a stream has given out is the log, from the position where it stood to where it stands.
pub record Follows {ℓ} {T : Type ℓ} (first : ℕ → ℕ) (v : View T) (s : ℕ) : Type ℓ where
  pub stands : (v.pos s).val ≡ first s + length (v.given s)
  pub in_order :
      (i : ℕ) → i < length (v.given s) → get_elem? (v.given s) i ≡ get_elem? v.sent (first s + i)

module _ {ℓ} {T : Type ℓ} (k : ℕ) where
  abbrev pub cell_at : View T → ℕ → QueueEntry T
  cell_at v c = get_or v.cells (c % 2 ^ k) blank

  -- The value numbered c lies in its cell, under its flag.
  abbrev pub Published : View T → ℕ → Type ℓ
  Published v c =
      (c < length v.sent) × (cell_at v c ≡ record { val = get_elem? v.sent c; wraps = c })

  -- A transaction of a sender, and what it has learnt of the tail.
  pub record Fits (v : View T) (t : Transaction) : Type ℓ where
    pub mask : t.mask ≡ 2 ^ k - 1
    pub reached : t.loaded_vals ≤ length v.sent

  pub record Cached (v : View T) (t : Transaction) (tail_cache : ℕ) : Type ℓ where
    pub fits : Fits v t
    pub old : tail_cache ≤ v.tail_cache

  pub record Room (v : View T) (t : Transaction) : Type ℓ where
    pub fits : Fits v t
    pub room : t.loaded_vals < v.tail_cache + 2 ^ k

  -- A position that is claimed, and still to be published: no stream has passed it, and its cell
  -- has an older flag.
  pub record Claim (v : View T) (t : Transaction) (val : T) : Type ℓ where
    pub mask : t.mask ≡ 2 ^ k - 1
    pub is_sent : get_elem? v.sent t.loaded_vals ≡ some val
    pub ahead : All (λ s. (v.pos s).val ≤ t.loaded_vals) v.streams
    pub older :
        (d : ℕ) → t.loaded_vals ≤ d → d < 2 ^ 63 - 1 → rm_tag (cell_at v t.loaded_vals).wraps ≢ d

  -- An attempt of a consumer: alone on its stream it is at the stream's position.
  pub record Tries (sole : ℕ → Option ℕ) (thread : ℕ) (v : View T) (r : Reader) (a : ReadAttempt)
      : Type ℓ where
    pub is_stream : Elem r.pos v.streams
    pub mask : a.linked.mask ≡ 2 ^ k - 1
    pub reached : a.linked.loaded_vals ≤ (v.pos r.pos).val
    pub role :
        ((a.state ≡ multi) × (sole r.pos ≡ none))
        ⊎ ((sole r.pos ≡ some thread) × (a.linked.loaded_vals ≡ (v.pos r.pos).val))

  -- As long as the stream has not moved on, the value that it saw is there.
  abbrev pub Sees : View T → Reader → ReadAttempt → Type ℓ
  Sees v r a = a.linked.loaded_vals ≡ (v.pos r.pos).val → Published v a.linked.loaded_vals

  abbrev pub Holds : View T → Reader → ReadAttempt → T → Type ℓ
  Holds v r a val =
      a.linked.loaded_vals ≡ (v.pos r.pos).val → get_elem? v.sent a.linked.loaded_vals ≡ some val

  -- What holds for a thread where it stands.
  abbrev pub Local : (ℕ → Option ℕ) → ℕ → View T → Pc T → Type ℓ
  Local sole i v idle = Unit
  Local sole i v (loaded t val) = Fits v t
  Local sole i v (stale t val tail) = Cached v t tail
  Local sole i v (roomy t val) = Room v t
  Local sole i v (unread t val) = Room v t
  Local sole i v (claimed t val) = Claim v t val
  Local sole i v (written t val) = Claim v t val × ((cell_at v t.loaded_vals).val ≡ some val)
  Local sole i v (attempted r a) = Tries sole i v r a
  Local sole i v (seen r a) = Tries sole i v r a × Sees v r a
  Local sole i v (counted r a) = Tries sole i v r a × Sees v r a
  Local sole i v (current r a) = Tries sole i v r a × Sees v r a
  Local sole i v (lapsed r a) = Tries sole i v r a
  Local sole i v (taken r a val) = Tries sole i v r a × Sees v r a × Holds v r a val
  Local sole i v (released r a val) = Tries sole i v r a × Sees v r a × Holds v r a val

  -- The memory, whatever the threads do.
  pub record Store (first : ℕ → ℕ) (v : View T) : Type ℓ where
    pub small : k ≤ 61
    pub short : length v.sent < 2 ^ 63 - 1
    pub mask : v.head.mask ≡ 2 ^ k - 1
    pub counted : v.head.val ≡ length v.sent
    pub cells_width : length v.cells ≡ 2 ^ k
    pub streams : All (λ s. InWindow (2 ^ k) (length v.sent) (v.pos s)) v.streams
    pub some_stream : (s : ℕ) × Elem s v.streams
    pub cache : length v.sent ≤ v.tail_cache + 2 ^ k
    pub behind : All (λ s. v.tail_cache ≤ (v.pos s).val) v.streams
    pub blanks : (i : ℕ) → length v.sent ≤ i → get_or v.cells i blank ≡ blank
    pub follows : All (Follows first v) v.streams

  -- Each of the last values is in its cell, or one thread is about to put it there.
  pub record Cells (v : View T) (pc : ℕ → Pc T) : Type ℓ where
    pub filled :
        (c : ℕ)
        → c < length v.sent
        → length v.sent ≤ c + 2 ^ k
        → Published v c ⊎ ((i : ℕ) × Owns (pc i) c)
    pub unique : (i j c : ℕ) → Owns (pc i) c → Owns (pc j) c → i ≡ j

  pub record Sound (sole : ℕ → Option ℕ) (first : ℕ → ℕ) (v : View T) (pc : ℕ → Pc T) : Type ℓ where
    pub store : Store first v
    pub cells : Cells v pc
    pub locals : (i : ℕ) → Local sole i v (pc i)

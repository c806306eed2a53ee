-- ===== src/Memory/Laws.antt =====
-- What the memory manager of src/memory.rs promises: nothing handed to it is lost or freed twice,
-- and nothing is freed before every handle has been seen at the current epoch.
use multiqueue.Prelude.{
  ℕ, ◌+◌, ◌^◌, ◌<◌, ◌≡◌, ◌≢◌, ap, ◌∙◌, ◌⊎◌, List, [], ◌∷◌, ◌++◌, Bool, true, false, arith, ◌==◌,
  if◌then◌else◌, count, All,
}
use multiqueue.Heap.{Heap, deallocate}
use multiqueue.Memory.Inner
use multiqueue.Memory.Inner.{ToFree, MemoryManagerInner, delete_all, delete, all_seen, try_freeing}
use multiqueue.Memory.{MemoryManager, start_free, free_pending, free, update_token, remove_token}

abbrev pub pointers : List ToFree → List ℕ
pointers [] = []
pointers (t ∷ ts) = t.mem ∷ pointers ts

-- How often a pointer has been freed or waits for it.
abbrev pub handled : ℕ → MemoryManager → ℕ
handled p m =
    count p m.heap.freed + count p (pointers m.inner.tofree) + count p (pointers m.wait_to_free)

-- Nothing is pending at the epoch of the last round of frees, so that the next batch overwrites
-- nothing.
pub record IsValid (m : MemoryManager) : Type 0 where
  pub word : m.epoch < 2 ^ 64
  pub drained : (m.inner.tofree ≡ []) ⊎ (m.inner.epoch ≢ m.epoch)

count-append : (p : ℕ) (xs ys : List ℕ) → count p (xs ++ ys) ≡ count p xs + count p ys
count-append p [] ys = omega arith
count-append p (x ∷ xs) ys = omega (arith, count-append p xs ys)

count-pointers_push :
    (p q : ℕ) (ts : List ToFree)
    → count p (pointers (ts ++ (record { mem = q } ∷ [])))
      ≡ count p (pointers ts) + (if q == p then 1 else 0)
count-pointers_push p q [] = omega arith
count-pointers_push p q (t ∷ ts) = omega (arith, count-pointers_push p q ts)

count-delete_all :
    (p : ℕ) (ts : List ToFree) (h : Heap)
    → count p (delete_all ts h).freed ≡ count p h.freed + count p (pointers ts)
unfolding delete_all delete deallocate
count-delete_all p [] h = omega arith
count-delete_all p (t ∷ ts) h = omega (arith, count-delete_all p ts (delete t h))

handled-free_pending :
    (p : ℕ) (got : Bool) (m : MemoryManager) → handled p (free_pending got m) ≡ handled p m
unfolding free_pending try_freeing
handled-free_pending p got m = ground (arith, count-delete_all p m.inner.tofree m.heap)

free_pending-IsValid : (got : Bool) (m : MemoryManager) → IsValid m → IsValid (free_pending got m)
unfolding free_pending try_freeing
free_pending-IsValid got m v = ground arith

handled-start_free :
    (p : ℕ) (got : Bool) (m : MemoryManager)
    → IsValid m
    → handled p (start_free got m) ≡ handled p m
unfolding start_free
handled-start_free p got m v = ground arith

start_free-IsValid : (got : Bool) (m : MemoryManager) → IsValid m → IsValid (start_free got m)
unfolding start_free
start_free-IsValid got m v = ground arith

-- From a valid state of the manager `free` goes to a valid one, in which the pointer handed in is
-- freed or waits for it once more than before, and every other as often as before.
pub free-conserves :
    (got_first got_second : Bool) (pt : ℕ) (m : MemoryManager)
    → IsValid m
    → IsValid (free got_first got_second pt m)
      × ((p : ℕ)
          → handled p (free got_first got_second pt m) ≡ handled p m + (if pt == p then 1 else 0))
unfolding free
free-conserves got_first got_second pt m v = (
  ground (arith, tried_valid, start_free-IsValid got_second tried tried_valid),
  λ p. ground (
    arith,
    count-pointers_push p pt m.wait_to_free,
    handled-free_pending p got_first pushed,
    handled-start_free p got_second tried tried_valid,
  ),
)
  where
    pushed : MemoryManager
    pushed = record m { wait_to_free = m.wait_to_free ++ (record { mem = pt } ∷ []) }

    tried : MemoryManager
    tried = free_pending got_first pushed

    tried_valid : IsValid tried
    tried_valid =
        free_pending-IsValid got_first pushed (record { word = v.word; drained = v.drained })

update_token-IsValid : (token : ℕ) (m : MemoryManager) → IsValid m → IsValid (update_token token m)
unfolding update_token
update_token-IsValid token m v = ground arith

handled-update_token :
    (p token : ℕ) (m : MemoryManager) → handled p (update_token token m) ≡ handled p m
unfolding update_token
handled-update_token p token m = ground arith

-- From a valid state of the manager `remove_token` goes to a valid one, in which the token is
-- freed or waits for it once more than before, and every other pointer as often as before.
pub remove_token-conserves :
    (token : ℕ) (m : MemoryManager)
    → IsValid m
    → IsValid (remove_token token m)
      × ((p : ℕ) → handled p (remove_token token m) ≡ handled p m + (if token == p then 1 else 0))
unfolding remove_token Inner.remove_token
remove_token-conserves token m v = (
  (free-conserves false false token removed valid).0,
  λ p.
      (free-conserves false false token removed valid).1 p
      ∙ ap (λ (t : ℕ). t + (if token == p then 1 else 0)) (handled-update_token p token m),
)
  where
    updated : MemoryManager
    updated = update_token token m

    removed : MemoryManager
    removed = record updated { inner = Inner.remove_token token updated.inner }

    valid : IsValid removed
    valid = record {
      word = (update_token-IsValid token m v).word;
      drained = (update_token-IsValid token m v).drained;
    }

all_seen-All :
    (epochs : ℕ → ℕ) (at : ℕ) (ts : List ℕ)
    → all_seen epochs at ts ≡ true
    → All (λ t. epochs t ≡ at) ts
unfolding all_seen
all_seen-All epochs at [] h = tt
all_seen-All epochs at (t ∷ ts) h = ground (arith, all_seen-All epochs at ts)

-- A call of `free` leaves the heap as it was, or frees exactly the pending batch, and then there
-- is a handle and every handle has been seen at the current epoch.
pub free_grace :
    (got_first got_second : Bool) (pt : ℕ) (m : MemoryManager)
    → ((free got_first got_second pt m).heap ≡ m.heap)
      ⊎ ((m.inner.tokens ≢ [])
          × All (λ t. m.heap.epochs t ≡ m.epoch) m.inner.tokens
          × ((free got_first got_second pt m).heap ≡ delete_all m.inner.tofree m.heap))
unfolding free free_pending start_free try_freeing
free_grace got_first got_second pt m =
    ground (arith, all_seen-All m.heap.epochs m.epoch m.inner.tokens)

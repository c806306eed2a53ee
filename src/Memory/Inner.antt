-- ===== src/Memory/Inner.antt =====
-- `ToFree` and `MemoryManagerInner` of src/memory.rs. The heap is passed in and out.
use multiqueue.Prelude.{ℕ, List, [], ◌∷◌, ◌++◌, Bool, true, false, not, ◌==◌, if◌then◌else◌, retain}
use multiqueue.Heap.{Heap, update, allocate, deallocate}

-- `num_param` is 1 in every call, and the freer runs the destructor of one object and deallocates
-- it; what a destructor does besides is not modelled.
pub record ToFree : Type 0 where
  pub mem : ℕ

pub record MemoryManagerInner : Type 0 where
  pub tokens : List ℕ
  pub tofree : List ToFree
  pub epoch : ℕ

unfoldable pub delete : ToFree → Heap → Heap
unfolding deallocate
delete t h = deallocate t.mem h

-- `for val in self.tofree.drain(..) { val.delete(); }`
unfoldable pub delete_all : List ToFree → Heap → Heap
delete_all [] h = h
delete_all (t ∷ ts) h = delete_all ts (delete t h)

unfoldable pub new : MemoryManagerInner
new = record { tokens = []; tofree = []; epoch = 0 }

unfoldable pub get_token : ℕ → MemoryManagerInner → Heap → ℕ × MemoryManagerInner × Heap
unfolding allocate
get_token at inner h =
    let (token, h') = allocate h in
    (
      token,
      record inner { tokens = inner.tokens ++ (token ∷ []) },
      record h' { epochs = update h'.epochs token at },
    )

unfoldable pub remove_token : ℕ → MemoryManagerInner → MemoryManagerInner
remove_token token inner = record inner { tokens = retain (λ x. not (x == token)) inner.tokens }

-- The loop over the tokens: whether each was seen at `at`.
unfoldable pub all_seen : (ℕ → ℕ) → ℕ → List ℕ → Bool
all_seen epochs at [] = true
all_seen epochs at (t ∷ ts) = if not (epochs t == at) then false else all_seen epochs at ts

is_empty : List ℕ → Bool
is_empty [] = true
is_empty (x ∷ xs) = false

unfoldable pub try_freeing : ℕ → MemoryManagerInner → Heap → Bool × MemoryManagerInner × Heap
unfolding is_empty all_seen delete_all
try_freeing at inner h =
    if is_empty inner.tokens
    then (false, inner, h)
    else if not (all_seen h.epochs at inner.tokens)
    then (false, inner, h)
    else (true, record inner { tofree = []; epoch = at }, delete_all inner.tofree h)

unfoldable pub add_freeable : List ToFree → MemoryManagerInner → MemoryManagerInner
add_freeable vec inner = record inner { tofree = vec }

-- `Drop` of the inner manager.
unfoldable pub drop : MemoryManagerInner → Heap → MemoryManagerInner × Heap
drop inner h = (record inner { tofree = [] }, delete_all inner.tofree h)

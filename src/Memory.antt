-- ===== src/Memory.antt =====
-- src/memory.rs: what has been unlinked from the queue is freed once every handle has been seen at
-- the current epoch. The heap that the pointers point into is a field of the manager. A `try_lock`
-- has an argument that says whether it gets the lock; `lock` waits, and has none.
pub mod Inner
pub mod Laws
pub mod Frame
use Inner.{ToFree, MemoryManagerInner}
use Inner
use multiqueue.Prelude.{
  ℕ, ◌+◌, List, [], ◌∷◌, ◌++◌, Bool, true, false, not, ltb, ◌==◌, if◌then◌else◌, length,
}
use multiqueue.Word.{wrapping_add}
use multiqueue.AtomicSignal
use multiqueue.AtomicSignal.{AtomicSignal}
use multiqueue.Heap.{Heap, update}

pub record MemoryManager : Type 0 where
  pub inner : MemoryManagerInner
  pub wait_to_free : List ToFree
  pub epoch : ℕ
  pub signal : AtomicSignal
  pub heap : Heap

unfoldable pub new : Heap → MemoryManager
unfolding Inner.new AtomicSignal.new
new heap = record {
  inner = Inner.new;
  wait_to_free = [];
  epoch = 0;
  signal = AtomicSignal.new;
  heap = heap;
}

unfoldable pub get_token : MemoryManager → ℕ × MemoryManager
unfolding Inner.get_token
get_token m =
    let (token, inner, heap) = Inner.get_token m.epoch m.inner m.heap in
    (token, record m { inner = inner; heap = heap })

-- `elemvec` is `wait_to_free`, whose lock the caller holds.
unfoldable pub start_free : Bool → MemoryManager → MemoryManager
unfolding Inner.add_freeable AtomicSignal.set_epoch
start_free got m =
    if got
    then (if m.inner.epoch == m.epoch
        then record m {
          inner = Inner.add_freeable m.wait_to_free m.inner;
          wait_to_free = [];
          epoch = wrapping_add m.epoch 1;
          signal = (AtomicSignal.set_epoch m.signal).0;
        }
        else m)
    else m

-- The part of `free` under the first `try_lock`.
unfoldable pub free_pending : Bool → MemoryManager → MemoryManager
unfolding Inner.try_freeing AtomicSignal.clear_epoch
free_pending got m =
    let (freed, inner, heap) = Inner.try_freeing m.epoch m.inner m.heap in
    if got
    then (if freed
        then record m { inner = inner; heap = heap; signal = (AtomicSignal.clear_epoch m.signal).0 }
        else record m { inner = inner; heap = heap })
    else m

unfoldable pub free : Bool → Bool → ℕ → MemoryManager → MemoryManager
free got_first got_second pt m =
    let pushed : MemoryManager = record m {
      wait_to_free = m.wait_to_free ++ (record { mem = pt } ∷ []);
    } in
    let tried = free_pending got_first pushed in
    if ltb 20 (length tried.wait_to_free) then start_free got_second tried else tried

unfoldable pub update_token : ℕ → MemoryManager → MemoryManager
update_token token m =
    if not (m.heap.epochs token == m.epoch)
    then record m { heap = record (m.heap) { epochs = update m.heap.epochs token m.epoch } }
    else m

-- The lock of `inner` is still held when `free` is called, so neither `try_lock` there succeeds.
unfoldable pub remove_token : ℕ → MemoryManager → MemoryManager
unfolding Inner.remove_token
remove_token token m =
    let updated = update_token token m in
    free false false token (record updated { inner = Inner.remove_token token updated.inner })

-- `Drop` of the manager runs that of the inner one; nothing drains `wait_to_free`.
unfoldable pub drop : MemoryManager → MemoryManager
unfolding Inner.drop
drop m = let (inner, heap) = Inner.drop m.inner m.heap in record m { inner = inner; heap = heap }

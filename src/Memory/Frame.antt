-- ===== src/Memory/Frame.antt =====
-- What a call of `free` leaves alone.
use multiqueue.Prelude.{
  ℕ, ◌≡◌, refl, ap, ◌∙◌, List, [], ◌∷◌, ◌++◌, Bool, true, false, not, arith, Bool-cases, inl, inr,
  ◌==◌, ltb, length,
}
use multiqueue.AtomicSignal.{
  AtomicSignal, signal_of, set_epoch, clear_epoch, set_reader, signal_updates,
}
use multiqueue.Heap.{Heap, deallocate}
use multiqueue.Memory.Inner
use multiqueue.Memory.Inner.{ToFree, delete_all, delete, try_freeing}
use multiqueue.Memory.{MemoryManager, start_free, free_pending, free, update_token, remove_token}

-- Two heaps that differ at most in what was given back.
pub record IsSame (h h' : Heap) : Type 0 where
  pub next : h'.next ≡ h.next
  pub pos : h'.pos ≡ h.pos
  pub consumers : h'.consumers ≡ h.consumers
  pub group : h'.group ≡ h.group
  pub epochs : h'.epochs ≡ h.epochs

abbrev pub same : {h : Heap} → IsSame h h
same = record { next = refl; pos = refl; consumers = refl; group = refl; epochs = refl }

pub IsSame-trans : {h h' h'' : Heap} → IsSame h h' → IsSame h' h'' → IsSame h h''
IsSame-trans a b = record {
  next = b.next ∙ a.next;
  pos = b.pos ∙ a.pos;
  consumers = b.consumers ∙ a.consumers;
  group = b.group ∙ a.group;
  epochs = b.epochs ∙ a.epochs;
}

delete_all-IsSame : (ts : List ToFree) (h : Heap) → IsSame h (delete_all ts h)
unfolding delete_all delete deallocate
delete_all-IsSame [] h = same
delete_all-IsSame (t ∷ ts) h =
    let s = delete_all-IsSame ts (delete t h) in
    record {
      next = s.next;
      pos = s.pos;
      consumers = s.consumers;
      group = s.group;
      epochs = s.epochs;
    }

free_pending-IsSame : (got : Bool) (m : MemoryManager) → IsSame m.heap (free_pending got m).heap
unfolding free_pending try_freeing
free_pending-IsSame got m =
    ground (arith, same {h = m.heap}, delete_all-IsSame m.inner.tofree m.heap)

-- `free` only adds to what was given back.
pub free-IsSame :
    (got_first got_second : Bool) (pt : ℕ) (m : MemoryManager)
    → IsSame m.heap (free got_first got_second pt m).heap
unfolding free start_free
free-IsSame got_first got_second pt m = ground (
  arith,
  free_pending-IsSame got_first
      (record m { wait_to_free = m.wait_to_free ++ (record { mem = pt } ∷ []) }),
)

-- The two flags are as the arguments say, with some flag for the epoch.
abbrev pub IsWord : Bool → AtomicSignal → Type 0
IsWord reader s = (epoch : Bool) × (s ≡ signal_of epoch reader)

set_epoch-IsWord : {r : Bool} (s : AtomicSignal) → IsWord r s → IsWord r (set_epoch s).0
set_epoch-IsWord {r} s (e, at) = (
  true,
  ap (λ (t : AtomicSignal). (set_epoch t).0) at
      ∙ ap (λ (p : AtomicSignal × Bool). p.0) (signal_updates e r).0,
)

clear_epoch-IsWord : {r : Bool} (s : AtomicSignal) → IsWord r s → IsWord r (clear_epoch s).0
clear_epoch-IsWord {r} s (e, at) = (
  false,
  ap (λ (t : AtomicSignal). (clear_epoch t).0) at
      ∙ ap (λ (p : AtomicSignal × Bool). p.0) (signal_updates e r).1,
)

pub set_reader-IsWord : {r : Bool} (s : AtomicSignal) → IsWord r s → IsWord true (set_reader s).0
set_reader-IsWord {r} s (e, at) = (
  e,
  ap (λ (t : AtomicSignal). (set_reader t).0) at
      ∙ ap (λ (p : AtomicSignal × Bool). p.0) (signal_updates e r).2,
)

free_pending-IsWord :
    {r : Bool} (got : Bool) (m : MemoryManager)
    → IsWord r m.signal
    → IsWord r (free_pending got m).signal
unfolding free_pending
free_pending-IsWord false m w = w
free_pending-IsWord true m w = elim (Bool-cases (try_freeing m.epoch m.inner m.heap).0) [
  | inl e ↦ rw e (clear_epoch-IsWord m.signal w)
  | inr e ↦ rw e w
]

start_free-IsWord :
    {r : Bool} (got : Bool) (m : MemoryManager)
    → IsWord r m.signal
    → IsWord r (start_free got m).signal
unfolding start_free
start_free-IsWord false m w = w
start_free-IsWord true m w = elim (Bool-cases (m.inner.epoch == m.epoch)) [
  | inl e ↦ rw e (set_epoch-IsWord m.signal w)
  | inr e ↦ rw e w
]

-- `free` leaves the flag for the readers alone.
pub free-IsWord :
    {r : Bool} (got_first got_second : Bool) (pt : ℕ) (m : MemoryManager)
    → IsWord r m.signal
    → IsWord r (free got_first got_second pt m).signal
unfolding free
free-IsWord {r} got_first got_second pt m w =
    elim (Bool-cases (ltb 20 (length tried.wait_to_free))) [
      | inl e ↦ rw e (start_free-IsWord got_second tried w')
      | inr e ↦ rw e w'
    ]
  where
    pushed : MemoryManager
    pushed = record m { wait_to_free = m.wait_to_free ++ (record { mem = pt } ∷ []) }

    tried : MemoryManager
    tried = free_pending got_first pushed

    w' : IsWord r tried.signal
    w' = free_pending-IsWord got_first pushed w

update_token-kept :
    (token : ℕ) (m : MemoryManager)
    → ((update_token token m).heap.pos ≡ m.heap.pos)
      × ((update_token token m).heap.group ≡ m.heap.group)
      × ((update_token token m).heap.next ≡ m.heap.next)
      × ((update_token token m).signal ≡ m.signal)
unfolding update_token
update_token-kept token m = elim (Bool-cases (not (m.heap.epochs token == m.epoch))) [
  | inl e ↦ rw e (refl, refl, refl, refl)
  | inr e ↦ rw e (refl, refl, refl, refl)
]

-- `remove_token` only writes the token's epoch, and adds to what was given back.
pub remove_token-kept :
    {r : Bool} (token : ℕ) (m : MemoryManager)
    → IsWord r m.signal
    → ((remove_token token m).heap.pos ≡ m.heap.pos)
      × ((remove_token token m).heap.group ≡ m.heap.group)
      × ((remove_token token m).heap.next ≡ m.heap.next)
      × IsWord r (remove_token token m).signal
unfolding remove_token
remove_token-kept token m (e, at) =
    let u = update_token-kept token m in
    let m1 : MemoryManager = record (update_token token m) {
      inner = Inner.remove_token token (update_token token m).inner;
    } in
    let s = free-IsSame false false token m1 in
    (s.pos ∙ u.0, s.group ∙ u.1, s.next ∙ u.2, free-IsWord false false token m1 (e, u.3 ∙ at))

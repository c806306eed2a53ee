-- ===== src/CountedIndex.antt =====
-- src/countedindex.rs on a 64-bit target: the counter that stands for a position in the queue.
-- Its low bits are the index of a cell, the bits above them count the rounds, and the highest bit
-- is the tag. The atomic word is the field `val`, passed in and out of each operation; an ordering
-- argument has no counterpart, since every access is read as sequentially consistent.
pub mod Bounds
pub mod Wrap
pub mod Moves
pub mod Claims
use Prim.Native.Nat.{bit_and}
use multiqueue.Prelude.{
  ℕ, zero, suc, ◌+◌, ◌-◌, ◌*◌, ◌^◌, Bool, true, false, not, ◌&&◌, Option, none, some, Result, ok,
  err, Fault, not_power_of_two, too_large, zero_size, ◌>>=◌, ltb, leb, ◌==◌, if◌then◌else◌,
}
use multiqueue.Word.{wrapping_add, wrapping_sub}

-- `Index` is `u64`, and a cast between it and `usize` changes nothing.
abbrev pub max_wrap : ℕ
max_wrap = 2 ^ 62 - 1

abbrev pub mask_ind : ℕ
mask_ind = 2 ^ 63

abbrev pub mask_tag : ℕ
mask_tag = mask_ind - 1

-- `std::usize::MAX`
abbrev pub initial_queue_flag : ℕ
initial_queue_flag = 2 ^ 64 - 1

unfoldable pub past : ℕ → ℕ → ℕ × Bool
past check seq = let diff = wrapping_sub check seq in (diff, ltb max_wrap diff)

unfoldable pub is_tagged : ℕ → Bool
is_tagged val = not (bit_and val mask_ind == 0)

unfoldable pub rm_tag : ℕ → ℕ
rm_tag val = bit_and val mask_tag

-- The standard library's `next_power_of_two`: the first of 1, 2, 4, … that is not below `val`.
unfoldable pub doubling : ℕ → ℕ → ℕ → ℕ
doubling zero p val = p
doubling (suc rounds) p val = elim (leb val p) [ true ↦ p | false ↦ doubling rounds (p * 2) val ]

unfoldable pub next_power_of_two : ℕ → ℕ
next_power_of_two val = doubling 64 1 val

-- The standard library's `is_power_of_two`.
unfoldable pub is_power_of_two : ℕ → Bool
is_power_of_two val = next_power_of_two val == val

unfoldable pub get_valid_wrap : ℕ → ℕ
get_valid_wrap val =
    if leb max_wrap val then max_wrap else if val == 0 then 1 else next_power_of_two val

-- The assertions, in their order; one that fails panics.
unfoldable pub validate_wrap : ℕ → Result Fault (Unit {0})
validate_wrap val =
    if not (is_power_of_two val)
    then err not_power_of_two
    else if not (leb val max_wrap)
    then err too_large
    else if not (ltb 0 val)
    then err zero_size
    else ok tt

pub record CountedIndex : Type 0 where
  pub val : ℕ
  pub mask : ℕ

-- The pointer to the atomic and the ordering of its loads are left out: the `CountedIndex` itself
-- is passed to `commit`, `commit_direct` and `reload`.
pub record Transaction : Type 0 where
  pub loaded_vals : ℕ
  pub mask : ℕ

unfoldable pub from_usize : ℕ → ℕ → Result Fault CountedIndex
from_usize val wrap = do _ ← validate_wrap wrap; ok (record { val = val; mask = wrap - 1 })

unfoldable pub new : ℕ → Result Fault CountedIndex
new wrap = do _ ← validate_wrap wrap; ok (record { val = 0; mask = wrap - 1 })

unfoldable pub wrap_at : CountedIndex → ℕ
wrap_at c = c.mask + 1

unfoldable pub load : CountedIndex → ℕ
load c = bit_and c.val c.mask

abbrev pub load_raw : CountedIndex → ℕ
load_raw c = c.val

abbrev pub load_count : CountedIndex → ℕ
load_count c = load_raw c

unfoldable pub load_transaction : CountedIndex → Transaction
load_transaction c = record { loaded_vals = c.val; mask = c.mask }

unfoldable pub get_previous : ℕ → ℕ → ℕ
get_previous start by = wrapping_sub start by

-- The index of the cell and the valid flag.
unfoldable pub get : Transaction → ℕ × ℕ
get t = (bit_and t.loaded_vals t.mask, t.loaded_vals)

unfoldable pub matches_previous : Transaction → ℕ → Bool
matches_previous t val =
    let wrap = wrapping_add t.mask 1 in rm_tag (wrapping_sub t.loaded_vals wrap) == val

-- What `commit` and `commit_direct` store.
unfoldable pub store_val : Transaction → ℕ → ℕ
store_val t by = rm_tag (wrapping_add t.loaded_vals by)

-- `compare_exchange_weak` may fail where the values are equal: `weak` says that it does so here.
unfoldable pub commit : CountedIndex → Transaction → ℕ → Bool → Option Transaction × CountedIndex
commit c t by weak =
    if (c.val == t.loaded_vals) && not weak
    then (none, record c { val = store_val t by })
    else (some (record t { loaded_vals = c.val }), c)

unfoldable pub commit_direct : CountedIndex → Transaction → ℕ → CountedIndex
commit_direct c t by = record c { val = store_val t by }

unfoldable pub reload : CountedIndex → Transaction → Transaction
reload c t = record t { loaded_vals = c.val }

-- ===== src/CountedIndex/Bounds.antt =====
-- What the counter operations compute, below the tag bit.

use multiqueue.Prelude.{
  ℕ, ◌+◌, ◌-◌, ◌%◌, ◌^◌, ◌≤◌, ◌<◌, ◌≡◌, refl, ◌≢◌, ◌⊎◌, Bool, true, false, none, some, arith, ltb,
  ◌==◌,
}
use multiqueue.Word.{bit_and_mask, bit_and_bit, wrapping_add, wrapping_sub}
use multiqueue.CountedIndex.{
  max_wrap, past, is_tagged, rm_tag, CountedIndex, Transaction, get_previous, get, matches_previous,
  store_val, commit, commit_direct,
}

pub rm_tag_lem : (v : ℕ) → rm_tag v ≡ v % 2 ^ 63
unfolding rm_tag
rm_tag_lem v = bit_and_mask 63 v

pub rm_tag_of_lt : (v : ℕ) → v < 2 ^ 63 → rm_tag v ≡ v
rm_tag_of_lt v h = omega (arith, rm_tag_lem v)

pub is_tagged_of_lt : (v : ℕ) → v < 2 ^ 63 → is_tagged v ≡ false
unfolding is_tagged
is_tagged_of_lt v h = ground (arith, bit_and_bit 63 v)

pub is_tagged_of_ge : (v : ℕ) → 2 ^ 63 ≤ v → v < 2 ^ 64 → is_tagged v ≡ true
unfolding is_tagged
is_tagged_of_ge v h l = ground (arith, bit_and_bit 63 v)

-- `past` of a reader that the writer has not lapped is the distance, and is not too far exactly
-- when that is at most `MAX_WRAP`; a reader ahead of the writer is always too far.
pub past_cases :
    (check seq : ℕ)
    → check < 2 ^ 63
    → seq < 2 ^ 63
    → (seq ≤ check → past check seq ≡ (check - seq, ltb max_wrap (check - seq)))
      × (check < seq → (past check seq).1 ≡ true)
unfolding past
past_cases check seq hc hs = ground arith

-- Below the tag, one commit steps the counter by one round the 63 bits.
pub store_val_one :
    (t : Transaction) → t.loaded_vals < 2 ^ 63 → store_val t 1 ≡ (t.loaded_vals + 1) % 2 ^ 63
unfolding store_val
store_val_one t h = omega (arith, rm_tag_lem (wrapping_add t.loaded_vals 1))

-- For a counter below 2 ^ 63 and a position at most w behind it, where w is positive and at most
-- 2 ^ 62 and the mask is w - 1, `matches_previous` holds exactly at distance w.
pub matches_previous_lem :
    (t : Transaction) (w val : ℕ)
    → t.mask ≡ w - 1
    → 0 < w
    → w ≤ 2 ^ 62
    → t.loaded_vals < 2 ^ 63
    → val ≤ t.loaded_vals
    → t.loaded_vals ≤ val + w
    → matches_previous t val ≡ (t.loaded_vals == val + w)
unfolding matches_previous
matches_previous_lem t w val hm hw hb hl hv hr =
    ground (arith, rm_tag_lem (wrapping_sub t.loaded_vals (wrapping_add t.mask 1)))

-- The index that a counter of 2 ^ k cells shows.
pub get_lem :
    (t : Transaction) (k : ℕ) → t.mask ≡ 2 ^ k - 1 → get t ≡ (t.loaded_vals % 2 ^ k, t.loaded_vals)
unfolding get
get_lem t k h = rw h (rw (bit_and_mask k t.loaded_vals) refl)

-- A commit that fails leaves the counter as it was and hands back the value it saw; one that
-- succeeds does so only on the value that was loaded, and then does what `commit_direct` does.
pub commit_lem :
    (c : CountedIndex) (t : Transaction) (by : ℕ) (weak : Bool)
    → ((commit c t by weak ≡ (none, commit_direct c t by)) × (c.val ≡ t.loaded_vals))
      ⊎ ((commit c t by weak ≡ (some (record t { loaded_vals = c.val }), c))
          × ((c.val ≢ t.loaded_vals) ⊎ (weak ≡ true)))
unfolding commit commit_direct
commit_lem c t by weak = ground arith

pub get_previous_of_le :
    (start by : ℕ) → by ≤ start → start < 2 ^ 64 → get_previous start by ≡ start - by
unfolding get_previous
get_previous_of_le start by h l = omega arith

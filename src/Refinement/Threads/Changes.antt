-- ===== src/Refinement/Threads/Changes.antt =====
-- The changes of the memory that the proofs are about by a sender, one by one: the cached tail, the
-- head with the log, and a cell.
use native.Mathlib.Decide.{dec_le}
use native.Mathlib.Nat.{mod-le, mod-lt}
use multiqueue.Prelude.{
  ℕ, ◌+◌, ◌-◌, ◌%◌, ◌^◌, ◌≤◌, ◌<◌, ◌≡◌, ◌≢◌, refl, sym, ◌∙◌, inl, [], ◌∷◌, ◌++◌, Option, arith, All,
  All-imp, All-imp₂, All-Elem, length, length-append, length-set, get_elem?-append_left, get_or,
  get_or-set_self, get_or-set_ne, lt_of_get_elem?, set,
}
use multiqueue.CountedIndex.{CountedIndex, Transaction}
use multiqueue.MultiQueue.State.{QueueEntry, blank}
use multiqueue.MultiQueue.Threads.{Pc, claimed, written}
use multiqueue.Refinement.Log.{InWindow, mod-ne, pow_bounds}
use multiqueue.Refinement.Threads.Sound.{
  View, Owns, cell_at, Published, Claim, Local, Follows, Store, Sound,
}
use multiqueue.Refinement.Threads.Frame.{Claim-Published, Meanwhile}

-- The cells of two positions of the last round are different.
pub cells_apart : (w n c d : ℕ) → c < n → n ≤ c + w → d < n → n ≤ d + w → c ≢ d → d % w ≢ c % w
cells_apart w n c d hc lc hd ld ne = elim (dec_le c d) [
  | yes before ↦ mod-ne w c d (omega arith) (omega arith)
  | no after ↦ λ e. mod-ne w d c (omega arith) (omega arith) (sym e)
]

module _ {ℓ} {T : Type ℓ} (k : ℕ) where
  -- A claimed position is one of the last round.
  pub Claim-bounds :
      {first : ℕ → ℕ} {v : View T} {t : Transaction} {val : T}
      → Store k first v
      → Claim k v t val
      → (t.loaded_vals < length v.sent) × (length v.sent ≤ t.loaded_vals + 2 ^ k)
  Claim-bounds {first} {v} {t} {val} store claim =
      let (s, at) = store.some_stream in
      let window : InWindow (2 ^ k) (length v.sent) (v.pos s) =
        All-Elem (λ s. InWindow (2 ^ k) (length v.sent) (v.pos s)) s v.streams store.streams at in
      let le : (v.pos s).val ≤ t.loaded_vals =
        All-Elem (λ s. (v.pos s).val ≤ t.loaded_vals) s v.streams claim.ahead at in
      (lt_of_get_elem? v.sent t.loaded_vals val claim.is_sent, omega (arith, window, le))

  pub Owns-bounds :
      (sole : ℕ → Option ℕ) (j : ℕ) {first : ℕ → ℕ} {v : View T} (p : Pc T) (c : ℕ)
      → Store k first v
      → Local k sole j v p
      → Owns p c
      → (c < length v.sent) × (length v.sent ≤ c + 2 ^ k)
  Owns-bounds sole j (claimed t val) c store f own = rw (← own) (Claim-bounds store f)
  Owns-bounds sole j (written t val) c store f own = rw (← own) (Claim-bounds store f.0)
  Owns-bounds sole j _ c store f own = absurd own

  module _ {sole : ℕ → Option ℕ} {first : ℕ → ℕ} (i : ℕ) {v : View T} {pc : ℕ → Pc T}
      (sound : Sound k sole first v pc) where
    -- The cached tail grows, behind every stream.
    module _ (x : ℕ) (grown : v.tail_cache ≤ x)
        (behind : All (λ s. x ≤ (v.pos s).val) v.streams) where
      pub Store-cache : Store k first (record v { tail_cache = x })
      Store-cache = record {
        small = sound.store.small;
        short = sound.store.short;
        mask = sound.store.mask;
        counted = sound.store.counted;
        cells_width = sound.store.cells_width;
        streams = sound.store.streams;
        some_stream = sound.store.some_stream;
        cache = omega (arith, sound.store.cache);
        behind = behind;
        blanks = sound.store.blanks;
        follows =
            All-imp (Follows first v) _ v.streams
              (λ s f. record { stands = f.stands; in_order = f.in_order }) sound.store.follows;
      }

      pub Meanwhile-cache : Meanwhile k sole i v pc (record v { tail_cache = x })
      Meanwhile-cache = record {
        streams = refl;
        longer = omega arith;
        sent = λ c lt. refl;
        cache = grown;
        published = λ c le here. here;
        owned = λ j c ne own. refl;
        moves = λ s at. inl refl;
      }

    -- A value is added to the log, where the cached tail shows room.
    module _ (val : T) (head : CountedIndex) (mask : head.mask ≡ 2 ^ k - 1)
        (counted : head.val ≡ length v.sent + 1) (fits : length v.sent + 1 < 2 ^ 63 - 1)
        (room : length v.sent < v.tail_cache + 2 ^ k) where
      len : length (v.sent ++ (val ∷ [])) ≡ length v.sent + 1
      len = length-append v.sent (val ∷ [])

      pub Store-claim : Store k first (record v { head = head; sent = v.sent ++ (val ∷ []) })
      Store-claim = record {
        small = sound.store.small;
        short = omega (arith, len);
        mask = mask;
        counted = omega (arith, len, counted);
        cells_width = sound.store.cells_width;
        streams =
            All-imp₂ (λ s. InWindow (2 ^ k) (length v.sent) (v.pos s))
              (λ s. v.tail_cache ≤ (v.pos s).val) _ v.streams
              (λ s w b. (w.0, omega (arith, len, w.1), omega (arith, len, b))) sound.store.streams
              sound.store.behind;
        some_stream = sound.store.some_stream;
        cache = omega (arith, len);
        behind = sound.store.behind;
        blanks = λ n le. sound.store.blanks n (omega (arith, len));
        follows =
            All-imp₂ (λ s. InWindow (2 ^ k) (length v.sent) (v.pos s)) (Follows first v) _ v.streams
              (λ s w f. record {
                stands = f.stands;
                in_order = λ n lt.
                    f.in_order n lt
                    ∙ sym (
                        get_elem?-append_left v.sent (val ∷ []) (first s + n)
                          (omega (arith, w.1, f.stands)));
              })
              sound.store.streams sound.store.follows;
      }

      pub Meanwhile-claim :
          Meanwhile k sole i v pc (record v { head = head; sent = v.sent ++ (val ∷ []) })
      Meanwhile-claim = record {
        streams = refl;
        longer = omega (arith, len);
        sent = λ c lt. get_elem?-append_left v.sent (val ∷ []) c lt;
        cache = omega arith;
        published = λ c le here. (
          omega (arith, len, here.0),
          rw (get_elem?-append_left v.sent (val ∷ []) c here.0) here.1,
        );
        owned = λ j c ne own. refl;
        moves = λ s at. inl refl;
      }

    -- A thread writes to the cell that it has claimed.
    module _ {t : Transaction} {val : T} (entry : QueueEntry T) (claim : Claim k v t val)
        (mine : Owns (pc i) t.loaded_vals) where
      in_cells : t.loaded_vals % 2 ^ k < length v.cells
      in_cells =
          omega (
            arith,
            sound.store.cells_width,
            mod-lt t.loaded_vals (pow_bounds k sound.store.small).0,
          )

      apart :
          (c : ℕ)
          → c < length v.sent
          → length v.sent ≤ c + 2 ^ k
          → c ≢ t.loaded_vals
          → t.loaded_vals % 2 ^ k ≢ c % 2 ^ k
      apart c lt le ne =
          let own = Claim-bounds sound.store claim in
          cells_apart (2 ^ k) (length v.sent) c t.loaded_vals lt le own.0 own.1 ne

      pub cell_at-set_self :
          cell_at k (record v { cells = set v.cells (t.loaded_vals % 2 ^ k) entry }) t.loaded_vals
          ≡ entry
      cell_at-set_self = get_or-set_self v.cells (t.loaded_vals % 2 ^ k) entry blank in_cells

      pub Store-set : Store k first (record v { cells = set v.cells (t.loaded_vals % 2 ^ k) entry })
      Store-set = record {
        small = sound.store.small;
        short = sound.store.short;
        mask = sound.store.mask;
        counted = sound.store.counted;
        cells_width = length-set v.cells (t.loaded_vals % 2 ^ k) entry ∙ sound.store.cells_width;
        streams = sound.store.streams;
        some_stream = sound.store.some_stream;
        cache = sound.store.cache;
        behind = sound.store.behind;
        blanks = λ n le.
            get_or-set_ne v.cells (t.loaded_vals % 2 ^ k) n entry blank (λ e.
              absurd
                (omega (arith, e, Claim-bounds sound.store claim, mod-le t.loaded_vals (2 ^ k))))
            ∙ sound.store.blanks n le;
        follows =
            All-imp (Follows first v) _ v.streams
              (λ s f. record { stands = f.stands; in_order = f.in_order }) sound.store.follows;
      }

      pub Meanwhile-set :
          Meanwhile k sole i v pc (record v { cells = set v.cells (t.loaded_vals % 2 ^ k) entry })
      Meanwhile-set = record {
        streams = refl;
        longer = omega arith;
        sent = λ c lt. refl;
        cache = omega arith;
        published = λ c le here. (here.0, other c le here ∙ here.1);
        owned = λ j c ne own.
            let bounds : (c < length v.sent) × (length v.sent ≤ c + 2 ^ k) =
              Owns-bounds sole j (pc j) c sound.store (sound.locals j) own in
            get_or-set_ne v.cells (t.loaded_vals % 2 ^ k) (c % 2 ^ k) entry blank
              (apart c bounds.0 bounds.1 (λ e. ne (sound.cells.unique j i c own (rw e mine))));
        moves = λ s at. inl refl;
      }
        where
          other :
              (c : ℕ)
              → length v.sent ≤ c + 2 ^ k
              → Published k v c
              → get_or (set v.cells (t.loaded_vals % 2 ^ k) entry) (c % 2 ^ k) blank ≡ cell_at k v c
          other c le here =
              get_or-set_ne v.cells (t.loaded_vals % 2 ^ k) (c % 2 ^ k) entry blank
                (apart c here.0 le (λ e. Claim-Published k sound.store.short claim (rw e at here)))

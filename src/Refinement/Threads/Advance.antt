-- ===== src/Refinement/Threads/Advance.antt =====
-- The change of the memory by a consumer: a stream moves on, and gives a value out.
use native.Mathlib.Decide.{ℕ_discrete}
use multiqueue.Prelude.{
  ℕ, ◌+◌, ◌-◌, ◌^◌, ◌≤◌, ◌<◌, ◌≡◌, ◌⊎◌, refl, sym, ap, ◌∙◌, inl, inr, List, [], ◌∷◌, ◌++◌, Option,
  none, some, arith, All-imp, All-Elem, All-intro, Elem, length, length-append, get_elem?,
  get_elem?-append_left, get_elem?-append_last,
}
use multiqueue.CountedIndex.{CountedIndex}
use multiqueue.Heap.{update, update_self, update_ne}
use multiqueue.MultiQueue.Threads.{Pc}
use multiqueue.Refinement.Log.{InWindow}
use multiqueue.Refinement.Threads.Sound.{View, Published, Follows, Store, Sound}
use multiqueue.Refinement.Threads.Frame.{Meanwhile}

module _ {ℓ} {T : Type ℓ} (k : ℕ) where
  module _ {sole : ℕ → Option ℕ} {first : ℕ → ℕ} (i : ℕ) {v : View T} {pc : ℕ → Pc T}
      (sound : Sound k sole first v pc) where
    -- A stream moves on by the published value where it stands, and gives it out.
    module _ (r : ℕ) (c : CountedIndex) (val : T) (is_stream : Elem r v.streams)
        (mask : c.mask ≡ 2 ^ k - 1) (next : c.val ≡ (v.pos r).val + 1)
        (there : Published k v (v.pos r).val) (value : get_elem? v.sent (v.pos r).val ≡ some val)
        (mine : (sole r ≡ none) ⊎ (sole r ≡ some i)) where
      abbrev pub advanced : View T
      advanced = record v {
        pos = update v.pos r c;
        given = update v.given r (v.given r ++ (val ∷ []));
      }

      window : InWindow (2 ^ k) (length v.sent) (v.pos r)
      window =
          All-Elem (λ s. InWindow (2 ^ k) (length v.sent) (v.pos s)) r v.streams sound.store.streams
            is_stream

      -- A fact of every stream that holds where a stream stays, and where this one goes.
      split {κ} :
          (P : CountedIndex → List T → Type κ) (s : ℕ)
          → P (v.pos s) (v.given s)
          → P c (v.given r ++ (val ∷ []))
          → P (advanced.pos s) (advanced.given s)
      split P s stay go = elim (ℕ_discrete r s) [
        | yes e ↦
            rw (← e)
              (rw (update_self v.pos r c, update_self v.given r (v.given r ++ (val ∷ []))) go)
        | no ne ↦
            rw (update_ne v.pos r s c ne, update_ne v.given r s (v.given r ++ (val ∷ [])) ne) stay
      ]

      pub Store-advance : Store k first advanced
      Store-advance = record {
        small = sound.store.small;
        short = sound.store.short;
        mask = sound.store.mask;
        counted = sound.store.counted;
        cells_width = sound.store.cells_width;
        streams =
            All-imp (λ s. InWindow (2 ^ k) (length v.sent) (v.pos s)) _ v.streams
              (λ s w.
                split (λ d g. InWindow (2 ^ k) (length v.sent) d) s w
                  (mask, omega (arith, next, there.0), omega (arith, next, window)))
              sound.store.streams;
        some_stream = sound.store.some_stream;
        cache = sound.store.cache;
        behind =
            All-imp (λ s. v.tail_cache ≤ (v.pos s).val) _ v.streams
              (λ s b.
                split (λ d g. v.tail_cache ≤ d.val) s b
                  (omega (
                    arith,
                    next,
                    All-Elem (λ s. v.tail_cache ≤ (v.pos s).val) r v.streams sound.store.behind
                        is_stream,
                  )))
              sound.store.behind;
        blanks = sound.store.blanks;
        follows = All-intro (Follows first advanced) v.streams follows_after;
      }
        where
          follows_at : (s : ℕ) → Elem s v.streams → Follows first v s
          follows_at s at = All-Elem (Follows first v) s v.streams sound.store.follows at

          now : Follows first v r
          now = follows_at r is_stream

          len : length (v.given r ++ (val ∷ [])) ≡ length (v.given r) + 1
          len = length-append (v.given r) (val ∷ [])

          given_next :
              (n : ℕ)
              → n < length (v.given r) + 1
              → get_elem? (v.given r ++ (val ∷ [])) n ≡ get_elem? v.sent (first r + n)
          given_next n lt = elim (ℕ_discrete n (length (v.given r))) [
            | yes e ↦
                get_elem?-append_last (v.given r) val n e
                ∙ sym value
                ∙ ap (get_elem? v.sent) (omega (arith, now.stands, e))
            | no ne ↦
                get_elem?-append_left (v.given r) (val ∷ []) n (omega arith)
                ∙ now.in_order n (omega arith)
          ]

          follows_after : (s : ℕ) → Elem s v.streams → Follows first advanced s
          follows_after s at = elim (ℕ_discrete r s) [
            | yes e ↦ record {
              stands =
                  rw (← e, update_self v.pos r c, update_self v.given r (v.given r ++ (val ∷ [])))
                    (omega (arith, len, next, now.stands));
              in_order =
                  rw (← e, update_self v.given r (v.given r ++ (val ∷ [])))
                    (λ n lt. given_next n (omega (arith, len)));
            }
            | no ne ↦ record {
              stands =
                  rw (update_ne v.pos r s c ne, update_ne v.given r s (v.given r ++ (val ∷ [])) ne)
                    (follows_at s at).stands;
              in_order =
                  rw (update_ne v.given r s (v.given r ++ (val ∷ [])) ne)
                    (follows_at s at).in_order;
            }
          ]

      pub Meanwhile-advance : Meanwhile k sole i v pc advanced
      Meanwhile-advance = record {
        streams = refl;
        longer = omega arith;
        sent = λ c lt. refl;
        cache = omega arith;
        published = λ c le here. here;
        owned = λ j c ne own. refl;
        moves = λ s at. elim (ℕ_discrete r s) [
          | yes e ↦ inr (rw (← e) (ap CountedIndex.val (update_self v.pos r c) ∙ next, there, mine))
          | no ne ↦ inl (update_ne v.pos r s c ne)
        ];
      }

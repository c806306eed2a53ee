-- ===== src/CountedIndex/Claims.antt =====
-- The positions that threads take off one counter.
use multiqueue.Prelude.{
  ℕ, zero, suc, ◌+◌, ◌%◌, ◌^◌, ◌<◌, ◌≡◌, refl, sym, ap, ◌∙◌, ◌⊎◌, inl, inr, List, [], ◌∷◌, ◌++◌,
  Bool, not, ◌&&◌, Bool-cases, Option, none, some, arith, ◌==◌, ==_iff,
}
use multiqueue.CountedIndex.{CountedIndex, Transaction, store_val, commit}
use multiqueue.CountedIndex.Bounds.{store_val_one}
use multiqueue.CountedIndex.Moves.{Moving, Step, loads, commits, fails, Reach, start, later}

-- The first n positions from a counter on.
abbrev pub positions : ℕ → ℕ → List ℕ
positions first zero = []
positions first (suc n) = positions first n ++ (((first + n) % 2 ^ 63) ∷ [])

-- What a commit can do: the counter was where it was loaded and goes on by one, or it is left alone.
commit_cases :
    (c : CountedIndex) (t : Transaction) (weak : Bool)
    → ((commit c t 1 weak ≡ (none, record c { val = store_val t 1 })) × (c.val ≡ t.loaded_vals))
      ⊎ (commit c t 1 weak ≡ (some (record t { loaded_vals = c.val }), c))
unfolding commit
commit_cases c t weak = elim (Bool-cases ((c.val == t.loaded_vals) && not weak)) [
  | inl e ↦ inl (rw e refl, (==_iff c.val t.loaded_vals).0 (ground arith))
  | inr e ↦ inr (rw e refl)
]

-- Exactly the first n positions have been taken, and the counter stands behind them.
pub record Counted (first : ℕ) (s : Moving) : Type 0 where
  pub n : ℕ
  pub taken : s.taken ≡ positions first n
  pub stands : s.index.val ≡ (first + n) % 2 ^ 63

Step-Counted : {first : ℕ} {s t : Moving} → Step s t → Counted first s → Counted first t
Step-Counted (loads thread) v = record { n = v.n; taken = v.taken; stands = v.stands }
Step-Counted {first} {s} (commits thread t weak c e done) v = elim (commit_cases s.index t weak) [
  | inl (d, same) ↦
      let moved : c ≡ record (s.index) { val = store_val t 1 } =
        ap (λ (r : Option Transaction × CountedIndex). r.1) (sym done ∙ d) in
      record {
        n = suc v.n;
        taken = rw (v.taken, ← same, v.stands) refl;
        stands =
            rw moved
              (omega (arith, store_val_one t (omega (arith, same, v.stands)), same, v.stands));
      }
  | inr d ↦ absurd cc
]
Step-Counted {first} {s} (fails thread t again weak c e failed) v =
    elim (commit_cases s.index t weak) [
      | inl (d, same) ↦ absurd cc
      | inr d ↦
          let kept : c ≡ s.index =
            ap (λ (r : Option Transaction × CountedIndex). r.1) (sym failed ∙ d) in
          record { n = v.n; taken = v.taken; stands = rw kept v.stands }
    ]

-- In every state that threads which load and commit get into from a counter below 2 ^ 63,
-- whatever the order of their accesses and whichever commits fail, the positions taken are, in
-- order, the first n from the counter on modulo 2 ^ 63, and the counter stands behind them.
pub Reach-Counted :
    {from : CountedIndex} {s : Moving} → from.val < 2 ^ 63 → Reach from s → Counted from.val s
Reach-Counted small start = record { n = 0; taken = refl; stands = omega arith }
Reach-Counted small (later r step) = Step-Counted step (Reach-Counted small r)

-- ===== src/Wait/Laws.antt =====
-- When the strategies of src/wait.rs return.
use multiqueue.Prelude.{
  ℕ, zero, suc, ◌+◌, ◌-◌, ◌^◌, ◌≤◌, ◌<◌, ◌≡◌, refl, ap, ◌∙◌, ◌⊎◌, inl, inr, ◌↔◌, List, [], ◌∷◌,
  Bool, true, false, arith, Result, ok, err, Fault, out_of_steps, if◌then◌else◌, length, Bool-cases,
}
use multiqueue.CountedIndex.{max_wrap, rm_tag, initial_queue_flag}
use multiqueue.CountedIndex.Bounds.{past_cases, rm_tag_of_lt, rm_tag_lem}
use multiqueue.Wait.{Sight, Spins, check, spin, busy_wait, yield_loop, yielding_wait}

-- For a count and a flag below 2 ^ 63, the flag at most `MAX_WRAP` behind, `check` holds exactly
-- when no writer is left or the flag has reached the count.
pub check_lem :
    (seq : ℕ) (s : Sight)
    → seq < 2 ^ 63
    → s.at < 2 ^ 63
    → seq ≤ s.at + max_wrap
    → (check seq s ≡ true) ↔ ((s.wc ≡ 0) ⊎ (seq ≤ s.at))
unfolding check
check_lem seq s hs ha near = rw (rm_tag_of_lt s.at ha) (ground (arith, past_cases seq s.at hs ha))

-- With the flag of a cell never written, `check` holds for every count below 2 ^ 63, whatever the
-- number of writers.
pub check_blank :
    (seq wc : ℕ) → seq < 2 ^ 63 → check seq (record { at = initial_queue_flag; wc = wc }) ≡ true
unfolding check
check_blank seq wc hs = rw flag (ground (arith, past_cases seq (2 ^ 63 - 1) hs (omega arith)))
  where
    flag : rm_tag initial_queue_flag ≡ 2 ^ 63 - 1
    flag = rm_tag_lem initial_queue_flag

-- The sights left over after the first at which a check passes.
abbrev pub after_ready : ℕ → List Sight → List Sight
after_ready seq [] = []
after_ready seq (s ∷ sights) = if check seq s then sights else after_ready seq sights

-- Some check passes.
abbrev pub IsReady : ℕ → List Sight → Type 0
IsReady seq [] = ⊥
IsReady seq (s ∷ sights) = (check seq s ≡ true) ⊎ IsReady seq sights

pub busy_wait_lem :
    (seq : ℕ) (sights : List Sight)
    → IsReady seq sights
    → busy_wait seq sights ≡ ok (after_ready seq sights)
unfolding busy_wait
busy_wait_lem seq [] r = absurd r
busy_wait_lem seq (s ∷ sights) (inl e) = rw e refl
busy_wait_lem seq (s ∷ sights) (inr r) = elim (Bool-cases (check seq s)) [
  | inl e ↦ rw e refl
  | inr e ↦ rw e (busy_wait_lem seq sights r)
]

-- A bounded spin that is not the last word leaves the same answer to be found.
pub record Spun (spins seq : ℕ) (sights : List Sight) (result : Result Fault (Bool × List Sight))
    : Type 0 where
  pub returned : Bool
  pub rest : List Sight
  pub ends : result ≡ ok (returned, rest)
  pub passed : returned ≡ true → rest ≡ after_ready seq sights
  pub still :
      returned ≡ false
      → IsReady seq rest
        × (after_ready seq rest ≡ after_ready seq sights)
        × (length sights ≡ length rest + spins)

spin-Spun :
    (spins seq : ℕ) (sights : List Sight)
    → IsReady seq sights
    → Spun spins seq sights (spin spins seq sights)
unfolding spin
spin-Spun zero seq sights r = record {
  returned = false;
  rest = sights;
  ends = refl;
  passed = λ e. cc;
  still = λ e. (r, refl, omega arith);
}
spin-Spun (suc spins) seq [] r = absurd r
spin-Spun (suc spins) seq (s ∷ sights) r = elim (Bool-cases (check seq s)) [
  | inl e ↦ rw e (record {
    returned = true;
    rest = sights;
    ends = refl;
    passed = λ e'. rw e refl;
    still = λ e'. cc;
  })
  | inr e ↦
      let d = spin-Spun spins seq sights (later e r) in
      rw e (record {
        returned = d.returned;
        rest = d.rest;
        ends = d.ends;
        passed = λ e'. rw e (d.passed e');
        still = λ e'. let (a, b, c) = d.still e' in (a, rw e b, omega arith);
      })
]
  where
    later : check seq s ≡ false → (check seq s ≡ true) ⊎ IsReady seq sights → IsReady seq sights
    later e (inl t) = cc
    later e (inr l) = l

-- `yield_loop` returns at the first sight at which a check passes, with fuel for one sight a round.
yield_loop_lem :
    (rounds spins seq : ℕ) (sights : List Sight)
    → 0 < spins
    → length sights < rounds
    → IsReady seq sights
    → yield_loop rounds spins seq sights ≡ ok (after_ready seq sights)
unfolding yield_loop
yield_loop_lem zero spins seq sights hs lt r = absurd (omega arith)
yield_loop_lem (suc rounds) spins seq sights hs lt r =
    let d = spin-Spun spins seq sights r in
    elim (Bool-cases d.returned) [
      | inl e ↦ rw (d.ends, e) (ap ok (d.passed e))
      | inr e ↦
          let (ready, same, count) = d.still e in
          rw (d.ends, e)
            (yield_loop_lem rounds spins seq d.rest hs (omega (arith, count)) ready ∙ ap ok same)
    ]

-- If a check passes at one of the sights, `BusyWait`, and `YieldingWait` with a positive number
-- of spins between yields, return right after the first such.
pub waits_agree :
    (w : Spins) (seq : ℕ) (sights : List Sight)
    → 0 < w.spins_yield
    → IsReady seq sights
    → (busy_wait seq sights ≡ ok (after_ready seq sights))
      × (yielding_wait (length sights + 1) w seq sights ≡ ok (after_ready seq sights))
unfolding yielding_wait
waits_agree w seq sights hy r =
    let d = spin-Spun w.spins_first seq sights r in
    (
      busy_wait_lem seq sights r,
      elim (Bool-cases d.returned) [
        | inl e ↦ rw (d.ends, e) (ap ok (d.passed e))
        | inr e ↦
            let (ready, same, count) = d.still e in
            rw (d.ends, e)
              (yield_loop_lem (length sights + 1) w.spins_yield seq d.rest hy (omega (arith, count))
                  ready
                ∙ ap ok same)
      ],
    )

-- With no spins between its yields, a yielding waiter never checks again.
yield_loop-zero :
    (rounds seq : ℕ) (sights : List Sight) → yield_loop rounds 0 seq sights ≡ err out_of_steps
unfolding yield_loop spin
yield_loop-zero zero seq sights = refl
yield_loop-zero (suc rounds) seq sights = yield_loop-zero rounds seq sights

-- A `YieldingWait` with 0 spins between yields, whose first spins see no check pass, does not
-- return for any number of rounds.
pub yielding_wait-hangs :
    (rounds spins_first seq : ℕ) (sights rest : List Sight)
    → spin spins_first seq sights ≡ ok (false, rest)
    → yielding_wait rounds (record { spins_first = spins_first; spins_yield = 0 }) seq sights
      ≡ err out_of_steps
unfolding yielding_wait
yielding_wait-hangs rounds spins_first seq sights rest e =
    rw (e, yield_loop-zero rounds seq rest) refl

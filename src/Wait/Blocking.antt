-- ===== src/Wait/Blocking.antt =====
-- When `BlockingWait` of src/wait.rs returns: no wake-up is lost.
use multiqueue.Prelude.{
  ℕ, zero, suc, ◌+◌, ◌≤◌, ◌≡◌, refl, ap, ◌⊎◌, inl, inr, List, [], ◌∷◌, ◌++◌, true, false, arith,
  Result, ok, Fault, length, Bool-cases,
}
use multiqueue.Wait.{
  Sight, Spins, Moment, Stage, locking, asleep, check, spin, sleep_loop, blocking_wait,
}
use multiqueue.Wait.Laws.{IsReady, after_ready}

-- From now on every check passes.
abbrev pub StaysReady : ℕ → List Moment → Type 0
StaysReady seq [] = Unit
StaysReady seq (m ∷ moments) = (check seq m.sight ≡ true) × StaysReady seq moments

-- Some `notify` comes.
abbrev pub IsNotified : List Moment → Type 0
IsNotified [] = ⊥
IsNotified (m ∷ moments) = (m.notified ≡ true) ⊎ IsNotified moments

-- A sleeping phase that ends at a moment at which the check passes.
pub record WakesUp (seq : ℕ) (moments : List Moment) (result : Result Fault (List Moment))
    : Type 0 where
  pub before : List Moment
  pub now : Moment
  pub rest : List Moment
  pub splits : moments ≡ before ++ (now ∷ rest)
  pub passes : check seq now.sight ≡ true
  pub returned : result ≡ ok rest

WakesUp-later :
    {seq : ℕ} {moments : List Moment} {result : Result Fault (List Moment)} (m : Moment)
    → WakesUp seq moments result
    → WakesUp seq (m ∷ moments) result
WakesUp-later m w = record {
  before = m ∷ w.before;
  now = w.now;
  rest = w.rest;
  splits = ap (λ l. m ∷ l) w.splits;
  passes = w.passes;
  returned = w.returned;
}

WakesUp-now :
    {seq : ℕ} (m : Moment) (moments : List Moment)
    → check seq m.sight ≡ true
    → WakesUp seq (m ∷ moments) (ok moments)
WakesUp-now m moments e = record {
  before = [];
  now = m;
  rest = moments;
  splits = refl;
  passes = e;
  returned = refl;
}

-- Where every check passes, a sleeper is woken by the next notification.
sleep_loop-asleep :
    (seq : ℕ) (moments : List Moment)
    → StaysReady seq moments
    → IsNotified moments
    → WakesUp seq moments (sleep_loop asleep seq moments)
unfolding sleep_loop
sleep_loop-asleep seq [] ready comes = absurd comes
sleep_loop-asleep seq (m ∷ moments) ready comes = elim (Bool-cases m.notified) [
  | inl e ↦ simp (e, ready.0) (WakesUp-now m moments ready.0)
  | inr e ↦ simp e (WakesUp-later m (sleep_loop-asleep seq moments ready.1 (later e comes)))
]
  where
    later : m.notified ≡ false → (m.notified ≡ true) ⊎ IsNotified moments → IsNotified moments
    later e (inl t) = cc
    later e (inr r) = r

-- Where every check passes, a waiter at the lock does not sleep.
sleep_loop-ready :
    (stage : Stage) (seq : ℕ) (moments : List Moment)
    → StaysReady seq moments
    → IsNotified moments
    → WakesUp seq moments (sleep_loop stage seq moments)
unfolding sleep_loop
sleep_loop-ready asleep seq moments ready comes = sleep_loop-asleep seq moments ready comes
sleep_loop-ready locking seq [] ready comes = absurd comes
sleep_loop-ready locking seq (m ∷ moments) ready comes = rw ready.0 (WakesUp-now m moments ready.0)

sleep_loop-WakesUp :
    (stage : Stage) (seq : ℕ) (early late : List Moment)
    → StaysReady seq late
    → IsNotified late
    → WakesUp seq (early ++ late) (sleep_loop stage seq (early ++ late))
unfolding sleep_loop
sleep_loop-WakesUp stage seq [] late ready comes = sleep_loop-ready stage seq late ready comes
sleep_loop-WakesUp locking seq (m ∷ early) late ready comes =
    elim (Bool-cases (check seq m.sight)) [
      | inl e ↦ rw e (WakesUp-now m (early ++ late) e)
      | inr e ↦ simp e (WakesUp-later m (sleep_loop-WakesUp asleep seq early late ready comes))
    ]
sleep_loop-WakesUp asleep seq (m ∷ early) late ready comes = elim (Bool-cases m.notified) [
  | inr e ↦ simp e (WakesUp-later m (sleep_loop-WakesUp asleep seq early late ready comes))
  | inl e ↦ elim (Bool-cases (check seq m.sight)) [
    | inl e' ↦ simp (e, e') (WakesUp-now m (early ++ late) e')
    | inr e' ↦
        simp (e, e') (WakesUp-later m (sleep_loop-WakesUp locking seq early late ready comes))
  ]
]

-- A spin with enough sights returns right after the first check that passes, or has failed all.
spin_cases :
    (spins seq : ℕ) (sights : List Sight)
    → spins ≤ length sights
    → (IsReady seq sights × (spin spins seq sights ≡ ok (true, after_ready seq sights)))
      ⊎ ((rest : List Sight) × (spin spins seq sights ≡ ok (false, rest))
          × (length sights ≡ length rest + spins)
          × (IsReady seq rest
              → IsReady seq sights × (after_ready seq rest ≡ after_ready seq sights)))
unfolding spin
spin_cases zero seq sights h = inr (sights, refl, omega arith, λ r. (r, refl))
spin_cases (suc spins) seq [] h = absurd (omega arith)
spin_cases (suc spins) seq (s ∷ sights) h = elim (Bool-cases (check seq s)) [
  | inl e ↦ inl (inl e, rw e refl)
  | inr e ↦ elim (spin_cases spins seq sights (omega arith)) [
    | inl (r, ends) ↦ inl (inr r, rw e ends)
    | inr (rest, ends, count, same) ↦
        inr (rest, rw e ends, omega arith, λ r. (inr (same r).0, rw e (same r).1))
  ]
]

-- The two ways that a `BlockingWait` can return.
pub record SpinsOut (seq : ℕ) (sights : List Sight) (moments : List Moment)
    (result : Result Fault (List Sight × List Moment)) : Type 0 where
  pub ready : IsReady seq sights
  pub returned : result ≡ ok (after_ready seq sights, moments)

pub record SleepsOut (seq : ℕ) (moments : List Moment)
    (result : Result Fault (List Sight × List Moment)) : Type 0 where
  pub sights_left : List Sight
  pub before : List Moment
  pub now : Moment
  pub rest : List Moment
  pub splits : moments ≡ before ++ (now ∷ rest)
  pub passes : check seq now.sight ≡ true
  pub returned : result ≡ ok (sights_left, rest)

-- With enough sights for its spins, and if at the moments behind some of the first ones every
-- check passes and some notification comes, `BlockingWait` returns: after the first check among
-- the sights that passes, or at a moment at which the check passes.
pub blocking_wait-returns :
    (w : Spins) (seq : ℕ) (sights : List Sight) (early late : List Moment)
    → w.spins_first + w.spins_yield ≤ length sights
    → StaysReady seq late
    → IsNotified late
    → SpinsOut seq sights (early ++ late) (blocking_wait w seq sights (early ++ late))
      ⊎ SleepsOut seq (early ++ late) (blocking_wait w seq sights (early ++ late))
unfolding blocking_wait
blocking_wait-returns w seq sights early late enough ready comes =
    elim (spin_cases w.spins_first seq sights (omega arith)) [
      | inl (r, ends) ↦ inl (record { ready = r; returned = rw ends refl })
      | inr (rest, ends, count, same) ↦
          elim (spin_cases w.spins_yield seq rest (omega (arith, count))) [
            | inl (r, ends') ↦ inl (record {
              ready = (same r).0;
              returned = rw (ends, ends') (ap (λ l. ok (l, early ++ late)) (same r).1);
            })
            | inr (rest', ends', count', same') ↦
                let s = sleep_loop-WakesUp locking seq early late ready comes in
                inr (record {
                  sights_left = rest';
                  before = s.before;
                  now = s.now;
                  rest = s.rest;
                  splits = s.splits;
                  passes = s.passes;
                  returned = rw (ends, ends', s.returned) refl;
                })
          ]
    ]

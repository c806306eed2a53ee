-- ===== src/Refinement/Futures/Wakeups.antt =====
-- No notification is missed: the interleavings of `park`, `notify` and the changes that they wait for.
use multiqueue.Prelude.{
  ℕ, zero, suc, ◌+◌, ◌<◌, ◌≡◌, dec_lt, refl, ap, ◌∙◌, ◌⊎◌, inl, inr, List, [], ◌∷◌, ◌++◌, Option,
  none, some, false, length-append, arith, All, All-append_last, length,
}
use multiqueue.Wait.{check}
use multiqueue.MultiQueue.Futures.Wait
use multiqueue.MultiQueue.Futures.Wait.{FutWait, push}
use multiqueue.MultiQueue.Futures.Steps.{
  Waiter, Waking, Step, changes, locks, parks, drains, wakes, wakes_all, Reach, start, later,
}
use multiqueue.Refinement.Futures.Waking.{notify-eq-notify_all}

module _ {ℓ} {Task : Type ℓ} where
  -- A waiter whose cell has nothing for it yet.
  abbrev pub IsEarly : Waking Task → Waiter Task → Type 0
  IsEarly s w = check w.seq (s.sights w.at) ≡ false

  -- Whoever holds the lock behind its check.
  abbrev HoldsEarly : Waking Task → Option (Waiter Task) → Type 0
  HoldsEarly s none = Unit
  HoldsEarly s (some w) = IsEarly s w

  -- As long as no call of `notify` is still to come, nobody who waits is in for a surprise.
  record IsCalm (s : Waking Task) : Type ℓ where
    pub parked : All (IsEarly s) s.wait.parked
    pub holder : HoldsEarly s s.holder

  IsSound : Waking Task → Type ℓ
  IsSound s = (0 < s.owed) ⊎ IsCalm s

  Step-IsSound : {s t : Waking Task} → Step s t → IsSound s → IsSound t
  unfolding IsSound Wait.notify_all
  Step-IsSound (changes sights) sound = inl (omega arith)
  Step-IsSound (locks w e early) (inl some_owed) = inl some_owed
  Step-IsSound (locks w e early) (inr c) = inr (record { parked = c.parked; holder = early })
  Step-IsSound (parks w e) (inl some_owed) = inl some_owed
  Step-IsSound {s} (parks w e) (inr c) = inr (record {
    parked = All-append_last (IsEarly s) s.wait.parked w c.parked (rw e at c.holder);
    holder = tt;
  })
  Step-IsSound {s} (drains e lt few) sound = inr (record { parked = tt; holder = rw e tt })
  Step-IsSound (wakes w ws e) (inl some_owed) = inl some_owed
  Step-IsSound (wakes w ws e) (inr c) = inr (record { parked = c.parked; holder = c.holder })
  Step-IsSound {s} (wakes_all e lt many) sound =
      inr (record { parked = rw (notify-eq-notify_all s.wait s.woken) tt; holder = rw e tt })

  Reach-IsSound : {a b : ℕ} {s : Waking Task} → Reach a b s → IsSound s
  unfolding IsSound Wait.with_spins
  Reach-IsSound (start sights) = inr (record { parked = tt; holder = tt })
  Reach-IsSound (later r step) = Step-IsSound step (Reach-IsSound r)

  -- In a state that the threads can get into from a fresh `FutWait`, and in which no call of
  -- `notify` is still to come, the check of each task in the list fails.
  pub no_lost_wakeup :
      {a b : ℕ} (s : Waking Task) → Reach a b s → s.owed ≡ 0 → All (IsEarly s) s.wait.parked
  unfolding IsSound
  no_lost_wakeup s r settled = elim (Reach-IsSound r) [
    | inl some_owed ↦ absurd (omega (arith, some_owed))
    | inr c ↦ c.parked
  ]

  pub data Steps : Waking Task → Waking Task → Type ℓ where
    stop : {s : Waking Task} → Steps s s
    go : {s t u : Waking Task} → Step s t → Steps t u → Steps s u

  abbrev held : Option (Waiter Task) → ℕ
  held none = 0
  held (some w) = 1

  -- How many waiters there are: awake again, taken out, in the list, or about to go there.
  abbrev pub waiters : Waking Task → ℕ
  waiters s = length s.woken + length s.inline_v + length s.wait.parked + held s.holder

  -- All calls of `notify` are through, and nobody has got lost.
  pub record Settles (s : Waking Task) : Type ℓ where
    pub final : Waking Task
    pub path : Steps s final
    pub none_owed : final.owed ≡ 0
    pub none_left : final.inline_v ≡ []
    pub kept : waiters final ≡ waiters s
    pub emptied : (0 < s.owed) ⊎ ((s.wait.parked ≡ []) × (s.holder ≡ none)) → final.wait.parked ≡ []
    pub same_sights : final.sights ≡ s.sights

  wakes-Settles :
      (ws : List (Waiter Task)) (s : Waking Task) → s.inline_v ≡ ws → s.owed ≡ 0 → Settles s
  wakes-Settles [] s e none_owed = record {
    final = s;
    path = stop;
    none_owed = none_owed;
    none_left = e;
    kept = refl;
    emptied = nobody;
    same_sights = refl;
  }
    where
      nobody : (0 < s.owed) ⊎ ((s.wait.parked ≡ []) × (s.holder ≡ none)) → s.wait.parked ≡ []
      nobody (inl lt) = absurd (omega arith)
      nobody (inr n) = n.0
  wakes-Settles (w ∷ ws) s e none_owed =
      let r =
        wakes-Settles ws (record s { inline_v = ws; woken = s.woken ++ (w ∷ []) }) refl none_owed in
      record {
        final = r.final;
        path = go (wakes w ws e) r.path;
        none_owed = r.none_owed;
        none_left = r.none_left;
        kept = omega (
          arith,
          r.kept,
          length-append s.woken (w ∷ []),
          ap (λ (l : List (Waiter Task)). length l) e,
        );
        emptied = r.emptied;
        same_sights = r.same_sights;
      }

  -- A step that leaves the list empty, on the way.
  emptying-Settles :
      {s u : Waking Task}
      → Step s u
      → (waiters u ≡ waiters s) × (u.sights ≡ s.sights)
      → (u.wait.parked ≡ []) × (u.holder ≡ none)
      → Settles u
      → Settles s
  emptying-Settles step same empty r = record {
    final = r.final;
    path = go step r.path;
    none_owed = r.none_owed;
    none_left = r.none_left;
    kept = r.kept ∙ same.0;
    emptied = λ _. r.emptied (inr empty);
    same_sights = r.same_sights ∙ same.1;
  }

  drains-Settles : (n : ℕ) (s : Waking Task) → s.owed ≡ n → s.holder ≡ none → Settles s
  unfolding Wait.notify_all
  drains-Settles zero s e free = wakes-Settles s.inline_v s refl e
  drains-Settles (suc n) s e free = elim (dec_lt 8 (length s.wait.parked)) [
    | yes many ↦
        emptying-Settles (wakes_all free (omega arith) many)
          (
            rw (notify-eq-notify_all s.wait s.woken)
                (omega (arith, length-append s.woken s.wait.parked)),
            refl,
          )
          (rw (notify-eq-notify_all s.wait s.woken) refl, free)
          (drains-Settles n _ (omega arith) free)
    | no few ↦
        emptying-Settles (drains free (omega arith) (omega arith))
          (omega (arith, length-append s.inline_v s.wait.parked), refl) (refl, free)
          (drains-Settles n _ (omega arith) free)
  ]

  -- From every state some steps lead to one with the same cells in which no call of `notify` is
  -- still to come and every task that was taken out has been notified; the tasks woken, taken
  -- out, in the list and about to go there are as many as before; and the list is empty if a call
  -- was to come, or if it was empty and nobody held the lock.
  pub notify-Settles : (s : Waking Task) → Settles s
  notify-Settles s = by_holder s.holder refl
    where
      by_holder : (h : Option (Waiter Task)) → s.holder ≡ h → Settles s
      by_holder none e = drains-Settles s.owed s refl e
      by_holder (some w) e =
          let r =
            drains-Settles s.owed (record s { holder = none; wait = push w s.wait }) refl refl in
          record {
            final = r.final;
            path = go (parks w e) r.path;
            none_owed = r.none_owed;
            none_left = r.none_left;
            kept = r.kept ∙ rw e (omega (arith, length-append s.wait.parked (w ∷ [])));
            emptied = λ o. elim o [ inl lt ↦ r.emptied (inl lt) | inr n ↦ absurd cc ];
            same_sights = r.same_sights;
          }

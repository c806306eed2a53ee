-- ===== src/Refinement/Threads/Consuming.antt =====
-- A consumer that is left alone ends its call, wherever it stands.
use multiqueue.Prelude.{
  ℕ, ◌-◌, ◌^◌, ◌<◌, ◌≡◌, ◌≢◌, ◌⊎◌, refl, ap, ◌∙◌, inl, inr, List, [], ◌∷◌, ◌++◌, Option, none, some,
  false, Bool-cases, ◌==◌, ==_iff, get_or,
}
use multiqueue.CountedIndex
use multiqueue.CountedIndex.{CountedIndex, Transaction, rm_tag}
use multiqueue.CountedIndex.Bounds.{commit_lem}
use multiqueue.Heap.{update_self}
use multiqueue.ReadCursor.Attempt
use multiqueue.ReadCursor.Attempt.{Reader, single, multi, ReadAttempt}
use multiqueue.MultiQueue.Policy.{QueueRw}
use multiqueue.MultiQueue.State.{blank}
use multiqueue.MultiQueue.Recv.{inc_ref, dec_ref}
use multiqueue.MultiQueue.Threads.{
  Pc, attempted, seen, counted, current, lapsed, taken, released, Shared, System, finds_none, sees,
  takes_alone, counts, still_there, comes_late, tries_again, takes, releases, misses, gives,
}
use multiqueue.Refinement.Log.{position}
use multiqueue.Refinement.Rounds.{ReaderState-cases}
use multiqueue.Refinement.Threads.Receivers.{commit_attempt-some}
use multiqueue.Refinement.Threads.Alone.{Finishes, moves, returns}
use multiqueue.Refinement.Threads.Values.{HasValue, IsFilled}

-- The stream has given out what it had before, or one value more.
abbrev pub Gives {ℓ} : {T : Type ℓ} → List T → ℕ → Shared T → Type ℓ
Gives {T = T} before r m = (m.given r ≡ before) ⊎ ((val : T) × (m.given r ≡ before ++ (val ∷ [])))

-- The handle with which a thread is receiving.
abbrev pub receiver {ℓ} : {T : Type ℓ} → Pc T → Option Reader
receiver (attempted r a) = some r
receiver (seen r a) = some r
receiver (counted r a) = some r
receiver (current r a) = some r
receiver (lapsed r a) = some r
receiver (taken r a val) = some r
receiver (released r a val) = some r
receiver _ = none

-- Nothing is known of the attempt.
abbrev pub Unknown : ReadAttempt → CountedIndex → Type 0
Unknown a c = Unit

-- An attempt at the stream's position commits.
commit_attempt-fresh :
    (c : CountedIndex) (a : ReadAttempt)
    → c.val ≡ a.linked.loaded_vals
    → (pos : CountedIndex) × (Attempt.commit_attempt c a 1 false ≡ (none, pos))
unfolding Attempt.commit_attempt
commit_attempt-fresh c a here = elim (ReaderState-cases a.state) [
  | inl alone ↦ (CountedIndex.commit_direct c a.linked 1, rw alone refl)
  | inr shared ↦ elim (commit_lem c a.linked 1 false) [
    | inl (won, _) ↦ (CountedIndex.commit_direct c a.linked 1, rw (shared, won) refl)
    | inr (_, inl ne) ↦ absurd (ne here)
    | inr (_, inr no_reason) ↦ cc
  ]
]

module _ {ℓ} {T : Type ℓ} (p : QueueRw T) (sole : ℕ → Option ℕ) (i : ℕ) (before : List T)
    (r : Reader) where
  abbrev pub Ends : System T → Type ℓ
  Ends s = Finishes p sole i (Gives before r.pos) s

  abbrev pub here : System T → CountedIndex
  here s = position s.shared.queue r.pos

  -- What the thread leaves as it is until it commits.
  pub record IsReady (s : System T) : Type ℓ where
    pub filled : IsFilled s.shared.queue.cells
    pub low : (here s).val < 2 ^ 63 - 1
    pub same : s.shared.given r.pos ≡ before

  -- The places before the commit, for what is known of the attempt and the position.
  module _ (P : ReadAttempt → CountedIndex → Type 0)
      (released_ends : (s : System T) (a : ReadAttempt) (val : T)
        → s.pc i ≡ released r a val
        → P a (here s)
        → IsReady s
        → Ends s)
      (lapsed_ends : (s : System T) (a : ReadAttempt)
        → s.pc i ≡ lapsed r a
        → ((here s).val ≢ a.linked.loaded_vals)
        → P a (here s)
        → IsReady s
        → Ends s) where
    pub taken-Ends :
        (s : System T) (a : ReadAttempt) (val : T)
        → s.pc i ≡ taken r a val
        → P a (here s)
        → IsReady s
        → Ends s
    unfolding dec_ref
    taken-Ends s a val at known ok = moves p sole i (Gives before r.pos) at releases (
        released_ends _ a val (update_self s.pc i (released r a val)) known
          (record { filled = ok.filled; low = ok.low; same = ok.same }))

    pub current-Ends :
        (s : System T) (a : ReadAttempt)
        → s.pc i ≡ current r a
        → HasValue s.shared.queue.cells (Attempt.get a).0
        → P a (here s)
        → IsReady s
        → Ends s
    current-Ends s a at (v, there) known ok =
        moves p sole i (Gives before r.pos) at (takes v there) (
          taken-Ends _ a (p.get_val v) (update_self s.pc i (taken r a (p.get_val v))) known
            (record { filled = ok.filled; low = ok.low; same = ok.same }))

    pub counted-Ends :
        (s : System T) (a : ReadAttempt)
        → s.pc i ≡ counted r a
        → HasValue s.shared.queue.cells (Attempt.get a).0
        → P a (here s)
        → IsReady s
        → Ends s
    unfolding Attempt.get CountedIndex.get
    counted-Ends s a at v known ok =
        elim (Bool-cases (Attempt.load_count s.shared.queue.manager.heap r == (Attempt.get a).1)) [
          | inl test ↦ moves p sole i (Gives before r.pos) at (still_there test) (
              current-Ends _ a (update_self s.pc i (current r a)) v known
                (record { filled = ok.filled; low = ok.low; same = ok.same }))
          | inr test ↦ moves p sole i (Gives before r.pos) at (comes_late test) (
              lapsed_ends _ a (update_self s.pc i (lapsed r a))
                (λ e. cc (test, (==_iff (here s).val a.linked.loaded_vals).1 e)) known
                (record { filled = ok.filled; low = ok.low; same = ok.same }))
        ]

    pub seen-Ends :
        (s : System T) (a : ReadAttempt)
        → s.pc i ≡ seen r a
        → HasValue s.shared.queue.cells (Attempt.get a).0
        → P a (here s)
        → IsReady s
        → Ends s
    unfolding inc_ref
    seen-Ends s a at (v, there) known ok = elim (ReaderState-cases a.state) [
      | inl alone ↦ moves p sole i (Gives before r.pos) at (takes_alone v alone there) (
          released_ends _ a (p.get_val v) (update_self s.pc i (released r a (p.get_val v))) known
            (record { filled = ok.filled; low = ok.low; same = ok.same }))
      | inr shared ↦ moves p sole i (Gives before r.pos) at (counts shared) (
          counted-Ends _ a (update_self s.pc i (counted r a)) (v, there) known
            (record { filled = ok.filled; low = ok.low; same = ok.same }))
    ]

    pub attempted-Ends :
        (s : System T) (a : ReadAttempt)
        → s.pc i ≡ attempted r a
        → a.linked.loaded_vals < 2 ^ 63 - 1
        → P a (here s)
        → IsReady s
        → Ends s
    unfolding Attempt.get CountedIndex.get
    attempted-Ends s a at lt known ok =
        elim (Bool-cases (
          rm_tag (get_or s.shared.queue.cells (Attempt.get a).0 blank).wraps
          == (Attempt.get a).1)) [
            | inl test ↦ moves p sole i (Gives before r.pos) at (sees test) (
                seen-Ends _ a (update_self s.pc i (seen r a))
                  (ok.filled (Attempt.get a).0 (rw ((==_iff _ a.linked.loaded_vals).0 test) lt))
                  known (record { filled = ok.filled; low = ok.low; same = ok.same }))
            | inr test ↦ returns p sole i (Gives before r.pos) at (finds_none test) (inl ok.same)
          ]

  abbrev IsFresh : ReadAttempt → CountedIndex → Type 0
  IsFresh a c = c.val ≡ a.linked.loaded_vals

  gives-Ends :
      (s : System T) (a : ReadAttempt) (val : T) (pos : CountedIndex)
      → s.pc i ≡ released r a val
      → Attempt.commit_attempt (here s) a 1 false ≡ (none, pos)
      → IsReady s
      → Ends s
  gives-Ends s a val pos at e ok = returns p sole i (Gives before r.pos) at (gives false pos e) (
      inr (
        val,
        update_self s.shared.given r.pos (s.shared.given r.pos ++ (val ∷ []))
            ∙ ap (λ (l : List T). l ++ (val ∷ [])) ok.same,
      ))

  fresh-Ends :
      (s : System T) (a : ReadAttempt)
      → s.pc i ≡ attempted r a
      → a.linked.loaded_vals < 2 ^ 63 - 1
      → IsFresh a (here s)
      → IsReady s
      → Ends s
  fresh-Ends =
      attempted-Ends IsFresh
        (λ s a val at known ok.
          let (pos, e) = commit_attempt-fresh (here s) a known in gives-Ends s a val pos at e ok)
        (λ s a at ne known ok. absurd (ne known))

  -- A commit that fails is tried again, and then succeeds.
  released-Ends :
      (s : System T) (a : ReadAttempt) (val : T) (out : Option ReadAttempt × CountedIndex)
      → Attempt.commit_attempt (here s) a 1 false ≡ out
      → s.pc i ≡ released r a val
      → IsReady s
      → Ends s
  released-Ends s a val (none, pos) e at ok = gives-Ends s a val pos at e ok
  released-Ends s a val (some again, pos) e at ok =
      let (_, back, new) = commit_attempt-some (here s) pos a again false e in
      moves p sole i (Gives before r.pos) at (misses false again pos e) (
        fresh-Ends _ again (update_self s.pc i (attempted r again)) (rw new ok.low)
          (ap CountedIndex.val (update_self (position s.shared.queue) r.pos pos)
            ∙ rw (new, back) refl)
          (record {
            filled = ok.filled;
            low = rw (update_self (position s.shared.queue) r.pos pos) (rw back ok.low);
            same = ok.same;
          }))

  pub lapsed-Ends : (s : System T) (a : ReadAttempt) → s.pc i ≡ lapsed r a → IsReady s → Ends s
  unfolding dec_ref Attempt.reload CountedIndex.reload
  lapsed-Ends s a at ok = moves p sole i (Gives before r.pos) at tries_again (
      fresh-Ends _ (Attempt.reload (here s) a)
        (update_self s.pc i (attempted r (Attempt.reload (here s) a))) ok.low refl
        (record { filled = ok.filled; low = ok.low; same = ok.same }))

  pub released-Unknown :
      (s : System T) (a : ReadAttempt) (val : T)
      → s.pc i ≡ released r a val
      → Unknown a (here s)
      → IsReady s
      → Ends s
  released-Unknown s a val at known ok =
      released-Ends s a val (Attempt.commit_attempt (here s) a 1 false) refl at ok

  pub lapsed-Unknown :
      (s : System T) (a : ReadAttempt)
      → s.pc i ≡ lapsed r a
      → ((here s).val ≢ a.linked.loaded_vals)
      → Unknown a (here s)
      → IsReady s
      → Ends s
  lapsed-Unknown s a at ne known ok = lapsed-Ends s a at ok

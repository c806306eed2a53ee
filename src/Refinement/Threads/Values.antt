-- ===== src/Refinement/Threads/Values.antt =====
-- A cell whose flag has been set holds a value from then on, also for a consumer that is too late.
use native.Mathlib.Decide.{dec_le, ℕ_discrete}
use native.Mathlib.Nat.{mod-eq_of_lt, mod-lt, div-add-mod, add-mul-mod_self_left}
use multiqueue.Prelude.{
  ℕ, zero, suc, ◌+◌, ◌-◌, ◌*◌, ◌/◌, ◌%◌, ◌^◌, ◌≤◌, ◌<◌, ◌≡◌, ◌⊎◌, inl, inr, refl, sym, ap, ◌∙◌,
  List, [], ◌∷◌, Option, some, arith, All-Elem, Elem, length, get_elem?-lt, get_or, set, ==_iff, ok,
  length-append,
}
use multiqueue.CountedIndex
use multiqueue.CountedIndex.{rm_tag}
use multiqueue.CountedIndex.Bounds.{rm_tag_lem, get_lem}
use multiqueue.ReadCursor.Attempt
use multiqueue.ReadCursor.Attempt.{Reader, ReadAttempt}
use multiqueue.Heap.{update_self, update_ne}
use multiqueue.MultiQueue.Policy.{QueueRw, IsLawful}
use multiqueue.MultiQueue.State.{QueueEntry, MultiQueue, blank}
use multiqueue.MultiQueue.Send.{reload_tail_multi}
use multiqueue.MultiQueue.Recv.{inc_ref, dec_ref}
use multiqueue.MultiQueue.Threads.{
  Pc, idle, attempted, seen, counted, current, cell_of, Shared, System, Move, begins_send,
  stays_full, finds_room, writes, publishes, sees, counts, still_there, pick, Reach, start, later,
  put_val, publish,
}
use multiqueue.Refinement.Log.{readers, position, InWindow, IsLog}
use multiqueue.Refinement.Threads.Sound.{view, Tries, Local, Sound}
use multiqueue.Refinement.Threads.Reached.{Move-sent, Reach-Sound}

-- The cell at an index holds some value.
abbrev pub HasValue {ℓ} : {T : Type ℓ} → List (QueueEntry T) → ℕ → Type ℓ
HasValue {T = T} cells c = (val : T) × ((get_or cells c blank).val ≡ some val)

abbrev pub IsFilled {ℓ} : {T : Type ℓ} → List (QueueEntry T) → Type ℓ
IsFilled cells = (c : ℕ) → rm_tag (get_or cells c blank).wraps < 2 ^ 63 - 1 → HasValue cells c

-- A consumer that has seen the flag finds a value.
abbrev pub Reads {ℓ} : {T : Type ℓ} → List (QueueEntry T) → Pc T → Type ℓ
Reads cells (seen r a) = HasValue cells (Attempt.get a).0
Reads cells (counted r a) = HasValue cells (Attempt.get a).0
Reads cells (current r a) = HasValue cells (Attempt.get a).0
Reads cells _ = Unit

reload_cells {ℓ} :
    {T : Type ℓ} (q q' : MultiQueue T) (tail c new_tail : ℕ)
    → reload_tail_multi q tail c ≡ ok (q', new_tail)
    → q'.cells ≡ q.cells
unfolding reload_tail_multi
reload_cells q q' tail c new_tail e = ground arith

-- A cell after a write is the new one, or as it was.
get_or-set_cases {ℓ} :
    {A : Type ℓ} (xs : List A) (i c : ℕ) (v d : A)
    → (get_or (set xs i v) c d ≡ v) ⊎ (get_or (set xs i v) c d ≡ get_or xs c d)
get_or-set_cases [] i c v d = inr refl
get_or-set_cases (x ∷ xs) zero zero v d = inl refl
get_or-set_cases (x ∷ xs) zero (suc c) v d = inr refl
get_or-set_cases (x ∷ xs) (suc i) zero v d = inr refl
get_or-set_cases (x ∷ xs) (suc i) (suc c) v d = get_or-set_cases xs i c v d

-- The cells stay as they are, or one gets a value.
abbrev CellsMove {ℓ} : {T : Type ℓ} → List (QueueEntry T) → List (QueueEntry T) → Type ℓ
CellsMove {T = T} cells cells' =
    (cells' ≡ cells)
    ⊎ ((j : ℕ) × (entry : QueueEntry T) × (val : T) × (cells' ≡ set cells j entry)
        × (entry.val ≡ some val))

module _ {ℓ} {T : Type ℓ} (cells cells' : List (QueueEntry T)) (move : CellsMove cells cells') where
  HasValue-kept : (c : ℕ) → HasValue cells c → HasValue cells' c
  HasValue-kept c (v, e) = elim move [
    | inl same ↦ (v, rw same e)
    | inr (j, entry, val, by, there) ↦ elim (get_or-set_cases cells j c entry blank) [
      | inl new ↦ (val, rw (by, new) there)
      | inr old ↦ (v, rw (by, old) e)
    ]
  ]

  IsFilled-kept : IsFilled cells → IsFilled cells'
  IsFilled-kept filled c flag = elim move [
    | inl same ↦ HasValue-kept c (filled c (rw same at flag))
    | inr (j, entry, val, by, there) ↦ elim (get_or-set_cases cells j c entry blank) [
      | inl new ↦ (val, rw (by, new) there)
      | inr old ↦ HasValue-kept c (filled c (rw (by, old) at flag))
    ]
  ]

  Reads-kept : (x : Pc T) → Reads cells x → Reads cells' x
  Reads-kept (seen r a) f = HasValue-kept (Attempt.get a).0 f
  Reads-kept (counted r a) f = HasValue-kept (Attempt.get a).0 f
  Reads-kept (current r a) f = HasValue-kept (Attempt.get a).0 f
  Reads-kept idle f = tt
  Reads-kept _ f = tt

module _ {ℓ} {T : Type ℓ} {p : QueueRw T} (k : ℕ) (sole : ℕ → Option ℕ) (i : ℕ) where
  Move-cells :
      {m m' : Shared T} {x x' : Pc T}
      → Move p sole i m x m' x'
      → Local k sole i (view m) x
      → CellsMove m.queue.cells m'.queue.cells
  unfolding put_val publish inc_ref dec_ref
  Move-cells {m} (writes {t} {val}) f = inr (cell_of t, _, val, refl, refl)
  Move-cells {m} (publishes {t} {val}) f = inr (
    cell_of t,
    _,
    val,
    refl,
    ap (λ (c : ℕ × ℕ). (get_or m.queue.cells c.0 blank).val) (get_lem t k f.0.mask) ∙ f.1,
  )
  Move-cells {m} (stays_full {t} {val} {tail_cache} q new_tail e test) f =
      inl (reload_cells m.queue q tail_cache (CountedIndex.get t).1 new_tail e)
  Move-cells {m} (finds_room {t} {val} {tail_cache} q new_tail e test) f =
      inl (reload_cells m.queue q tail_cache (CountedIndex.get t).1 new_tail e)
  Move-cells {m} (begins_send _) f = inl refl
  Move-cells {m} _ f = inl refl

  Move-Reads :
      {m m' : Shared T} {x x' : Pc T}
      → Move p sole i m x m' x'
      → ((r : Reader) (a : ReadAttempt) → x ≡ attempted r a → a.linked.loaded_vals < 2 ^ 63 - 1)
      → IsFilled m.queue.cells
      → Reads m.queue.cells x
      → Reads m'.queue.cells x'
  unfolding Attempt.get CountedIndex.get inc_ref
  Move-Reads {m} (sees {r} {a} test) low filled f =
      filled (Attempt.get a).0 (rw ((==_iff _ a.linked.loaded_vals).0 test) (low r a refl))
  Move-Reads {m} (counts {r} {a} shared) low filled f = f
  Move-Reads {m} (still_there {r} {a} test) low filled f = f
  Move-Reads {m} (begins_send _) low filled f = tt
  Move-Reads {m} _ low filled f = tt

get_or_beyond {ℓ} : {A : Type ℓ} (xs : List A) (i : ℕ) (d : A) → length xs ≤ i → get_or xs i d ≡ d
get_or_beyond [] i d le = refl
get_or_beyond (x ∷ xs) zero d le = absurd (omega arith)
get_or_beyond (x ∷ xs) (suc i) d le = get_or_beyond xs i d (omega arith)

-- The last position before n whose cell is c.
last_round : (w c n : ℕ) → c < w → c < n → (d : ℕ) × (d % w ≡ c) × (d < n) × (n ≤ d + w)
last_round w c n lt before = (
  c + w * ((n - 1 - c) / w),
  add-mul-mod_self_left c w ((n - 1 - c) / w) ∙ mod-eq_of_lt {n = c} {m = w} lt,
  omega (arith, div-add-mod (n - 1 - c) w),
  omega (arith, div-add-mod (n - 1 - c) w, mod-lt (n - 1 - c) {m = w} (omega arith)),
)

-- In a queue that stands for a log.
IsLog-IsFilled {ℓ} :
    {T : Type ℓ} {k : ℕ} {q : MultiQueue T} {sent : List T} → IsLog k q sent → IsFilled q.cells
IsLog-IsFilled {k} {q} {sent} log c flag = elim (dec_le (length sent) c) [
  | yes late ↦ absurd (
      omega (
        arith,
        let low : rm_tag CountedIndex.initial_queue_flag < 2 ^ 63 - 1 =
              rw (log.blanks c late) at flag in
            low,
        rm_tag_lem CountedIndex.initial_queue_flag,
      ))
  | no early ↦ elim (dec_le (2 ^ k) c) [
    | yes beyond ↦ absurd (
        omega (
          arith,
          let low : rm_tag CountedIndex.initial_queue_flag < 2 ^ 63 - 1 =
                rw (get_or_beyond q.cells c blank (omega (arith, log.cells_width))) at flag in
              low,
          rm_tag_lem CountedIndex.initial_queue_flag,
        ))
    | no within ↦
        let (d, same, lt, le) = last_round (2 ^ k) c (length sent) (omega arith) (omega arith) in
        let (val, there) = get_elem?-lt sent d lt in
        (
          val,
          ap (λ (j : ℕ). (get_or q.cells j blank).val) (sym same)
              ∙ ap QueueEntry.val (log.holds d lt le)
              ∙ there,
        )
  ]
]

pub record Values {ℓ} {T : Type ℓ} (s : System T) : Type ℓ where
  pub filled : IsFilled s.shared.queue.cells
  pub reads : (j : ℕ) → Reads s.shared.queue.cells (s.pc j)

-- The counters that a consumer looks at have not wrapped.
pub attempt_low {ℓ} :
    {T : Type ℓ} (k : ℕ) (sole : ℕ → Option ℕ) (first : ℕ → ℕ) (s : System T) (j : ℕ) (r : Reader)
    (a : ReadAttempt)
    → Sound k sole first (view s.shared) s.pc
    → Tries k sole j (view s.shared) r a
    → ((position s.shared.queue r.pos).val < 2 ^ 63 - 1) × (a.linked.loaded_vals < 2 ^ 63 - 1)
attempt_low k sole first s j r a sound f =
    let w : InWindow (2 ^ k) (length s.shared.sent) (position s.shared.queue r.pos) =
      All-Elem (λ r. InWindow (2 ^ k) (length s.shared.sent) (position s.shared.queue r)) r.pos
        (readers s.shared.queue) sound.store.streams f.is_stream in
    (omega (arith, w, sound.store.short), omega (arith, w, sound.store.short, f.reached))

module _ {ℓ} {T : Type ℓ} {p : QueueRw T} {sole : ℕ → Option ℕ} {threads : ℕ} {q : MultiQueue T}
    {sent : List T} {k : ℕ} (lawful : IsLawful p) (log : IsLog k q sent)
    (some_stream : (r : ℕ) × Elem r (readers q)) where
  pub Reach-Values :
      {s : System T} → Reach p sole threads q sent s → length s.shared.sent < 2 ^ 63 - 1 → Values s
  Reach-Values start short = record { filled = IsLog-IsFilled log; reads = λ j. tt }
  Reach-Values (later {s} r (pick i {m} {pc} in_range mv)) short =
      let (more, e) = Move-sent p sole mv in
      let low : length s.shared.sent < 2 ^ 63 - 1 =
        omega (arith, ap length e, length-append s.shared.sent more) in
      let sound : Sound k sole (λ r. (position q r).val) (view s.shared) s.pc =
        Reach-Sound lawful log some_stream r low in
      let before : Values s = Reach-Values r low in
      let move : CellsMove s.shared.queue.cells m.queue.cells =
        Move-cells k sole i mv (sound.locals i) in
      record {
        filled = IsFilled-kept s.shared.queue.cells m.queue.cells move before.filled;
        reads = λ j. elim (ℕ_discrete i j) [
          | yes e ↦ rw (← e) (
              rw (update_self s.pc i pc) (
                Move-Reads k sole i mv
                  (λ r a at.
                    (attempt_low k sole (λ r. (position q r).val) s i r a sound
                      (rw at at (sound.locals i))).1)
                  before.filled (before.reads i)))
          | no ne ↦
              rw (update_ne s.pc i j pc ne)
                (Reads-kept s.shared.queue.cells m.queue.cells move (s.pc j) (before.reads j))
        ];
      }

-- ===== src/Refinement/Threads/Alone.antt =====
-- What a thread does while the others stand still.
use multiqueue.Prelude.{ℕ, ◌≡◌, Option}
use multiqueue.Heap.{update, update_self}
use multiqueue.MultiQueue.Policy.{QueueRw}
use multiqueue.MultiQueue.Threads.{Pc, idle, Shared, System, Move, Alone, stop, go}

module _ {ℓ} {T : Type ℓ} (p : QueueRw T) (sole : ℕ → Option ℕ) (i : ℕ)
    (Out : Shared T → Type ℓ) where
  -- On its own the thread comes to the end of its call, and what is shared is then as expected.
  pub record Finishes (s : System T) : Type ℓ where
    pub final : System T
    pub steps : Alone p sole i s final
    pub ends : final.pc i ≡ idle
    pub outcome : Out final.shared

  pub moves :
      {s : System T} {m : Shared T} {x x' : Pc T}
      → s.pc i ≡ x
      → Move p sole i s.shared x m x'
      → Finishes (record { shared = m; pc = update s.pc i x' })
      → Finishes s
  moves {s} at mv f = record {
    final = f.final;
    steps = go (rw at mv) f.steps;
    ends = f.ends;
    outcome = f.outcome;
  }

  pub returns :
      {s : System T} {m : Shared T} {x : Pc T}
      → s.pc i ≡ x
      → Move p sole i s.shared x m idle
      → Out m
      → Finishes s
  returns {s} {m} at mv out = moves at mv (record {
    final = record { shared = m; pc = update s.pc i idle };
    steps = stop;
    ends = update_self s.pc i idle;
    outcome = out;
  })

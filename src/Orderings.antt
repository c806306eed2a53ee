-- ===== src/Orderings.antt =====
-- src/maybe_acquire.rs and src/consume.rs: the orderings of loads and the fence behind them, chosen by
-- the name of the target's architecture, which is an argument.
use Prim.Native.String.{String}
use text.Mathlib.Text.{◌==◌}
use multiqueue.Prelude.{
  ◌≡◌, refl, ◌⊎◌, inl, inr, List, [], ◌∷◌, Bool, Bool-cases, false, ◌||◌, Option, none, some,
  if◌then◌else◌,
}

-- The orderings of the standard library that the two files name.
pub data MemoryOrdering : Type 0 where
  relaxed acquire : MemoryOrdering

-- `any(target_arch = …)`
cfg_any : List String → String → Bool
cfg_any [] target_arch = false
cfg_any (name ∷ names) target_arch = (name == target_arch) || cfg_any names target_arch

abbrev acquiring_targets : List String
acquiring_targets = "x86" ∷ "x86_64" ∷ "aarch64" ∷ []

abbrev consuming_targets : List String
consuming_targets = "x64" ∷ "x64_64" ∷ "aarch64" ∷ "arm" ∷ []

pub maybe_acquire : String → MemoryOrdering
unfolding cfg_any
maybe_acquire target_arch = if cfg_any acquiring_targets target_arch then acquire else relaxed

-- The fence that is issued, if any.
pub maybe_acquire_fence : String → Option MemoryOrdering
unfolding cfg_any
maybe_acquire_fence target_arch =
    if cfg_any acquiring_targets target_arch then none else some acquire

pub consume : String → MemoryOrdering
unfolding cfg_any
consume target_arch = if cfg_any consuming_targets target_arch then relaxed else acquire

-- On every target either the load acquires, or the fence does.
maybe_acquire_once :
    (target_arch : String)
    → ((maybe_acquire target_arch ≡ acquire) × (maybe_acquire_fence target_arch ≡ none))
      ⊎ ((maybe_acquire target_arch ≡ relaxed) × (maybe_acquire_fence target_arch ≡ some acquire))
unfolding maybe_acquire maybe_acquire_fence
maybe_acquire_once target_arch = elim (Bool-cases (cfg_any acquiring_targets target_arch)) [
  | inl e ↦ inl (rw e refl, rw e refl)
  | inr e ↦ inr (rw e refl, rw e refl)
]

-- x86_64 is not among the names of src/consume.rs.
consume_x86_64 : consume "x86_64" ≡ acquire
unfolding consume
consume_x86_64 = refl

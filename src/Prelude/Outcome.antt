-- ===== src/Prelude/Outcome.antt =====
-- What a call can come to: `Result<T, E>` of the source, and the ways in which a run of it stops.

pub data Result {ℓ κ} (E : Type κ) (A : Type ℓ) : Type (ℓ ⊔ κ) where
  ok : A → Result E A
  err : E → Result E A

-- A panic of the source, or a run that the model does not follow to its end.
pub data Fault : Type 0 where
  -- the assertions of `validate_wrap`
  not_power_of_two : Fault
  too_large : Fault
  zero_size : Fault
  -- the panic of `Vec::with_capacity`
  capacity_overflow : Fault
  -- the `expect` of `reload_tail_single`
  ran_over : Fault
  -- a read of a cell that was never written, which is undefined behaviour
  uninit_read : Fault
  -- a read through the null pointer, likewise
  null_read : Fault
  -- the panic of `FutWait::wait`
  wait_called : Fault
  -- the outcomes supplied for the weak compare-exchanges have run out
  out_of_steps : Fault

-- A run goes on from a result, and stops at a fault.
infixl 5 ◌>>=◌
abbrev pub ◌>>=◌ {ℓ κ} :
    {A : Type ℓ} {B : Type κ} → Result Fault A → (A → Result Fault B) → Result Fault B
ok result >>= rest = rest result
err fault >>= rest = err fault

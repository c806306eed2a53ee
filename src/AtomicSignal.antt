-- ===== src/AtomicSignal.antt =====
-- src/atomicsignal.rs: the two flags by which the queue tells its handles that there is work to do.
use Prim.Native.Nat.{bit_and, bit_or}
use multiqueue.Prelude.{ℕ, ◌-◌, ◌^◌, ◌≡◌, refl, ◌⊎◌, inl, inr, Bool, true, false, not, ◌==◌}

abbrev pub update_epoch : ℕ
update_epoch = 1

abbrev pub no_reader : ℕ
no_reader = 2

-- `!flag` on a 64-bit word.
abbrev complement : ℕ → ℕ
complement flag = 2 ^ 64 - 1 - flag

-- The atomic word of `AtomicSignal`; a `LoadedSignal` is a copy of it.
pub record AtomicSignal : Type 0 where
  pub flags : ℕ

unfoldable pub new : AtomicSignal
new = record { flags = 0 }

pub record LoadedSignal : Type 0 where
  pub flags : ℕ

unfoldable pub load : AtomicSignal → LoadedSignal
load s = record { flags = s.flags }

-- `fetch_or` and `fetch_and` return the flags before the change.
unfoldable pub set_epoch : AtomicSignal → AtomicSignal × Bool
set_epoch s =
    (record s { flags = bit_or s.flags update_epoch }, not (bit_and s.flags update_epoch == 0))

unfoldable pub clear_epoch : AtomicSignal → AtomicSignal × Bool
clear_epoch s = (
  record s { flags = bit_and s.flags (complement update_epoch) },
  not (bit_and s.flags update_epoch == 0),
)

unfoldable pub set_reader : AtomicSignal → AtomicSignal × Bool
set_reader s = (record s { flags = bit_or s.flags no_reader }, not (bit_and s.flags no_reader == 0))

unfoldable pub clear_reader : AtomicSignal → AtomicSignal × Bool
clear_reader s = (
  record s { flags = bit_and s.flags (complement no_reader) },
  not (bit_and s.flags no_reader == 0),
)

unfoldable pub has_action : LoadedSignal → Bool
has_action l = not (l.flags == 0)

unfoldable pub get_epoch : LoadedSignal → Bool
get_epoch l = not (bit_and l.flags update_epoch == 0)

unfoldable pub get_reader : LoadedSignal → Bool
get_reader l = not (bit_and l.flags no_reader == 0)

-- The word with the flags given.
abbrev pub signal_of : Bool → Bool → AtomicSignal
signal_of false false = record { flags = 0 }
signal_of true false = record { flags = 1 }
signal_of false true = record { flags = 2 }
signal_of true true = record { flags = 3 }

-- On the word that stands for the two flags, each of the four operations changes its own flag,
-- returns what it was, and leaves the other alone.
pub signal_updates :
    (e r : Bool)
    → (set_epoch (signal_of e r) ≡ (signal_of true r, e))
      × (clear_epoch (signal_of e r) ≡ (signal_of false r, e))
      × (set_reader (signal_of e r) ≡ (signal_of e true, r))
      × (clear_reader (signal_of e r) ≡ (signal_of e false, r))
unfolding set_epoch clear_epoch set_reader clear_reader
signal_updates false false = (refl, refl, refl, refl)
signal_updates true false = (refl, refl, refl, refl)
signal_updates false true = (refl, refl, refl, refl)
signal_updates true true = (refl, refl, refl, refl)

-- What a handle reads off a loaded word.
pub signal_reads :
    (e r : Bool)
    → let l = load (signal_of e r) in
      (get_epoch l ≡ e)
      × (get_reader l ≡ r)
      × ((has_action l ≡ false) ⊎ ((e ≡ true) ⊎ (r ≡ true)))
      × ((has_action l ≡ true) ⊎ ((e ≡ false) × (r ≡ false)))
unfolding load get_epoch get_reader has_action
signal_reads false false = (refl, refl, inl refl, inr (refl, refl))
signal_reads true false = (refl, refl, inr (inl refl), inl refl)
signal_reads false true = (refl, refl, inr (inr refl), inl refl)
signal_reads true true = (refl, refl, inr (inl refl), inl refl)

-- ===== src/Word.antt =====
-- `usize` of a 64-bit target as a number below 2 ^ 64: the wrapping operations and the masks that
-- src/countedindex.rs uses, with the laws of `&` at a mask of ones and at a single bit.
use Prim.Native.Nat.{bit_and, bit_and-bitwise, digits, min}
use native.Mathlib.Nat.{
  pow-suc, one-le-pow, zero-mod, zero-div, mod-lt, mod-eq_of_lt, div-add-mod, add-mul-mod_self_left,
  div-div-eq-div-mul,
}
use mathlib.Core.Path.{ap, sym, ◌∙◌, ◌≡⟨◌⟩◌, ◌∎}
use multiqueue.Prelude.{ℕ, zero, suc, ◌+◌, ◌-◌, ◌*◌, ◌/◌, ◌%◌, ◌^◌, ◌≤◌, ◌<◌, ◌≡◌, refl, arith}

abbrev pub usize_mod : ℕ
usize_mod = 2 ^ 64

abbrev pub wrapping_add : ℕ → ℕ → ℕ
wrapping_add a b = (a + b) % usize_mod

-- `-` on ℕ stops at 0, so the modulus is added first.
abbrev pub wrapping_sub : ℕ → ℕ → ℕ
wrapping_sub a b = (a + usize_mod - b) % usize_mod

-- What `&` comes to on `fuel` digits.
abbrev common_digits : ℕ → ℕ → ℕ → ℕ
common_digits fuel val mask = digits (λ _. zero) min fuel val mask

-- The remainder modulo 2 m, from the half of a number and its lowest digit.
half-mod : (m a : ℕ) → 0 < m → a % (m * 2) ≡ a / 2 % m * 2 + a % 2
half-mod m a h =
    a % (m * 2)
    ≡⟨ ap (λ (t : ℕ). t % (m * 2)) parts ⟩ (low + m * 2 * (a / 2 / m)) % (m * 2)
    ≡⟨ add-mul-mod_self_left low (m * 2) (a / 2 / m) ⟩ low % (m * 2)
    ≡⟨ mod-eq_of_lt (omega (arith, mod-lt (a / 2) h)) ⟩ low ∎
  where
    low : ℕ
    low = a / 2 % m * 2 + a % 2

    parts : a ≡ low + m * 2 * (a / 2 / m)
    parts = omega (arith, div-add-mod (a / 2) m)

common_digits-zero : (fuel val : ℕ) → common_digits fuel val 0 ≡ 0
common_digits-zero zero val = refl
common_digits-zero (suc fuel) zero = refl
common_digits-zero (suc fuel) (suc val) = omega (arith, common_digits-zero fuel (suc val / 2))

zero-common_digits : (fuel mask : ℕ) → common_digits fuel 0 mask ≡ 0
zero-common_digits zero mask = refl
zero-common_digits (suc fuel) mask = refl

-- With as much fuel as the value, k ones keep the remainder modulo 2 ^ k.
common_digits_ones :
    (fuel k val : ℕ) → val ≤ fuel → common_digits fuel val (2 ^ k - 1) ≡ val % 2 ^ k
common_digits_ones fuel k zero h = zero-common_digits fuel (2 ^ k - 1) ∙ sym (zero-mod (2 ^ k))
common_digits_ones zero k (suc val) h = absurd (omega arith)
common_digits_ones (suc fuel) zero (suc val) h =
    omega (arith, common_digits-zero fuel (suc val / 2))
common_digits_ones (suc fuel) (suc k) (suc val) h = omega (
  arith,
  common_digits_ones fuel k (suc val / 2) (omega arith),
  pow-suc 2 k,
  one-le-pow k 2 (omega arith),
  ap (common_digits fuel (suc val / 2)) half_ones,
  half_ones,
  half-mod (2 ^ k) (suc val) (one-le-pow k 2 (omega arith)),
  ap (λ (t : ℕ). suc val % t) (pow-suc 2 k),
)
  where
    half_ones : (2 ^ suc k - 1) / 2 ≡ 2 ^ k - 1
    half_ones = omega (arith, pow-suc 2 k, one-le-pow k 2 (omega arith))

-- Likewise, the bit k alone keeps that digit of the value.
common_digits_bit :
    (fuel k val : ℕ) → val ≤ fuel → common_digits fuel val (2 ^ k) ≡ val / 2 ^ k % 2 * 2 ^ k
common_digits_bit fuel k zero h =
    zero-common_digits fuel (2 ^ k) ∙ rw (zero-div (2 ^ k)) (omega arith)
common_digits_bit zero k (suc val) h = absurd (omega arith)
common_digits_bit (suc fuel) zero (suc val) h = omega (arith, common_digits-zero fuel (suc val / 2))
common_digits_bit (suc fuel) (suc k) (suc val) h = omega (
  arith,
  common_digits_bit fuel k (suc val / 2) (omega arith),
  pow-suc 2 k,
  ap (common_digits fuel (suc val / 2)) half,
  shifted,
  ap (λ (t : ℕ). suc val / 2 ^ suc k % 2 * t) (pow-suc 2 k),
  ap (λ (t : ℕ). t % 2 * 2 ^ k) shifted,
)
  where
    half : 2 ^ suc k / 2 ≡ 2 ^ k
    half = omega (arith, pow-suc 2 k)

    shifted : suc val / 2 / 2 ^ k ≡ suc val / 2 ^ suc k
    shifted =
        div-div-eq-div-mul (suc val) 2 (2 ^ k)
        ∙ ap (λ (t : ℕ). suc val / t) (omega (arith, pow-suc 2 k))

pub bit_and_mask : (k a : ℕ) → bit_and a (2 ^ k - 1) ≡ a % 2 ^ k
bit_and_mask k a = bit_and-bitwise a (2 ^ k - 1) ∙ common_digits_ones a k a (omega arith)

pub bit_and_bit : (k a : ℕ) → bit_and a (2 ^ k) ≡ a / 2 ^ k % 2 * 2 ^ k
bit_and_bit k a = bit_and-bitwise a (2 ^ k) ∙ common_digits_bit a k a (omega arith)

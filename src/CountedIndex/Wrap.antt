-- ===== src/CountedIndex/Wrap.antt =====
-- Which capacities `get_valid_wrap` makes and `validate_wrap` accepts.
use native.Mathlib.Nat.{pow-suc, pow-le-pow_right, one-le-pow}
use native.Mathlib.Decide.{dec_le}
use multiqueue.Prelude.{
  ℕ, zero, suc, ◌+◌, ◌*◌, ◌^◌, ◌≤◌, ◌<◌, ◌≡◌, refl, ap, ◌⊎◌, inl, inr, true, false, arith, leb,
  ==_iff, Bool-cases, ok,
}
use multiqueue.CountedIndex.{
  max_wrap, doubling, next_power_of_two, is_power_of_two, get_valid_wrap, validate_wrap,
}

-- A power of two that is not below `val`, and the least such from 2 ^ j on.
record Doubled (j top val r : ℕ) : Type 0 where
  exponent : ℕ
  power : r ≡ 2 ^ exponent
  from : j ≤ exponent
  bounded : exponent ≤ top
  covers : val ≤ r
  least : (exponent ≡ j) ⊎ (r < val * 2)

doubling-Doubled :
    (rounds j top p val : ℕ)
    → p ≡ 2 ^ j
    → j + rounds ≡ top
    → val ≤ 2 ^ top
    → Doubled j top val (doubling rounds p val)
unfolding doubling
doubling-Doubled zero j top p val hp ht hv = record {
  exponent = j;
  power = hp;
  from = omega arith;
  bounded = omega arith;
  covers = omega (arith, ap (λ (t : ℕ). 2 ^ t) top_is);
  least = inl refl;
}
  where
    top_is : j ≡ top
    top_is = omega arith
doubling-Doubled (suc rounds) j top p val hp ht hv = elim (Bool-cases (leb val p)) [
  | inl small ↦
      rw (small, doubling)
        (record {
          exponent = j;
          power = hp;
          from = omega arith;
          bounded = omega arith;
          covers = ground arith;
          least = inl refl;
        })
  | inr big ↦
      rw (big, doubling)
        (widen big (doubling-Doubled rounds (suc j) top (p * 2) val doubled (omega arith) hv))
]
  where
    doubled : p * 2 ≡ 2 ^ suc j
    doubled = omega (arith, pow-suc 2 j)

    widen :
        leb val p ≡ false
        → Doubled (suc j) top val (doubling rounds (p * 2) val)
        → Doubled j top val (doubling rounds (p * 2) val)
    widen big d = record {
      exponent = d.exponent;
      power = d.power;
      from = omega (arith, d.from);
      bounded = d.bounded;
      covers = d.covers;
      least = elim d.least [
        | inl e ↦ inr (omega (arith, d.power, ap (λ (t : ℕ). 2 ^ t) e, doubled, above))
        | inr l ↦ inr l
      ];
    }
      where
        above : p < val
        above = ground arith

-- `next_power_of_two` gives the least power of two that is not below a word.
next_power_of_two-Doubled : (val : ℕ) → val ≤ 2 ^ 64 → Doubled 0 64 val (next_power_of_two val)
unfolding next_power_of_two
next_power_of_two-Doubled val h = doubling-Doubled 64 0 64 1 val refl refl h

-- Powers of two are ordered as their exponents.
le_of_pow-lt : (a b : ℕ) → 2 ^ a < 2 ^ b * 2 → a ≤ b
le_of_pow-lt a b h = elim (dec_le a b) [
  | yes p ↦ p
  | no n ↦ absurd (omega (arith, grows n, pow-suc 2 b))
]
  where
    grows : ¬ (a ≤ b) → 2 ^ suc b ≤ 2 ^ a
    grows n = pow-le-pow_right (omega arith) (omega arith)

le-pow : (a b : ℕ) → a ≤ b → 2 ^ a ≤ 2 ^ b
le-pow a b h = pow-le-pow_right (omega arith) h

-- A power of two is its own next one.
next_power_of_two-pow : (m : ℕ) → m ≤ 63 → next_power_of_two (2 ^ m) ≡ 2 ^ m
next_power_of_two-pow m h = elim d.least [
  | inl e ↦ omega (arith, d.covers, d.power, ap (λ (t : ℕ). 2 ^ t) e, one-le-pow m 2 (omega arith))
  | inr l ↦ omega (
    arith,
    d.covers,
    d.power,
    le-pow d.exponent m (le_of_pow-lt d.exponent m (omega (arith, l, d.power))),
  )
]
  where
    d : Doubled 0 64 (2 ^ m) (next_power_of_two (2 ^ m))
    d = next_power_of_two-Doubled (2 ^ m) (le-pow m 64 (omega arith))

is_power_of_two-pow : (m : ℕ) → m ≤ 63 → is_power_of_two (2 ^ m) ≡ true
unfolding is_power_of_two
is_power_of_two-pow m h = (==_iff _ _).1 (next_power_of_two-pow m h)

-- `validate_wrap` accepts the powers of two up to `MAX_WRAP`.
pub validate_wrap-pow : (m : ℕ) → m ≤ 61 → validate_wrap (2 ^ m) ≡ ok tt
unfolding validate_wrap
validate_wrap-pow m h =
    ground (arith, is_power_of_two-pow m (omega arith), le-pow m 61 h, one-le-pow m 2 (omega arith))

lt_of_pow-lt : (a b : ℕ) → 2 ^ a < 2 ^ b → a < b
lt_of_pow-lt a b h = elim (dec_le b a) [
  | yes p ↦ absurd (omega (arith, le-pow b a p))
  | no n ↦ omega arith
]

-- What `get_valid_wrap` makes of a capacity up to 2 ^ 61: the least power of two that is positive
-- and not below it.
pub record IsWrapOf (val r : ℕ) : Type 0 where
  pub exponent : ℕ
  pub power : r ≡ 2 ^ exponent
  pub bounded : exponent ≤ 61
  pub covers : val ≤ r
  pub least : (r ≡ 1) ⊎ (r < val * 2)

get_valid_wrap_mid :
    (val : ℕ) → 0 < val → val < max_wrap → get_valid_wrap val ≡ next_power_of_two val
unfolding get_valid_wrap
get_valid_wrap_mid val h l = ground arith

get_valid_wrap_top : (val : ℕ) → max_wrap ≤ val → get_valid_wrap val ≡ max_wrap
unfolding get_valid_wrap
get_valid_wrap_top val h = ground arith

pub get_valid_wrap-IsWrapOf : (val : ℕ) → val ≤ 2 ^ 61 → IsWrapOf val (get_valid_wrap val)
unfolding get_valid_wrap
get_valid_wrap-IsWrapOf zero h = record {
  exponent = 0;
  power = refl;
  bounded = omega arith;
  covers = omega arith;
  least = inl refl;
}
get_valid_wrap-IsWrapOf (suc n) h =
    rw (get_valid_wrap_mid (suc n) (omega arith) (omega arith)) (record {
      exponent = d.exponent;
      power = d.power;
      bounded = small;
      covers = d.covers;
      least = elim d.least [
        | inl e ↦ inl (omega (arith, d.power, ap (λ (t : ℕ). 2 ^ t) e))
        | inr l ↦ inr l
      ];
    })
  where
    d : Doubled 0 64 (suc n) (next_power_of_two (suc n))
    d = next_power_of_two-Doubled (suc n) (omega arith)

    small : d.exponent ≤ 61
    small = elim d.least [
      | inl e ↦ omega arith
      | inr l ↦ le_of_pow-lt d.exponent 61 (omega (arith, d.power))
    ]

-- A capacity up to 2 ^ 61 becomes the least power of two that is not below it, at least 1, and
-- `validate_wrap` accepts that.
pub validate_wrap-get_valid_wrap :
    (val : ℕ)
    → val ≤ 2 ^ 61
    → IsWrapOf val (get_valid_wrap val) × (validate_wrap (get_valid_wrap val) ≡ ok tt)
validate_wrap-get_valid_wrap val h =
    let w = get_valid_wrap-IsWrapOf val h in
    (w, rw w.power (validate_wrap-pow w.exponent w.bounded))

-- A capacity up to 2 ^ 56 is not rounded above 2 ^ 56.
pub get_valid_wrap-small : (val : ℕ) → val ≤ 2 ^ 56 → get_valid_wrap val ≤ 2 ^ 56
get_valid_wrap-small val h = elim w.least [
  | inl e ↦ omega arith
  | inr l ↦
      omega
        (arith, w.power, le-pow w.exponent 56 (le_of_pow-lt w.exponent 56 (omega (arith, w.power))))
]
  where
    w : IsWrapOf val (get_valid_wrap val)
    w = get_valid_wrap-IsWrapOf val (omega arith)

-- A capacity above 2 ^ 56 is rounded to 2 ^ 57 at least.
pub get_valid_wrap-large : (val : ℕ) → 2 ^ 56 < val → 2 ^ 57 ≤ get_valid_wrap val
get_valid_wrap-large val h = elim (dec_le max_wrap val) [
  | yes top ↦ rw (get_valid_wrap_top val top) (omega arith)
  | no mid ↦
      let d = next_power_of_two-Doubled val (omega arith) in
      rw (get_valid_wrap_mid val (omega arith) (omega arith)) (
        omega (
          arith,
          d.power,
          le-pow 57 d.exponent (lt_of_pow-lt 56 d.exponent (omega (arith, d.covers, d.power))),
        ))
]

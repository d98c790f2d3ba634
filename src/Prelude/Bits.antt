-- ===== src/Prelude/Bits.antt =====
-- `bit_or` and `bit_and` at variables: a field beside another, and a mask of ones.
use Prim.Native.Nat.{ℕ, zero, suc, ◌+◌, ◌-◌, ◌*◌, ◌/◌, ◌%◌, ◌^◌, ◌≤◌, ◌<◌, min, max}
use Prim.Native.Nat.{bit_and, bit_or, digits, bitwise, bit_and-bitwise, bit_or-bitwise}
use mathlib.Core.Path.{◌≡◌, refl, sym, ap, ◌∙◌}
use native.Mathlib.Omega.{arith}
use native.Mathlib.Nat.{one-le-pow, pow-suc}

-- Fuel past the number itself changes none of its digits.
module _ (end : ℕ → ℕ) (op : ℕ → ℕ → ℕ) where
  digits-spare : (n spare a b : ℕ) → a ≤ n → digits end op (n + spare) a b ≡ digits end op n a b
  digits-spare n spare zero b h = no_digits (n + spare) ∙ sym (no_digits n)
    where
      no_digits : (k : ℕ) → digits end op k zero b ≡ end b
      no_digits zero = refl
      no_digits (suc k) = refl
  digits-spare zero spare (suc a) b h = absurd (omega arith)
  digits-spare (suc n) spare (suc a) b h = rw (← suc_spare) (
      ap (λ d. d * 2 + op (suc a % 2) (b % 2))
        (digits-spare n spare (suc a / 2) (b / 2) (omega arith)))
    where
      suc_spare : suc (n + spare) ≡ suc n + spare
      suc_spare = omega arith

  lowest_digit :
      (a b : ℕ)
      → bitwise end op (suc a) b ≡ bitwise end op (suc a / 2) (b / 2) * 2 + op (suc a % 2) (b % 2)
  lowest_digit a b =
      let half = suc a / 2 in
      let enough : half + (a - half) ≡ a = omega arith in
      ap (λ d. d * 2 + op (suc a % 2) (b % 2))
        (ap (λ k. digits end op k half (b / 2)) (sym enough)
          ∙ digits-spare half (a - half) half (b / 2) (omega arith))

or_digit : (a b : ℕ) → bit_or a b ≡ bit_or (a / 2) (b / 2) * 2 + max (a % 2) (b % 2)
or_digit zero b = simp bit_or-bitwise (omega arith)
or_digit (suc a) b = simp bit_or-bitwise (lowest_digit (λ y. y) max a b)

and_digit : (a b : ℕ) → bit_and a b ≡ bit_and (a / 2) (b / 2) * 2 + min (a % 2) (b % 2)
and_digit zero b = simp bit_and-bitwise (omega arith)
and_digit (suc a) b = simp bit_and-bitwise (lowest_digit (λ y. zero) min a b)

or_zero_below : (k a : ℕ) → a ≤ k → bit_or a 0 ≡ a
or_zero_below k zero h = refl
or_zero_below zero (suc a) h = absurd (omega arith)
or_zero_below (suc k) (suc a) h =
    omega (arith, or_digit (suc a) 0, or_zero_below k (suc a / 2) (omega arith))

and_zero_below : (k a : ℕ) → a ≤ k → bit_and a 0 ≡ 0
and_zero_below k zero h = refl
and_zero_below zero (suc a) h = absurd (omega arith)
and_zero_below (suc k) (suc a) h =
    omega (arith, and_digit (suc a) 0, and_zero_below k (suc a / 2) (omega arith))

double_field : (hi k : ℕ) → hi * 2 ^ suc k ≡ hi * 2 ^ k + hi * 2 ^ k
double_field hi k = omega (arith, ap (λ (p : ℕ). hi * p) (pow-suc 2 k))

-- A high field beside a low one: the bits do not meet.
pub bit_or_beside : (k hi lo : ℕ) → lo < 2 ^ k → bit_or (hi * 2 ^ k) lo ≡ hi * 2 ^ k + lo
bit_or_beside zero hi lo h = ground (arith, or_zero_below hi hi)
bit_or_beside (suc k) hi lo h = ground (
  arith,
  or_digit (hi * 2 ^ suc k) lo,
  double_field hi k,
  pow-suc 2 k,
  bit_or_beside k hi (lo / 2) (omega (arith, pow-suc 2 k)),
)

-- A mask of `k` ones keeps what is below the `k`-th bit.
and_ones_beside : (k hi lo : ℕ) → lo < 2 ^ k → bit_and (hi * 2 ^ k + lo) (2 ^ k - 1) ≡ lo
and_ones_beside zero hi lo h = ground (arith, and_zero_below (hi * 1 + lo) (hi * 1 + lo))
and_ones_beside (suc k) hi lo h = ground (
  arith,
  and_digit (hi * 2 ^ suc k + lo) (2 ^ suc k - 1),
  double_field hi k,
  pow-suc 2 k,
  one-le-pow k 2,
  and_ones_beside k hi (lo / 2) (omega (arith, pow-suc 2 k)),
)

pub bit_and_ones : (k a : ℕ) → bit_and a (2 ^ k - 1) ≡ a % 2 ^ k
bit_and_ones k a = ground (arith, one-le-pow k 2, and_ones_beside k (a / 2 ^ k) (a % 2 ^ k))

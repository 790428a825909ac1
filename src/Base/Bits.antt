-- ===== src/Base/Bits.antt =====
-- Masks and fields as arithmetic: `&` with low ones, `|` below a shifted field, one digit at a time.
use Prim.Native.Nat.{
  ℕ, zero, suc, ◌+◌, ◌-◌, ◌*◌, ◌/◌, ◌%◌, ◌^◌, ◌≤◌, ◌<◌, min, max, digits, bit_and, bit_or,
  bit_and-bitwise, bit_or-bitwise,
}
use mathlib.Core.Path.{◌≡◌, refl, ap}
use native.Mathlib.Omega.{arith}
use native.Mathlib.Nat.{pow-suc, pow-succ', one-le-pow, div-div-eq-div-mul}

-- More fuel than the number needs leaves its digits alone.
digits-more :
    (z : ℕ → ℕ) (op : ℕ → ℕ → ℕ) (n m x y : ℕ)
    → x ≤ n
    → n ≤ m
    → digits z op n x y ≡ digits z op m x y
digits-more z op zero zero x y h k = refl
digits-more z op (suc n) zero x y h k = absurd (omega arith)
digits-more z op zero (suc m) zero y h k = refl
digits-more z op zero (suc m) (suc x) y h k = absurd (omega arith)
digits-more z op (suc n) (suc m) zero y h k = refl
digits-more z op (suc n) (suc m) (suc x) y h k =
    ap (λ t. t * 2 + op (suc x % 2) (y % 2))
      (digits-more z op n m (suc x / 2) (y / 2) (omega arith) (omega arith))

or_digit : (x y : ℕ) → bit_or x y ≡ bit_or (x / 2) (y / 2) * 2 + max (x % 2) (y % 2)
or_digit zero y = omega (arith, bit_or-bitwise 0 y, bit_or-bitwise 0 (y / 2))
or_digit (suc x) y = omega (
  arith,
  bit_or-bitwise (suc x) y,
  bit_or-bitwise (suc x / 2) (y / 2),
  digits-more (λ b. b) max (suc x / 2) x (suc x / 2) (y / 2) (omega arith) (omega arith),
)

and_digit : (x y : ℕ) → bit_and x y ≡ bit_and (x / 2) (y / 2) * 2 + min (x % 2) (y % 2)
and_digit zero y = omega (arith, bit_and-bitwise 0 y, bit_and-bitwise 0 (y / 2))
and_digit (suc x) y = omega (
  arith,
  bit_and-bitwise (suc x) y,
  bit_and-bitwise (suc x / 2) (y / 2),
  digits-more (λ b. 0) min (suc x / 2) x (suc x / 2) (y / 2) (omega arith) (omega arith),
)

or_zero-below : (n x : ℕ) → x ≤ n → bit_or x 0 ≡ x
or_zero-below zero zero h = refl
or_zero-below zero (suc x) h = absurd (omega arith)
or_zero-below (suc n) zero h = refl
or_zero-below (suc n) (suc x) h =
    omega (arith, or_digit (suc x) 0, or_zero-below n (suc x / 2) (omega arith))

and_zero-below : (n x : ℕ) → x ≤ n → bit_and x 0 ≡ 0
and_zero-below zero zero h = refl
and_zero-below zero (suc x) h = absurd (omega arith)
and_zero-below (suc n) zero h = refl
and_zero-below (suc n) (suc x) h =
    omega (arith, and_digit (suc x) 0, and_zero-below n (suc x / 2) (omega arith))

double_field : (q k : ℕ) → q * 2 ^ suc k ≡ 2 * (q * 2 ^ k)
double_field q k = omega (arith, ap (λ (t : ℕ). q * t) (pow-suc 2 k))

-- `|` with a number of `k` bits touches the low `k` bits only.
pub bit_or-low :
    (k q r s : ℕ) → r < 2 ^ k → s < 2 ^ k → bit_or (q * 2 ^ k + r) s ≡ q * 2 ^ k + bit_or r s
bit_or-low zero q r s hr hs =
    ground
      (arith, or_zero-below q q (omega arith), or_zero-below (q * 1 + r) (q * 1 + r) (omega arith))
bit_or-low (suc k) q r s hr hs = ground (
  arith,
  or_digit (q * 2 ^ suc k + r) s,
  or_digit r s,
  double_field q k,
  pow-suc 2 k,
  bit_or-low k q (r / 2) (s / 2) (omega (arith, pow-suc 2 k)) (omega (arith, pow-suc 2 k)),
)

pub zero-bit_or : (s : ℕ) → bit_or 0 s ≡ s
zero-bit_or s = bit_or-bitwise 0 s

-- A field shifted past `k` bits and a number of `k` bits add up.
pub bit_or-field : (k q s : ℕ) → s < 2 ^ k → bit_or (q * 2 ^ k) s ≡ q * 2 ^ k + s
bit_or-field k q s h = ground (arith, bit_or-low k q 0 s (omega arith) h, zero-bit_or s)

pub bit_or-lt : (k r s : ℕ) → r < 2 ^ k → s < 2 ^ k → bit_or r s < 2 ^ k
bit_or-lt zero r s hr hs = ground (arith, or_zero-below r r (omega arith))
bit_or-lt (suc k) r s hr hs = ground (
  arith,
  or_digit r s,
  pow-suc 2 k,
  bit_or-lt k (r / 2) (s / 2) (omega (arith, pow-suc 2 k)) (omega (arith, pow-suc 2 k)),
)

and_field : (k q r : ℕ) → r < 2 ^ k → bit_and (q * 2 ^ k + r) (2 ^ k - 1) ≡ r
and_field zero q r h = ground (arith, and_zero-below (q * 1 + r) (q * 1 + r) (omega arith))
and_field (suc k) q r h = ground (
  arith,
  and_digit (q * 2 ^ suc k + r) (2 ^ suc k - 1),
  double_field q k,
  pow-suc 2 k,
  one-le-pow k 2,
  and_field k q (r / 2) (omega (arith, pow-suc 2 k)),
)

-- A mask of `k` ones is the remainder by `2 ^ k`.
pub bit_and-ones : (k x : ℕ) → bit_and x (2 ^ k - 1) ≡ x % 2 ^ k
bit_and-ones k x = ground (arith, one-le-pow k 2, and_field k (x / 2 ^ k) (x % 2 ^ k))

or_eq_zero-below : (n r s : ℕ) → r ≤ n → bit_or r s ≡ 0 → (r ≡ 0) × (s ≡ 0)
or_eq_zero-below zero r s h e = ground (arith, zero-bit_or s)
or_eq_zero-below (suc n) zero s h e = omega (arith, zero-bit_or s)
or_eq_zero-below (suc n) (suc r) s h e = omega (
  arith,
  or_digit (suc r) s,
  or_eq_zero-below n (suc r / 2) (s / 2) (omega arith) (omega (arith, or_digit (suc r) s)),
)

-- `ret |= tret` is 0 only if both are.
bit_or-eq-zero : (r s : ℕ) → bit_or r s ≡ 0 → (r ≡ 0) × (s ≡ 0)
bit_or-eq-zero r s h = or_eq_zero-below r r s (omega arith) h

half_div : (x k : ℕ) → x / 2 ^ suc k ≡ x / 2 / 2 ^ k
half_div x k = rw (pow-succ', div-div-eq-div-mul)

-- A mask shifted by `k` bits looks at what is above them.
pub bit_and-shifted : (k x m : ℕ) → bit_and x (m * 2 ^ k) ≡ bit_and (x / 2 ^ k) m * 2 ^ k
bit_and-shifted zero x m = ground arith
bit_and-shifted (suc k) x m = ground (
  arith,
  and_digit x (m * 2 ^ suc k),
  double_field m k,
  double_field (bit_and (x / 2 / 2 ^ k) m) k,
  pow-suc 2 k,
  half_div x k,
  bit_and-shifted k (x / 2) m,
)

le-bit_or-below : (n r s : ℕ) → r ≤ n → r ≤ bit_or r s
le-bit_or-below zero r s h = omega arith
le-bit_or-below (suc n) zero s h = omega arith
le-bit_or-below (suc n) (suc r) s h =
    omega (arith, or_digit (suc r) s, le-bit_or-below n (suc r / 2) (s / 2) (omega arith))

pub le-bit_or : (r s : ℕ) → r ≤ bit_or r s
le-bit_or r s = le-bit_or-below r r s (omega arith)

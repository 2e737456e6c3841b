-- ===== src/Prelude/Bits.antt =====
-- Laws of the bit operations at variables: joining disjoint fields by `|`, and `& (1 << k - 1)`.
-- The native operations stand for a recursion on binary digits with a count of digits to go.
use Prim.Native.Nat.{
  ℕ, zero, suc, ◌+◌, ◌*◌, ◌/◌, ◌^◌, ◌≤◌, ◌<◌, min, max, bit_or, bit_and, digits, bit_or-bitwise,
  bit_and-bitwise,
}
use mathlib.Core.Path.{◌≡◌, refl, ap, ◌∙◌}
use native.Mathlib.Omega.{arith}
use native.Mathlib.Nat.{pow-suc, le_refl}

double_field : (q k : ℕ) → q * 2 ^ suc k ≡ 2 * (q * 2 ^ k)
double_field q k = omega (arith, ap (λ (p : ℕ). q * p) (pow-suc 2 k))

abbrev or_digits : ℕ → ℕ → ℕ → ℕ
or_digits = digits (λ y. y) max

abbrev and_digits : ℕ → ℕ → ℕ → ℕ
and_digits = digits (λ _. zero) min

or_digits-zero : (n a : ℕ) → a ≤ n → or_digits n a 0 ≡ a
or_digits-zero zero zero h = refl
or_digits-zero zero (suc a) h = absurd (omega arith)
or_digits-zero (suc n) zero h = refl
or_digits-zero (suc n) (suc a) h = omega (arith, or_digits-zero n (suc a / 2) (omega arith))

or_digits_fields : (n k q r a : ℕ) → a ≡ q * 2 ^ k → r < 2 ^ k → a ≤ n → or_digits n a r ≡ a + r
or_digits_fields zero k q r zero e fits h = omega arith
or_digits_fields zero k q r (suc a) e fits h = absurd (omega arith)
or_digits_fields (suc n) k q r zero e fits h = omega arith
or_digits_fields (suc n) zero q zero (suc a) e fits h =
    omega (arith, or_digits-zero n (suc a / 2) (omega arith))
or_digits_fields (suc n) zero q (suc r) (suc a) e fits h = absurd (omega arith)
or_digits_fields (suc n) (suc k) q r (suc a) e fits h = omega (
  arith,
  double_field q k,
  pow-suc 2 k,
  or_digits_fields n k q (r / 2) (suc a / 2) (omega (arith, double_field q k))
      (omega (arith, pow-suc 2 k)) (omega arith),
)

-- `(q << k) | r` is a sum when `r` fits `k` bits.
pub bit_or_fields : (k q r : ℕ) → r < 2 ^ k → bit_or (q * 2 ^ k) r ≡ q * 2 ^ k + r
bit_or_fields k q r fits =
    bit_or-bitwise (q * 2 ^ k) r
    ∙ or_digits_fields (q * 2 ^ k) k q r (q * 2 ^ k) refl fits (le_refl _)

and_digits_fields :
    (n k q r a m : ℕ) → m + 1 ≡ 2 ^ k → a ≡ q * 2 ^ k + r → r < 2 ^ k → a ≤ n → and_digits n a m ≡ r
and_digits_fields zero k q r zero m w e fits h = omega arith
and_digits_fields zero k q r (suc a) m w e fits h = absurd (omega arith)
and_digits_fields (suc n) k q r zero m w e fits h = omega arith
and_digits_fields (suc n) zero q r (suc a) m w e fits h = omega (
  arith,
  and_digits_fields n zero (suc a / 2) 0 (suc a / 2) (m / 2) (omega arith) (omega arith)
      (omega arith) (omega arith),
)
and_digits_fields (suc n) (suc k) q r (suc a) m w e fits h = omega (
  arith,
  double_field q k,
  pow-suc 2 k,
  and_digits_fields n k q (r / 2) (suc a / 2) (m / 2) (omega (arith, pow-suc 2 k))
      (omega (arith, double_field q k)) (omega (arith, pow-suc 2 k)) (omega arith),
)

-- A mask of `k` ones keeps the low `k` bits.
pub bit_and_fields : (k q r m : ℕ) → m + 1 ≡ 2 ^ k → r < 2 ^ k → bit_and (q * 2 ^ k + r) m ≡ r
bit_and_fields k q r m w fits =
    bit_and-bitwise (q * 2 ^ k + r) m
    ∙ and_digits_fields (q * 2 ^ k + r) k q r (q * 2 ^ k + r) m w refl fits (le_refl _)

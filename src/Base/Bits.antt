-- ===== src/Base/Bits.antt =====
-- Bits of a number, and setting a bit above all others by `|`.
use Prim.Native.Nat.{
  ℕ, zero, suc, ◌+◌, ◌*◌, ◌/◌, ◌%◌, ◌^◌, ◌<◌, ◌≤◌, max, bit_or, digits, bit_or-bitwise,
}
use mathlib.Core.Path.{◌≡◌, refl, ap, ◌∙◌}
use mathlib.Core.Bool.{Bool, true, false}
use native.Mathlib.Nat.{pow-suc}
use native.Mathlib.Omega.{arith}
use kwmbridge.Base.Tests.{◌==◌}

-- Whether bit `j` of `n` is set.
unfoldable pub test_bit : ℕ → ℕ → Bool
test_bit zero n = n % 2 == 1
test_bit (suc j) n = test_bit j (n / 2)

or_digits : ℕ → ℕ → ℕ → ℕ
or_digits n a b = digits (λ b. b) max n a b

-- More digits than the first number has make no difference.
or_digits_enough : (n m a b : ℕ) → a ≤ n → a ≤ m → or_digits n a b ≡ or_digits m a b
unfolding or_digits
or_digits_enough zero zero a b p q = refl
or_digits_enough zero (suc m) zero b p q = refl
or_digits_enough zero (suc m) (suc a) b p q = absurd (omega arith)
or_digits_enough (suc n) zero zero b p q = refl
or_digits_enough (suc n) zero (suc a) b p q = absurd (omega arith)
or_digits_enough (suc n) (suc m) zero b p q = refl
or_digits_enough (suc n) (suc m) (suc a) b p q =
    omega (arith, or_digits_enough n m (suc a / 2) (b / 2) (omega arith) (omega arith))

zero-bit_or : (b : ℕ) → bit_or 0 b ≡ b
zero-bit_or b = bit_or-bitwise 0 b

bit_or_halves : (a b : ℕ) → bit_or a b ≡ bit_or (a / 2) (b / 2) * 2 + max (a % 2) (b % 2)
unfolding or_digits
bit_or_halves zero b = omega (arith, zero-bit_or b, zero-bit_or (b / 2))
bit_or_halves (suc a) b = omega (
  arith,
  bit_or-bitwise (suc a) b,
  bit_or-bitwise (suc a / 2) (b / 2),
  or_digits_enough a (suc a / 2) (suc a / 2) (b / 2) (omega arith) (omega arith),
)

half-pow : (k : ℕ) → 2 ^ suc k / 2 ≡ 2 ^ k
half-pow k = omega (arith, pow-suc 2 k)

half-add-pow : (k a : ℕ) → (a + 2 ^ suc k) / 2 ≡ a / 2 + 2 ^ k
half-add-pow k a = omega (arith, pow-suc 2 k)

-- `a | 1 << k` is `a + 2 ^ k` where all bits of `a` are below `k`.
pub bit_or-pow : (k a : ℕ) → a < 2 ^ k → bit_or a (2 ^ k) ≡ a + 2 ^ k
bit_or-pow zero zero h = refl
bit_or-pow zero (suc a) h = absurd (omega arith)
bit_or-pow (suc k) a h = omega (
  arith,
  pow-suc 2 k,
  bit_or_halves a (2 ^ suc k),
  ap (λ t. bit_or (a / 2) t) (half-pow k),
  bit_or-pow k (a / 2) (omega (arith, pow-suc 2 k)),
)

-- Adding a bit above `j` leaves bit `j` alone.
pub test_bit-add-pow_lt : (j k a : ℕ) → j < k → test_bit j (a + 2 ^ k) ≡ test_bit j a
unfolding test_bit
test_bit-add-pow_lt zero zero a h = absurd (omega arith)
test_bit-add-pow_lt zero (suc k) a h = ap (λ t. t == 1) (omega (arith, pow-suc 2 k))
test_bit-add-pow_lt (suc j) zero a h = absurd (omega arith)
test_bit-add-pow_lt (suc j) (suc k) a h =
    ap (test_bit j) (half-add-pow k a) ∙ test_bit-add-pow_lt j k (a / 2) (omega arith)

-- The added bit is set.
pub test_bit-add-pow_self : (k a : ℕ) → a < 2 ^ k → test_bit k (a + 2 ^ k) ≡ true
unfolding test_bit
test_bit-add-pow_self zero zero h = refl
test_bit-add-pow_self zero (suc a) h = absurd (omega arith)
test_bit-add-pow_self (suc k) a h =
    ap (test_bit k) (half-add-pow k a)
    ∙ test_bit-add-pow_self k (a / 2) (omega (arith, pow-suc 2 k))

-- A number below `2 ^ k` has no bit at `k` or above.
pub test_bit_of_lt : (j k a : ℕ) → a < 2 ^ k → k ≤ j → test_bit j a ≡ false
unfolding test_bit
test_bit_of_lt zero zero zero h le = refl
test_bit_of_lt zero zero (suc a) h le = absurd (omega arith)
test_bit_of_lt zero (suc k) a h le = absurd (omega arith)
test_bit_of_lt (suc j) zero a h le = test_bit_of_lt j zero (a / 2) (omega arith) (omega arith)
test_bit_of_lt (suc j) (suc k) a h le =
    test_bit_of_lt j k (a / 2) (omega (arith, pow-suc 2 k)) (omega arith)

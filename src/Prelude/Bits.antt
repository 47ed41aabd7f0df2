-- ===== src/Prelude/Bits.antt =====
-- The bitwise or of two native numbers that have no binary digit in common is their sum.
pub use Prim.Native.Nat.{bit_or}
use Prim.Native.Nat.{ℕ, zero, suc, ◌+◌, ◌*◌, ◌/◌, ◌%◌, ◌≤◌, ◌<◌, max, digits, bit_or-bitwise}
use mathlib.Core.Path.{◌≡◌, refl, ap, ◌∙◌}
use native.Mathlib.Omega.{arith}

-- More rounds than the first number has digits make no difference.
or_rounds : (n m a b : ℕ) → a ≤ n → a ≤ m → digits (λ b. b) max n a b ≡ digits (λ b. b) max m a b
or_rounds zero zero a b p q = refl
or_rounds zero (suc m) zero b p q = refl
or_rounds zero (suc m) (suc a) b p q = absurd (omega arith)
or_rounds (suc n) zero zero b p q = refl
or_rounds (suc n) zero (suc a) b p q = absurd (omega arith)
or_rounds (suc n) (suc m) zero b p q = refl
or_rounds (suc n) (suc m) (suc a) b p q =
    omega (arith, or_rounds n m (suc a / 2) (b / 2) (omega arith) (omega arith))

or_none : (b : ℕ) → bit_or 0 b ≡ b
or_none b = bit_or-bitwise 0 b

-- The lowest digit and the rest.
or_halves : (a b : ℕ) → bit_or a b ≡ bit_or (a / 2) (b / 2) * 2 + max (a % 2) (b % 2)
or_halves zero b = omega (arith, or_none b, or_none (b / 2))
or_halves (suc a) b = omega (
  arith,
  bit_or-bitwise (suc a) b,
  bit_or-bitwise (suc a / 2) (b / 2),
  or_rounds a (suc a / 2) (suc a / 2) (b / 2) (omega arith) (omega arith),
)

or_zero_within : (n a : ℕ) → a ≤ n → bit_or a 0 ≡ a
or_zero_within n zero h = or_none 0
or_zero_within zero (suc a) h = absurd (omega arith)
or_zero_within (suc n) (suc a) h =
    omega (arith, or_halves (suc a) 0, or_zero_within n (suc a / 2) (omega arith))

-- `k` zeros behind the digits of a number.
abbrev pub shifted : ℕ → ℕ → ℕ
shifted zero x = x
shifted (suc k) x = shifted k x * 2

pub or_shifted : (k x b : ℕ) → b < shifted k 1 → bit_or (shifted k x) b ≡ shifted k x + b
or_shifted zero x b h =
    ap (bit_or x) (omega (arith, h)) ∙ or_zero_within x x (omega arith) ∙ omega (arith, h)
or_shifted (suc k) x b h =
    let rest = or_shifted k x (b / 2) (omega (arith, h)) in
    let half : shifted k x * 2 / 2 ≡ shifted k x = omega arith in
    omega (arith, or_halves (shifted k x * 2) b, ap (λ (y : ℕ). bit_or y (b / 2)) half, rest)

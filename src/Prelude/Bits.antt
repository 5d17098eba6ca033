-- ===== src/Prelude/Bits.antt =====
-- `|` of numbers that have no bit in common is their sum.
use Prim.Native.Nat.{
  ℕ, zero, suc, ◌+◌, ◌*◌, ◌/◌, ◌%◌, ◌^◌, ◌≤◌, ◌<◌, max, digits, bit_or, bit_or-bitwise,
}
use mathlib.Core.Path.{◌≡◌, refl, ap}
use native.Mathlib.Nat.{pow-suc}
use native.Mathlib.Omega.{arith}

-- The native `|`, as a recursion on the binary digits of its first argument with fuel.
abbrev or_digits : ℕ → ℕ → ℕ → ℕ
or_digits fuel a b = digits (λ y. y) max fuel a b

-- More fuel than the number itself changes nothing.
or_digits-enough :
    (fuel more a b : ℕ) → a ≤ fuel → a ≤ more → or_digits fuel a b ≡ or_digits more a b
or_digits-enough zero zero zero b h k = refl
or_digits-enough zero (suc more) zero b h k = refl
or_digits-enough (suc fuel) zero zero b h k = refl
or_digits-enough (suc fuel) (suc more) zero b h k = refl
or_digits-enough zero more (suc a) b h k = absurd (omega arith)
or_digits-enough (suc fuel) zero (suc a) b h k = absurd (omega arith)
or_digits-enough (suc fuel) (suc more) (suc a) b h k =
    omega (arith, or_digits-enough fuel more (suc a / 2) (b / 2) (omega arith) (omega arith))

zero-bit_or : (b : ℕ) → bit_or 0 b ≡ b
zero-bit_or b = bit_or-bitwise 0 b

-- The lowest digit, and the rest.
bit_or-halves : (a b : ℕ) → bit_or a b ≡ bit_or (a / 2) (b / 2) * 2 + max (a % 2) (b % 2)
bit_or-halves zero b = omega (arith, zero-bit_or b, zero-bit_or (b / 2))
bit_or-halves (suc a) b = omega (
  arith,
  bit_or-bitwise (suc a) b,
  bit_or-bitwise (suc a / 2) (b / 2),
  or_digits-enough a (suc a / 2) (suc a / 2) (b / 2) (omega arith) (omega arith),
)

-- `low | (high << k)`, where `low` has at most `k` bits.
pub bit_or-shifted : (k low high : ℕ) → low < 2 ^ k → bit_or low (high * 2 ^ k) ≡ low + high * 2 ^ k
bit_or-shifted zero zero high h = omega (arith, zero-bit_or (high * 2 ^ 0))
bit_or-shifted zero (suc low) high h = absurd (omega arith)
bit_or-shifted (suc k) low high h = omega (
  arith,
  bit_or-halves low (high * 2 ^ suc k),
  pow-suc 2 k,
  ap (λ (t : ℕ). high * t) (pow-suc 2 k),
  ap (λ (t : ℕ). bit_or (low / 2) t)
      (let e : high * 2 ^ suc k / 2 ≡ high * 2 ^ k =
          omega (arith, ap (λ (t : ℕ). high * t) (pow-suc 2 k)) in
        e),
  bit_or-shifted k (low / 2) high (omega (arith, pow-suc 2 k)),
)

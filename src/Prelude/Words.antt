-- ===== src/Prelude/Words.antt =====
-- Arithmetic of `size_t`, `uintptr_t` and the other 64-bit unsigned types, with its wrap-around, and
-- maps from numbers as functions.
use Prim.Native.Nat.{ℕ, ◌+◌, ◌-◌, ◌%◌, ◌^◌, ◌<◌, ◌≤◌}
use mathlib.Core.Path.{◌≡◌}
use mathlib.Core.Option.{Option, none, some}
use native.Mathlib.Omega.{arith}
use pystack.Prelude.Tests.{◌==◌, if◌then◌else◌}

abbrev pub word : ℕ
word = 2 ^ 64

unfoldable pub add64 : ℕ → ℕ → ℕ
add64 a b = (a + b) % word

unfoldable pub sub64 : ℕ → ℕ → ℕ
sub64 a b = (a + word - b) % word

pub add64_exact : (a b : ℕ) → a + b < word → add64 a b ≡ a + b
unfolding add64
add64_exact a b h = omega arith

pub sub64_exact : (a b : ℕ) → b ≤ a → a < word → sub64 a b ≡ a - b
unfolding sub64
sub64_exact a b h k = omega arith

-- A map keyed by numbers, such as `std::unordered_map<uintptr_t, V>`.
abbrev pub Table {ℓ} : Type ℓ → Type ℓ
Table V = ℕ → Option V

abbrev pub update {ℓ} : {V : Type ℓ} → Table V → ℕ → V → Table V
update t k v j = if k == j then some v else t j

abbrev pub erase {ℓ} : {V : Type ℓ} → Table V → ℕ → Table V
erase t k j = if k == j then none else t j

-- An `int` or `unsigned int` is its 32-bit pattern.
abbrev pub word32 : ℕ
word32 = 2 ^ 32

unfoldable pub add32 : ℕ → ℕ → ℕ
add32 a b = (a + b) % word32

unfoldable pub sub32 : ℕ → ℕ → ℕ
sub32 a b = (a + word32 - b) % word32

pub sub32_succ : (a : ℕ) → a + 1 < word32 → sub32 (a + 1) 1 ≡ a
unfolding sub32
sub32_succ a h = omega arith

pub add32_exact : (a b : ℕ) → a + b < word32 → add32 a b ≡ a + b
unfolding add32
add32_exact a b h = omega arith

pub sub32_exact : (a b : ℕ) → b ≤ a → a < word32 → sub32 a b ≡ a - b
unfolding sub32
sub32_exact a b h k = omega arith

-- ===== src/Code/Scan.antt =====
-- The pointer of `parse_linetable` in pycode.cpp and its two lambdas, `scan_varint` and
-- `scan_signed_varint`. The pointer is the list of the bytes from it on, the final NUL of the string
-- included.
use Prim.Native.Nat.{bit_or}
use pystack.Prelude.{
  ℕ, ◌+◌, ◌*◌, ◌/◌, ◌%◌, ◌^◌, Bool, [], ◌∷◌, leb, ◌==◌, if◌then◌else◌, word32, sub32,
}
use pystack.Memory.Maps.{Bytes}

-- What C++ does not define (a read past the NUL, a shift by 32 or more), and a failed `assert`.
pub data Fault : Type 0 where
  overread shift_too_far assertion_failed out_of_fuel : Fault

pub data Outcome (A : Type 0) : Type 0 where
  done : A → Outcome A
  fault : Fault → Outcome A

abbrev pub Scan : Type 0 → Type 0
Scan A = Bytes → Outcome (A × Bytes)

abbrev pub pure : {A : Type 0} → A → Scan A
pure a bytes = done (a, bytes)

abbrev pub continue_with : {A B : Type 0} → (A → Scan B) → Outcome (A × Bytes) → Outcome (B × Bytes)
continue_with f (done (a, rest)) = f a rest
continue_with f (fault e) = fault e

infixl 5 ◌>>=◌
abbrev pub ◌>>=◌ : {A B : Type 0} → Scan A → (A → Scan B) → Scan B
◌>>=◌ m f bytes = continue_with f (m bytes)

-- `*ptr++`
unfoldable pub next : Scan ℕ
next [] = fault overread
next (b ∷ rest) = done (b, rest)

-- `read & 64` is not 0.
abbrev pub goes_on : ℕ → Bool
goes_on b = b / 64 % 2 == 1

-- The `while` loop of `scan_varint`, entered where the last byte goes on; `shift` is its value before
-- the round.
unfoldable pub scan_groups : ℕ → ℕ → Scan ℕ
scan_groups val shift [] = fault overread
scan_groups val shift (b ∷ rest) =
    let val' = bit_or val (b % 64 * 2 ^ (shift + 6) % word32) in
    let more = scan_groups val' (shift + 6) rest in
    if leb 32 (shift + 6)
    then fault shift_too_far
    else if goes_on b
    then more
    else done (val', rest)

unfoldable pub scan_varint : Scan ℕ
unfolding next scan_groups
scan_varint = do b ← next; if goes_on b then scan_groups (b % 64) 0 else pure (b % 64)

unfoldable pub scan_signed_varint : Scan ℕ
unfolding scan_varint
scan_signed_varint = do
  uval ← scan_varint
  pure (if uval % 2 == 1 then sub32 0 (uval / 2) else uval / 2)

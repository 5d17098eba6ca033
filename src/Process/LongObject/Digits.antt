-- ===== src/Process/LongObject/Digits.antt =====
-- What the loop of `LongObject` makes of the digits of a number.
use pystack.Prelude.{ℕ, ◌+◌, ◌*◌, ◌^◌, ◌<◌, ◌≤◌, ◌≡◌, arith, List, [], ◌∷◌, length}
use pystack.Process.LongObject.{Sum, value, overflowed, shift_too_far, add_digits}

-- The number that the digits stand for, the lowest first.
unfoldable pub total : List ℕ → ℕ
total [] = 0
total (digit ∷ digits) = digit + 2 ^ 30 * total digits

-- The result by the number: its value below 2 ^ 63, and an overflow from there on.
abbrev pub Agrees : ℕ → Sum → Type 0
Agrees n (value m) = (m ≡ n) × (n < 2 ^ 63)
Agrees n (overflowed m) = 2 ^ 63 ≤ n
Agrees n shift_too_far = ⊥

at_most_three :
    (digits : List ℕ) → length digits ≤ 3 → Agrees (total digits) (add_digits 0 0 digits)
unfolding add_digits total
at_most_three [] h = ground arith
at_most_three (a ∷ []) h = ground arith
at_most_three (a ∷ b ∷ []) h = ground arith
at_most_three (a ∷ b ∷ c ∷ []) h = ground arith
at_most_three (a ∷ b ∷ c ∷ d ∷ digits) h = absurd (omega arith)

-- A number of three digits at most gets its own value if it is below 2 ^ 63, and counts as overflowed
-- otherwise.
pub add_digits-Agrees :
    (digits : List ℕ) → length digits ≤ 3 → Agrees (total digits) (add_digits 0 0 digits)
add_digits-Agrees digits h = at_most_three digits h

-- On four digits or more, of which the first three stand for less than 2 ^ 63, the loop shifts a number of 64
-- bits by 90, which C++ leaves open; it does not find out that the number is too large.
pub add_digits_undefined :
    (a b c d : ℕ) (digits : List ℕ)
    → total (a ∷ b ∷ c ∷ []) < 2 ^ 63
    → add_digits 0 0 (a ∷ b ∷ c ∷ d ∷ digits) ≡ shift_too_far
unfolding add_digits total
add_digits_undefined a b c d digits h = ground arith

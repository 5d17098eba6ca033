-- ===== src/Process/LongObject/Tests.antt =====
-- The theorems about the digits of a number, on two numbers.
use pystack.Prelude.{ℕ, arith, List, [], ◌∷◌}
use pystack.Process.LongObject.{add_digits}
use pystack.Process.LongObject.Digits.{Agrees, total, add_digits-Agrees}

-- 7 + 5 * 2 ^ 30
abbrev two_digits : List ℕ
two_digits = 7 ∷ 5 ∷ []

add_digits-Agrees_example : Agrees (total two_digits) (add_digits 0 0 two_digits)
add_digits-Agrees_example = add_digits-Agrees two_digits (omega arith)

-- ===== src/Process/LongObject.antt =====
-- `LongObject` of pytypes.cpp: an `int` of Python, in 64 bits with their sign.
mod Digits
mod Tests
use pystack.Prelude.{
  ℕ, zero, suc, ◌+◌, ◌-◌, ◌*◌, ◌/◌, ◌%◌, ◌^◌, Bool, true, false, List, [], ◌∷◌, take, drop, leb,
  ◌==◌, if◌then◌else◌,
}
use pystack.Memory.Maps.{Bytes}
use pystack.Offsets.Layout.{py_long, py_long_o_ob_size, py_long_o_ob_digit}
use pystack.Version.{little_endian}
use pystack.Process.{
  Process, Run, done, stop, runtime_error, open_behaviour, pure, ◌>>=◌, is_at_least, read,
  read_field, field_address,
}

-- The value so far, or `d_overflowed` with the 64 bits that the value then has, or a shift by more than the width, which C++ leaves open.
pub data Sum : Type 0 where
  value overflowed : ℕ → Sum
  shift_too_far : Sum

-- The loop over the digits, from index `i` on.
unfoldable pub add_digits : ℕ → ℕ → List ℕ → Sum
add_digits i d_value [] = value d_value
add_digits i d_value (digit ∷ digits) =
    let factor = digit * 2 ^ (30 * i) in
    let later = add_digits (suc i) (d_value + factor) digits in
    if leb 64 (30 * i)
    then shift_too_far
    else if leb (2 ^ 63) factor
    then overflowed d_value
    else if leb (2 ^ 63) (d_value + factor)
    then overflowed ((d_value + factor) % 2 ^ 64)
    else later

pub record LongObject : Type 0 where
  pub magnitude : ℕ
  pub negative : Bool
  pub is_overflowed : Bool

-- The number of digits and the sign, from `lv_tag` or from `ob_size`.
unfoldable pub digit_count : Bool → ℕ → ℕ
digit_count true ob_size = ob_size / 8
digit_count false ob_size = if leb (2 ^ 63) ob_size then 2 ^ 64 - ob_size else ob_size

unfoldable pub is_negative : Bool → ℕ → Bool
is_negative true ob_size = ob_size % 4 == 2
is_negative false ob_size = leb (2 ^ 63) ob_size

-- The `n` first digits of a buffer.
unfoldable pub digits_of : ℕ → Bytes → List ℕ
unfolding little_endian
digits_of zero buffer = []
digits_of (suc n) buffer = little_endian (take 4 buffer) ∷ digits_of n (drop 4 buffer)

unfoldable pub of_sum : Bool → Sum → Run LongObject
of_sum negative (value n) =
    done (record { magnitude = n; negative = negative; is_overflowed = false })
of_sum negative (overflowed n) = done (
    if leb (2 ^ 63) n
    then record { magnitude = 2 ^ 64 - n; negative = true; is_overflowed = true }
    else record { magnitude = n; negative = false; is_overflowed = true })
of_sum negative shift_too_far = stop open_behaviour

unfoldable pub make_long : Process → ℕ → Run LongObject
unfolding is_at_least read_field field_address read digit_count is_negative digits_of add_digits
    of_sum
make_long p addr = do
  ob_size ← read_field p py_long addr py_long_o_ob_size
  let tagged = is_at_least p 3 12
  let size = digit_count tagged ob_size
  if size == 0
      then done (record { magnitude = 0; negative = false; is_overflowed = false })
      else if leb (2 ^ 61) size
      then stop runtime_error
      else (do
        buffer ← read p (field_address p addr py_long_o_ob_digit) (4 * size)
        of_sum (is_negative tagged ob_size) (add_digits 0 0 (digits_of size buffer)))

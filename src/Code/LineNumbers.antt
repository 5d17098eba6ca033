-- ===== src/Code/LineNumbers.antt =====
-- `getLocationInfo` of pycode.cpp: the tables of lines before Python 3.11, and the choice of a table. Where
-- the instructions of free-threaded Python 3.14 start is an argument.
pub mod Finds
pub mod Positions
mod Tests
use pystack.Prelude.{
  ℕ, ◌+◌, ◌-◌, ◌*◌, ◌/◌, ◌^◌, Bool, true, false, List, [], ◌∷◌, ltb, leb, ◌==◌, if◌then◌else◌,
  add32, add64, sub64, word32,
}
use pystack.Memory.Maps.{Bytes}
use pystack.Offsets.Load.{Version, version_is_at_least}
use pystack.Code.Scan.{Outcome, done, fault}
use pystack.Code.LineTable.{LocationInfo, parse_linetable}

-- A `signed char` as an `int`, and as a `size_t`.
unfoldable pub signed32 : ℕ → ℕ
signed32 b = if ltb b 128 then b else b + 2 ^ 32 - 256

unfoldable pub signed64 : ℕ → ℕ
signed64 b = if ltb b 128 then b else b + 2 ^ 64 - 256

-- NO_LINE_NUMBER, as a byte
abbrev pub no_line_number : ℕ
no_line_number = 128

unfoldable pub moved : ℕ → ℕ → ℕ
unfolding signed32
moved line_delta lineno =
    if line_delta == no_line_number then lineno else add32 lineno (signed32 line_delta)

-- The loop of Python 3.10. The byte past an odd end is the NUL of the string.
unfoldable pub lines_310 : ℕ → ℕ → ℕ → Bytes → ℕ
unfolding moved
lines_310 limit current lineno [] = lineno
lines_310 limit current lineno (start_delta ∷ []) = lineno
lines_310 limit current lineno (start_delta ∷ line_delta ∷ rest) =
    let later = lines_310 limit (add64 current start_delta) (moved line_delta lineno) rest in
    if ltb limit (add64 current start_delta) then moved line_delta lineno else later

-- The loop of the versions before, where `char` is signed, as on x86-64.
unfoldable pub lines_old : ℕ → ℕ → ℕ → Bytes → ℕ
unfolding signed32 signed64
lines_old limit bc lineno [] = lineno
lines_old limit bc lineno (delta ∷ []) = lineno
lines_old limit bc lineno (delta ∷ line_delta ∷ rest) =
    let later =
      lines_old limit (add64 bc (signed64 delta)) (add32 lineno (signed32 line_delta)) rest in
    if ltb limit (add64 bc (signed64 delta)) then lineno else later

-- The difference of two pointers to `uint16_t`, as a `uintptr_t`.
unfoldable pub pointer_difference : ℕ → ℕ → ℕ
pointer_difference a b = if leb b a then (a - b) / 2 else sub64 0 ((b - a) / 2)

abbrev pub unfilled : LocationInfo
unfilled = record { lineno = 0; end_lineno = 0; column = 0; end_column = 0 }

-- `location_info` is filled only if the instruction is found.
abbrev if_found : Outcome (Bool × LocationInfo) → Outcome LocationInfo
if_found (done (true, info)) = done info
if_found (done (false, info)) = done unfilled
if_found (fault e) = fault e

abbrev line_only : ℕ → LocationInfo
line_only lineno = record { lineno = lineno; end_lineno = lineno; column = 0; end_column = 0 }

-- `start` is the address of the instructions, and `posinfo` the structure that nothing initialises.
unfoldable pub get_location_info :
    Version → ℕ → Bytes → (last_instruction_index start : ℕ) → LocationInfo → Outcome LocationInfo
unfolding version_is_at_least parse_linetable lines_310 lines_old pointer_difference
get_location_info version code_lineno lnotab last_instruction_index start posinfo =
    if version_is_at_least version 3 11
    then if_found (
        parse_linetable (pointer_difference last_instruction_index start) lnotab code_lineno
          posinfo)
    else if version_is_at_least version 3 10
    then done (
        line_only
          (lines_310 (add64 last_instruction_index last_instruction_index) 0 code_lineno lnotab))
    else done (line_only (lines_old last_instruction_index 0 code_lineno lnotab))

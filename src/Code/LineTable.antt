-- ===== src/Code/LineTable.antt =====
-- `parse_linetable` of pycode.cpp: the location of an instruction in the table of Python 3.11 and later.
pub mod Entries
pub mod Finds
pub mod EndLine
mod Tests
use Prim.Native.Nat.{bit_or}
use pystack.Prelude.{
  ℕ, zero, suc, ◌+◌, ◌*◌, ◌/◌, ◌%◌, Bool, true, false, ◌&&◌, List, [], ◌∷◌, ◌++◌, length, ltb, leb,
  ◌==◌, if◌then◌else◌, add32, sub32, add64,
}
use pystack.Memory.Maps.{Bytes}
use pystack.Code.Scan.{
  Outcome, done, fault, overread, assertion_failed, out_of_fuel, Scan, pure, ◌>>=◌, next,
  scan_varint, scan_signed_varint,
}

-- Every field is an `int`.
pub record LocationInfo : Type 0 where
  pub lineno : ℕ
  pub end_lineno : ℕ
  pub column : ℕ
  pub end_column : ℕ

scan_long : LocationInfo → Scan LocationInfo
scan_long info = do
  line_delta ← scan_signed_varint
  let lineno = add32 info.lineno line_delta
  end_delta ← scan_varint
  column ← scan_varint
  end_column ← scan_varint
  pure (record {
    lineno = lineno;
    end_lineno = add32 lineno end_delta;
    column = sub32 column 1;
    end_column = sub32 end_column 1;
  })

scan_no_columns : LocationInfo → Scan LocationInfo
scan_no_columns info = do
  line_delta ← scan_signed_varint
  pure (record info {
    lineno = add32 info.lineno line_delta;
    column = sub32 0 1;
    end_column = sub32 0 1;
  })

scan_one_line : ℕ → LocationInfo → Scan LocationInfo
unfolding next
scan_one_line code info = do
  let lineno = add32 info.lineno (sub32 code 10)
  column ← next
  end_column ← next
  pure (record { lineno = lineno; end_lineno = lineno; column = column; end_column = end_column })

-- `code << 3 | (second_byte >> 4)`, under the assertion that the byte has no high bit.
scan_short : ℕ → LocationInfo → Scan LocationInfo
unfolding next
scan_short code info = do
  second_byte ← next
  let column = bit_or (second_byte / 16) (code * 8)
  if leb 128 second_byte
      then (λ _. fault assertion_failed)
      else pure (record info { column = column; end_column = add32 column (second_byte % 16) })

-- The `switch`.
pub scan_entry : ℕ → LocationInfo → Scan LocationInfo
unfolding scan_long scan_no_columns scan_one_line scan_short
scan_entry code info =
    if code == 15
    then pure info
    else if code == 14
    then scan_long info
    else if code == 13
    then scan_no_columns info
    else if leb 10 code && leb code 12
    then scan_one_line code info
    else scan_short code info

-- The `while` loop. Every round takes a byte at least, so as many rounds as there are bytes are enough.
pub scan_entries : ℕ → ℕ → ℕ → LocationInfo → Bytes → Outcome (Bool × LocationInfo)
scan_entries zero addrq addr info bytes = fault out_of_fuel
scan_entries (suc fuel) addrq addr info [] = fault overread
scan_entries (suc fuel) addrq addr info (first_byte ∷ rest) =
    let end_addr = add64 addr (first_byte % 8 + 1) in
    if first_byte == 0
    then done (false, info)
    else elim (scan_entry (first_byte / 8 % 16) info rest) [
      | fault e ↦ fault e
      | done (info', rest') ↦
          if leb addr addrq && ltb addrq end_addr
          then done (true, info')
          else scan_entries fuel addrq end_addr info' rest'
    ]

-- `info` is what the caller's structure holds before the call.
unfoldable pub parse_linetable : ℕ → Bytes → ℕ → LocationInfo → Outcome (Bool × LocationInfo)
unfolding scan_entries
parse_linetable addrq linetable firstlineno info =
    scan_entries (length linetable + 1) addrq 0 (record info { lineno = firstlineno })
      (linetable ++ 0 ∷ [])

-- ===== src/Code/LineTable/Entries.antt =====
-- What the location table of pycode.cpp holds: the entries that CPython writes
-- (Objects/locations.md in its sources), as data, with their bytes and their meaning.
use pystack.Prelude.{
  ℕ, suc, if◌then◌else◌, add64, ◌+◌, ◌*◌, ◌/◌, ◌%◌, ◌^◌, ◌<◌, ◌≡◌, refl, arith, false, leb, ltb,
  ◌==◌, [], ◌∷◌, ◌++◌, add32, sub32, word32, add32_exact, sub32_exact, sub32_succ, ◌&&◌,
  bit_or-shifted, true, ◌∙◌,
}
use pystack.Memory.Maps.{Bytes}
use pystack.Code.Scan.{done, next}
use pystack.Code.Varint.{
  Delta, distance, delta_value, encode_varint, encode_signed_varint, scan_varint-encode_varint,
  scan_signed_varint-encode_signed_varint,
}
use mathlib.Core.List.{append_assoc}
use pystack.Code.LineTable.{
  LocationInfo, scan_long, scan_no_columns, scan_one_line, scan_short, scan_entry, scan_entries,
}

-- The columns of `long` are counted from 0; `end_delta` is the number of lines after the first.
pub data Kind : Type 0 where
  short : (column width : ℕ) → Kind
  one_line : (line_delta column end_column : ℕ) → Kind
  no_columns : Delta → Kind
  long : Delta → (end_delta column end_column : ℕ) → Kind
  no_location : Kind

unfoldable pub IsKind : Kind → Type 0
IsKind (short column width) = (column < 80) × (width < 16)
IsKind (one_line line_delta column end_column) =
    (line_delta < 3) × (column < 256) × (end_column < 256)
IsKind (no_columns delta) = distance delta < 2 ^ 31
IsKind (long delta end_delta column end_column) =
    (distance delta < 2 ^ 31)
    × (end_delta < word32)
    × (column + 1 < word32)
    × (end_column + 1 < word32)
IsKind no_location = Unit

unfoldable pub code_of : Kind → ℕ
code_of (short column width) = column / 8
code_of (one_line line_delta column end_column) = 10 + line_delta
code_of (no_columns delta) = 13
code_of (long delta end_delta column end_column) = 14
code_of no_location = 15

unfoldable pub payload : Kind → Bytes
payload (short column width) = (column % 8 * 16 + width) ∷ []
payload (one_line line_delta column end_column) = column ∷ end_column ∷ []
payload (no_columns delta) = encode_signed_varint delta
payload (long delta end_delta column end_column) =
    encode_signed_varint delta
    ++ (encode_varint end_delta ++ (encode_varint (column + 1) ++ encode_varint (end_column + 1)))
payload no_location = []

-- What the entry says of its instructions, after `info` for those before.
unfoldable pub locate : Kind → LocationInfo → LocationInfo
locate (short column width) info = record info { column = column; end_column = column + width }
locate (one_line line_delta column end_column) info =
    let line = add32 info.lineno line_delta in
    record { lineno = line; end_lineno = line; column = column; end_column = end_column }
locate (no_columns delta) info = record info {
  lineno = add32 info.lineno (delta_value delta);
  column = sub32 0 1;
  end_column = sub32 0 1;
}
locate (long delta end_delta column end_column) info =
    let line = add32 info.lineno (delta_value delta) in
    record {
      lineno = line;
      end_lineno = add32 line end_delta;
      column = column;
      end_column = end_column;
    }
locate no_location info = info

-- The location of an entry is read back with what follows the entry.
scan_entry-payload :
    (kind : Kind) (info : LocationInfo) (rest : Bytes)
    → IsKind kind
    → scan_entry (code_of kind) info (payload kind ++ rest) ≡ done (locate kind info, rest)
unfolding IsKind code_of payload locate scan_entry scan_long scan_no_columns scan_one_line
    scan_short next
scan_entry-payload (short column width) info rest (c, w) =
    rw
      (
        let e : (column / 8 == 15) ≡ false = ground arith in e,
        let e : (column / 8 == 14) ≡ false = ground arith in e,
        let e : (column / 8 == 13) ≡ false = ground arith in e,
        let e : leb 10 (column / 8) ≡ false = ground arith in e,
        let e : leb 128 (column % 8 * 16 + width) ≡ false = ground arith in e,
        let e : (column % 8 * 16 + width) / 16 ≡ column % 8 = omega arith in e,
        let e : (column % 8 * 16 + width) % 16 ≡ width = omega arith in e,
        bit_or-shifted 3 (column % 8) (column / 8) (omega arith),
        let e : column % 8 + column / 8 * 8 ≡ column = omega arith in e,
        add32_exact column width (omega arith),
      )
      refl
scan_entry-payload (one_line line_delta column end_column) info rest (d, c, e) =
    rw
      (
        let e : (10 + line_delta == 15) ≡ false = ground arith in e,
        let e : (10 + line_delta == 14) ≡ false = ground arith in e,
        let e : (10 + line_delta == 13) ≡ false = ground arith in e,
        let e : leb 10 (10 + line_delta) ≡ true = ground arith in e,
        let e : leb (10 + line_delta) 12 ≡ true = ground arith in e,
        let e : sub32 (10 + line_delta) 10 ≡ line_delta =
              sub32_exact (10 + line_delta) 10 (omega arith) (omega arith) ∙ omega arith in
            e,
      )
      refl
scan_entry-payload (no_columns delta) info rest fits =
    rw (scan_signed_varint-encode_signed_varint delta rest fits)
scan_entry-payload (long delta end_delta column end_column) info rest (d, e, c, f) =
    rw
      (
        append_assoc (encode_signed_varint delta)
            (encode_varint end_delta
              ++ (encode_varint (column + 1) ++ encode_varint (end_column + 1)))
            rest,
        append_assoc (encode_varint end_delta)
            (encode_varint (column + 1) ++ encode_varint (end_column + 1)) rest,
        append_assoc (encode_varint (column + 1)) (encode_varint (end_column + 1)) rest,
        scan_signed_varint-encode_signed_varint delta _ d,
        scan_varint-encode_varint end_delta _ e,
        scan_varint-encode_varint (column + 1) _ c,
        scan_varint-encode_varint (end_column + 1) rest f,
        sub32_succ column c,
        sub32_succ end_column f,
      )
      refl
scan_entry-payload no_location info rest fits = refl

code_of-bound : (kind : Kind) → IsKind kind → code_of kind < 16
unfolding IsKind code_of
code_of-bound (short column width) (c, w) = omega arith
code_of-bound (one_line line_delta column end_column) (d, c, e) = omega arith
code_of-bound (no_columns delta) fits = omega arith
code_of-bound (long delta end_delta column end_column) fits = omega arith
code_of-bound no_location fits = omega arith

-- An entry is about `more + 1` instructions.
pub record Entry : Type 0 where
  pub more : ℕ
  pub kind : Kind

abbrev pub units : Entry → ℕ
units e = e.more + 1

abbrev pub IsEntry : Entry → Type 0
IsEntry e = (e.more < 8) × IsKind e.kind

abbrev pub encode_entry : Entry → Bytes
encode_entry e = (128 + code_of e.kind * 8 + e.more) ∷ payload e.kind

-- One round of the loop, on the bytes of an entry.
pub scan_entries-entry :
    (fuel addrq addr : ℕ) (info : LocationInfo) (e : Entry) (rest : Bytes)
    → IsEntry e
    → scan_entries (suc fuel) addrq addr info (encode_entry e ++ rest) ≡ (
        if leb addr addrq && ltb addrq (add64 addr (units e))
        then done (true, locate e.kind info)
        else scan_entries fuel addrq (add64 addr (units e)) (locate e.kind info) rest)
unfolding scan_entries
scan_entries-entry fuel addrq addr info e rest (small, fits) =
    let code : code_of e.kind < 16 = code_of-bound e.kind fits in
    rw
      (
        let e' : (128 + code_of e.kind * 8 + e.more == 0) ≡ false = ground arith in e',
        let e' : (128 + code_of e.kind * 8 + e.more) / 8 % 16 ≡ code_of e.kind = omega arith in e',
        scan_entry-payload e.kind info rest fits,
        let e' : (128 + code_of e.kind * 8 + e.more) % 8 ≡ e.more = omega arith in e',
      )
      refl

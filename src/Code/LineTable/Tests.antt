-- ===== src/Code/LineTable/Tests.antt =====
-- A location table of four entries, as the bytes of CPython have it.
use pystack.Prelude.{[], ◌∷◌, ◌≡◌, true, arith, add32}
use pystack.Code.Scan.{done}
use pystack.Code.LineTable.{LocationInfo, parse_linetable}
use pystack.Code.LineTable.Entries.{Entry, IsEntry, IsKind, locate, short, no_columns, long}
use pystack.Code.LineTable.Finds.{encode, parse_linetable-finds}
use pystack.Code.Varint.{forward, backward, distance, delta_value}

abbrev blank : LocationInfo
blank = record { lineno = 7; end_lineno = 7; column = 7; end_column = 7 }

abbrev first_entry : Entry
first_entry = record { more = 1; kind = short 20 10 }

abbrev second_entry : Entry
second_entry = record { more = 7; kind = long (forward 300) 70 1000 3 }

abbrev third_entry : Entry
third_entry = record { more = 0; kind = no_columns (backward 5) }

first_valid : IsEntry first_entry
unfolding IsKind
first_valid = (omega arith, (omega arith, omega arith))

second_valid : IsEntry second_entry
unfolding IsKind distance
second_valid = (omega arith, (omega arith, omega arith, omega arith, omega arith))

third_valid : IsEntry third_entry
unfolding IsKind distance
third_valid = (omega arith, omega arith)

-- The line of `second_entry` follows from the first line and its own difference.
parse_linetable-finds_example :
    parse_linetable 5 (encode (first_entry ∷ second_entry ∷ third_entry ∷ [])) 100 blank
    ≡ done (true, record { lineno = 400; end_lineno = 470; column = 1000; end_column = 3 })
unfolding locate add32 delta_value
parse_linetable-finds_example =
    parse_linetable-finds (first_entry ∷ []) (third_entry ∷ []) second_entry 5 100 blank
      (first_valid, tt) second_valid (omega arith) (omega arith) (omega arith)

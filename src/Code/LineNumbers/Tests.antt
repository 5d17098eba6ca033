-- ===== src/Code/LineNumbers/Tests.antt =====
-- Tables of lines, and a location table under Python 3.12.
use pystack.Prelude.{◌≡◌, refl, [], ◌∷◌, arith, ◌+◌, ◌*◌, add32}
use pystack.Code.Scan.{done}
use pystack.Code.LineTable.{LocationInfo}
use pystack.Code.LineTable.Entries.{Entry, IsEntry, IsKind, locate, one_line}
use pystack.Code.LineTable.Finds as Table
use pystack.Offsets.Load.{version_is_at_least}
use pystack.Code.LineNumbers.{get_location_info}
use pystack.Code.LineNumbers.Finds.{Lines}
use pystack.Code.LineNumbers.Positions.{get_location_info-table}

abbrev start_entries : Lines
start_entries = (4, 1) ∷ (6, 254) ∷ []

abbrev blank : LocationInfo
blank = record { lineno = 7; end_lineno = 7; column = 7; end_column = 7 }

abbrev call : Entry
call = record { more = 3; kind = one_line 2 4 9 }

call-IsEntry : IsEntry call
unfolding IsKind
call-IsEntry = (omega arith, (omega arith, omega arith, omega arith))

get_location_info-table_example :
    get_location_info (3, 12) 100 (Table.encode (call ∷ call ∷ [])) (4096 + 5 * 2) 4096 blank
    ≡ done (record { lineno = 104; end_lineno = 104; column = 4; end_column = 9 })
unfolding locate add32 version_is_at_least
get_location_info-table_example =
    get_location_info-table (3, 12) (call ∷ []) [] call 5 4096 100 blank refl (call-IsEntry, tt)
      call-IsEntry (omega arith) (omega arith) (omega arith)

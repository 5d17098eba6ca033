-- ===== src/Code/LineNumbers/Positions.antt =====
-- `getLocationInfo` of pycode.cpp as a whole, on the tables that each version of CPython writes.
use pystack.Prelude.{
  ℕ, ◌+◌, ◌*◌, ◌≤◌, ◌<◌, ◌≡◌, refl, arith, true, false, List, ◌∷◌, ◌++◌, add64_exact, word, leb,
}
use pystack.Offsets.Load.{Version, version_is_at_least}
use pystack.Code.Scan.{done}
use pystack.Code.LineTable.{LocationInfo}
use pystack.Code.LineTable.Entries.{Entry, units, IsEntry, locate}
use pystack.Code.LineTable.Finds as Table
use pystack.Code.LineTable.Finds.{AreEntries, locate_all, parse_linetable-finds}
use pystack.Code.LineNumbers.{pointer_difference, moved, line_only, get_location_info}
use pystack.Code.LineNumbers.Finds as Numbers
use pystack.Code.LineNumbers.Finds.{Lines, line_after, lines_310-finds}

pointer_difference_exact : (start n : ℕ) → pointer_difference (start + n * 2) start ≡ n
unfolding pointer_difference
pointer_difference_exact start n =
    rw (let e : leb start (start + n * 2) ≡ true = ground arith in e) (omega arith)

-- From Python 3.11 on, the instruction `n` words after the start, which an entry of the table covers,
-- gets the location of that entry after those of the entries before it.
pub get_location_info-table :
    (version : Version) (before after : List Entry) (e : Entry) (n start lineno : ℕ)
    (posinfo : LocationInfo)
    → version_is_at_least version 3 11 ≡ true
    → AreEntries before
    → IsEntry e
    → Table.span before ≤ n
    → n < Table.span before + units e
    → Table.span before + units e < word
    → get_location_info version lineno
        (Table.encode (before ++ e ∷ after))
        (start + n * 2)
        start
        posinfo
      ≡ done (locate e.kind (locate_all before (record posinfo { lineno = lineno })))
unfolding get_location_info
get_location_info-table version before after e n start lineno posinfo new valid is starts covers
      small =
    rw
      (
        new,
        pointer_difference_exact start n,
        parse_linetable-finds before after e n lineno posinfo valid is starts covers small,
      )
      refl

-- In Python 3.10, the instruction at a word index gets the line after the entry that covers the
-- index's two bytes, and no columns.
pub get_location_info-lines :
    (version : Version) (before after : Lines) (s l index start lineno : ℕ) (posinfo : LocationInfo)
    → version_is_at_least version 3 11 ≡ false
    → version_is_at_least version 3 10 ≡ true
    → Numbers.span before ≤ index * 2
    → index * 2 < Numbers.span before + s
    → Numbers.span before + s < word
    → get_location_info version lineno
        (Numbers.encode (before ++ (s, l) ∷ after))
        index
        start
        posinfo
      ≡ done (line_only (moved l (line_after before lineno)))
unfolding get_location_info
get_location_info-lines version before after s l index start lineno posinfo old new starts covers
      small =
    rw
      (
        old,
        new,
        add64_exact index index (omega arith),
        let e : index + index ≡ index * 2 = omega arith in e,
        lines_310-finds before after s l (index * 2) lineno starts covers small,
      )
      refl

-- ===== src/Code/LineTable/EndLine.antt =====
-- `end_lineno` of `parse_linetable` in pycode.cpp, which three of the five kinds of entries never set.
use pystack.Prelude.{ℕ, List, [], ◌∷◌, ◌≡◌, refl, ◌∙◌, ◌≤◌, ◌<◌, ◌+◌, true, word, ◌++◌}
use pystack.Code.Scan.{done}
use pystack.Code.LineTable.{LocationInfo, parse_linetable}
use pystack.Code.LineTable.Entries.{
  Kind, short, no_columns, no_location, one_line, long, locate, Entry, units, IsEntry,
}
use pystack.Code.LineTable.Finds.{encode, span, AreEntries, locate_all, parse_linetable-finds}

-- The kinds `short`, `no_columns` and `no_location`.
abbrev pub HasNoEndLine : Kind → Type 0
HasNoEndLine (short column width) = Unit
HasNoEndLine (one_line line_delta column end_column) = ⊥
HasNoEndLine (no_columns delta) = Unit
HasNoEndLine (long delta end_delta column end_column) = ⊥
HasNoEndLine no_location = Unit

abbrev pub HaveNoEndLine : List Entry → Type 0
HaveNoEndLine [] = Unit
HaveNoEndLine (e ∷ entries) = HasNoEndLine e.kind × HaveNoEndLine entries

locate-end_lineno :
    (kind : Kind) (info : LocationInfo)
    → HasNoEndLine kind
    → (locate kind info).end_lineno ≡ info.end_lineno
unfolding locate
locate-end_lineno (short column width) info h = refl
locate-end_lineno (one_line line_delta column end_column) info h = absurd h
locate-end_lineno (no_columns delta) info h = refl
locate-end_lineno (long delta end_delta column end_column) info h = absurd h
locate-end_lineno no_location info h = refl

locate_all-end_lineno :
    (entries : List Entry) (info : LocationInfo)
    → HaveNoEndLine entries
    → (locate_all entries info).end_lineno ≡ info.end_lineno
locate_all-end_lineno [] info h = refl
locate_all-end_lineno (e ∷ entries) info (h, hs) =
    locate_all-end_lineno entries (locate e.kind info) hs ∙ locate-end_lineno e.kind info h

-- An instruction of an entry without an end line that only entries without an end line precede is found, and its
-- `end_lineno` is what the caller's structure held before the call, not the line of the instruction. The
-- callers pass a structure that nothing has initialised.
pub end_lineno_unset :
    (before after : List Entry) (e : Entry) (addrq firstlineno : ℕ) (info : LocationInfo)
    → AreEntries before
    → IsEntry e
    → HaveNoEndLine before
    → HasNoEndLine e.kind
    → span before ≤ addrq
    → addrq < span before + units e
    → span before + units e < word
    → (found : LocationInfo) × (parse_linetable addrq
          (encode (before ++ e ∷ after))
          firstlineno
          info
        ≡ done (true, found))
      × (found.end_lineno ≡ info.end_lineno)
end_lineno_unset before after e addrq firstlineno info valid is hs h starts covers small = (
  locate e.kind (locate_all before (record info { lineno = firstlineno })),
  parse_linetable-finds before after e addrq firstlineno info valid is starts covers small,
  locate-end_lineno e.kind (locate_all before (record info { lineno = firstlineno })) h
      ∙ locate_all-end_lineno before (record info { lineno = firstlineno }) hs,
)

-- ===== src/Code/LineNumbers/Finds.antt =====
-- The loops of `getLocationInfo` in pycode.cpp over tables of lines, on the bytes of a list of entries.
use pystack.Prelude.{
  ℕ, ◌+◌, ◌-◌, ◌%◌, ◌^◌, ◌≤◌, ◌<◌, ◌≡◌, refl, arith, true, false, List, [], ◌∷◌, ◌++◌, ltb, add32,
  add64, add64_exact, word,
}
use pystack.Memory.Maps.{Bytes}
use pystack.Code.LineNumbers.{signed32, signed64, moved, lines_310, lines_old}

-- The instructions that an entry is about, and its difference of lines.
abbrev pub Lines : Type 0
Lines = List (ℕ × ℕ)

abbrev pub encode : Lines → Bytes
encode [] = []
encode ((s, l) ∷ entries) = s ∷ l ∷ encode entries

abbrev pub span : Lines → ℕ
span [] = 0
span ((s, l) ∷ entries) = s + span entries

-- The line after the entries of Python 3.10, where one without a line changes nothing.
abbrev pub line_after : Lines → ℕ → ℕ
line_after [] lineno = lineno
line_after ((s, l) ∷ entries) lineno = line_after entries (moved l lineno)

-- The line after the entries of the versions before.
abbrev pub old_line_after : Lines → ℕ → ℕ
old_line_after [] lineno = lineno
old_line_after ((s, l) ∷ entries) lineno = old_line_after entries (add32 lineno (signed32 l))

lines_310-from :
    (before after : Lines) (s l limit current lineno : ℕ)
    → current + span before ≤ limit
    → limit < current + span before + s
    → current + span before + s < word
    → lines_310 limit current lineno (encode (before ++ (s, l) ∷ after))
      ≡ moved l (line_after before lineno)
unfolding lines_310
lines_310-from [] after s l limit current lineno starts covers small =
    rw
      (
        add64_exact current s (omega arith),
        let e : ltb limit (current + s) ≡ true = ground arith in e,
      )
      refl
lines_310-from ((s', l') ∷ before) after s l limit current lineno starts covers small =
    rw
      (
        add64_exact current s' (omega arith),
        let e : ltb limit (current + s') ≡ false = ground arith in e,
      )
      (lines_310-from before after s l limit (current + s') (moved l' lineno) (omega arith)
        (omega arith) (omega arith))

-- In Python 3.10, an instruction that an entry covers gets the line after that entry's difference and
-- those of all entries before it, whatever entries follow.
pub lines_310-finds :
    (before after : Lines) (s l limit lineno : ℕ)
    → span before ≤ limit
    → limit < span before + s
    → span before + s < word
    → lines_310 limit 0 lineno (encode (before ++ (s, l) ∷ after))
      ≡ moved l (line_after before lineno)
lines_310-finds before after s l limit lineno starts covers small =
    lines_310-from before after s l limit 0 lineno (omega arith) (omega arith) (omega arith)

-- No entry steps over 128 instructions or more.
abbrev pub AreShort : Lines → Type 0
AreShort [] = Unit
AreShort ((s, l) ∷ entries) = (s < 128) × AreShort entries

lines_old-from :
    (before after : Lines) (s l limit bc lineno : ℕ)
    → AreShort before
    → s < 128
    → bc + span before ≤ limit
    → limit < bc + span before + s
    → bc + span before + s < word
    → lines_old limit bc lineno (encode (before ++ (s, l) ∷ after)) ≡ old_line_after before lineno
unfolding lines_old signed64
lines_old-from [] after s l limit bc lineno short few starts covers small =
    rw
      (
        let e : ltb s 128 ≡ true = ground arith in e,
        add64_exact bc s (omega arith),
        let e : ltb limit (bc + s) ≡ true = ground arith in e,
      )
      refl
lines_old-from ((s', l') ∷ before) after s l limit bc lineno (few', short) few starts covers small =
    rw
      (
        let e : ltb s' 128 ≡ true = ground arith in e,
        add64_exact bc s' (omega arith),
        let e : ltb limit (bc + s') ≡ false = ground arith in e,
      )
      (lines_old-from before after s l limit (bc + s') (add32 lineno (signed32 l')) short few
        (omega arith) (omega arith) (omega arith))

-- Before Python 3.10, an instruction gets the line after the differences of all entries that start at
-- it or before it, if none of these nor the next one steps over 128 instructions or more.
pub lines_old-finds :
    (before after : Lines) (s l limit lineno : ℕ)
    → AreShort before
    → s < 128
    → span before ≤ limit
    → limit < span before + s
    → span before + s < word
    → lines_old limit 0 lineno (encode (before ++ (s, l) ∷ after)) ≡ old_line_after before lineno
lines_old-finds before after s l limit lineno short few starts covers small =
    lines_old-from before after s l limit 0 lineno short few (omega arith) (omega arith)
      (omega arith)

-- Before Python 3.10, a first entry that steps over 128 instructions or more ends the search: every
-- instruction gets the first line, however far behind the entry it is.
pub lines_old-stops :
    (entries : Lines) (s l limit lineno : ℕ)
    → 128 ≤ s
    → s < 256
    → limit < 2 ^ 63
    → lines_old limit 0 lineno (encode ((s, l) ∷ entries)) ≡ lineno
unfolding lines_old signed64 add64
lines_old-stops entries s l limit lineno large byte small =
    rw
      (
        let e : ltb s 128 ≡ false = ground arith in e,
        let e : ltb limit ((0 + (s + 2 ^ 64 - 256)) % 2 ^ 64) ≡ true = ground arith in e,
      )
      refl

-- ===== src/Code/LineTable/Finds.antt =====
-- `parse_linetable` of pycode.cpp on the bytes of a list of entries.
use pystack.Prelude.{
  ◌-◌, ℕ, suc, ◌+◌, ◌≤◌, ◌<◌, ◌≡◌, refl, sym, ap, ◌∙◌, arith, true, false, leb, ltb, List, [], ◌∷◌,
  ◌++◌, length, length-append, add64_exact, word,
}
use mathlib.Core.List.{append_assoc}
use pystack.Memory.Maps.{Bytes}
use pystack.Code.Scan.{done}
use pystack.Code.LineTable.{LocationInfo, scan_entries, parse_linetable}
use pystack.Code.LineTable.Entries.{Entry, units, IsEntry, encode_entry, locate, scan_entries-entry}

abbrev pub encode : List Entry → Bytes
encode [] = []
encode (e ∷ entries) = encode_entry e ++ encode entries

-- The number of instructions that the entries are about.
abbrev pub span : List Entry → ℕ
span [] = 0
span (e ∷ entries) = units e + span entries

abbrev pub AreEntries : List Entry → Type 0
AreEntries [] = Unit
AreEntries (e ∷ entries) = IsEntry e × AreEntries entries

-- What the entries say, each after the ones before it.
abbrev pub locate_all : List Entry → LocationInfo → LocationInfo
locate_all [] info = info
locate_all (e ∷ entries) info = locate_all entries (locate e.kind info)

length-encode : (entries : List Entry) → length entries ≤ length (encode entries)
length-encode [] = omega arith
length-encode (e ∷ entries) =
    omega (arith, length-encode entries, length-append (encode_entry e) (encode entries))

encode-append : (xs ys : List Entry) → encode (xs ++ ys) ≡ encode xs ++ encode ys
encode-append [] ys = refl
encode-append (e ∷ xs) ys =
    ap (λ (t : Bytes). encode_entry e ++ t) (encode-append xs ys)
    ∙ sym (append_assoc (encode_entry e) (encode xs) (encode ys))

-- Entries that end before the instruction are passed over.
scan_entries-skips :
    (before : List Entry) (fuel addrq addr : ℕ) (info : LocationInfo) (rest : Bytes)
    → AreEntries before
    → addr + span before ≤ addrq
    → addrq < word
    → scan_entries (length before + fuel) addrq addr info (encode before ++ rest)
      ≡ scan_entries fuel addrq (addr + span before) (locate_all before info) rest
scan_entries-skips [] fuel addrq addr info rest valid ends small =
    rw (let e : 0 + fuel ≡ fuel = omega arith in e, let e : addr + 0 ≡ addr = omega arith in e) refl
scan_entries-skips (e ∷ before) fuel addrq addr info rest (is, valid) ends small =
    rw
      (
        let h : suc (length before) + fuel ≡ suc (length before + fuel) = omega arith in h,
        append_assoc (encode_entry e) (encode before) rest,
        scan_entries-entry (length before + fuel) addrq addr info e (encode before ++ rest) is,
        add64_exact addr (units e) (omega arith),
        let h : leb addr addrq ≡ true = ground arith in h,
        let h : ltb addrq (addr + units e) ≡ false = ground arith in h,
        let h : addr + (units e + span before) ≡ addr + units e + span before = omega arith in h,
      )
      (scan_entries-skips before fuel addrq (addr + units e) (locate e.kind info) rest valid
        (omega arith) small)

fuel-suc : (n m : ℕ) → n ≤ m → m + 1 ≡ n + suc (m - n)
fuel-suc n m h = omega arith

-- An instruction that an entry covers gets the location of that entry, after those of the entries before
-- it, whatever entries follow.
pub parse_linetable-finds :
    (before after : List Entry) (e : Entry) (addrq firstlineno : ℕ) (info : LocationInfo)
    → AreEntries before
    → IsEntry e
    → span before ≤ addrq
    → addrq < span before + units e
    → span before + units e < word
    → parse_linetable addrq (encode (before ++ e ∷ after)) firstlineno info
      ≡ done (true, locate e.kind (locate_all before (record info { lineno = firstlineno })))
unfolding parse_linetable
parse_linetable-finds before after e addrq firstlineno info valid is starts covers small =
    let bytes = encode before ++ encode (e ∷ after) in
    let room = length bytes - length before in
    let start = record info { lineno = firstlineno } in
    rw
      (
        encode-append before (e ∷ after),
        fuel-suc (length before) (length bytes) (
            omega
              (arith, length-append (encode before) (encode (e ∷ after)), length-encode before)),
        append_assoc (encode before) (encode (e ∷ after)) (0 ∷ []),
        scan_entries-skips before (suc room) addrq 0 start (encode (e ∷ after) ++ 0 ∷ []) valid
            (omega arith) (omega arith),
      )
      (ap
          (λ (t : ℕ).
            scan_entries (suc room) addrq t (locate_all before start)
              (encode (e ∷ after) ++ 0 ∷ []))
          (let h : 0 + span before ≡ span before = omega arith in h)
        ∙ ap
            (λ (t : Bytes). scan_entries (suc room) addrq (span before) (locate_all before start) t)
            (append_assoc (encode_entry e) (encode after) (0 ∷ []))
        ∙ scan_entries-entry room addrq (span before) (locate_all before start) e
            (encode after ++ 0 ∷ []) is
        ∙ rw
            (
              add64_exact (span before) (units e) small,
              let l : leb (span before) addrq ≡ true = ground arith in l,
              let l : ltb addrq (span before + units e) ≡ true = ground arith in l,
            )
            refl)

-- An instruction after all the entries is not found; the structure is left as the last entry leaves it.
pub parse_linetable-misses :
    (entries : List Entry) (addrq firstlineno : ℕ) (info : LocationInfo)
    → AreEntries entries
    → span entries ≤ addrq
    → addrq < word
    → parse_linetable addrq (encode entries) firstlineno info
      ≡ done (false, locate_all entries (record info { lineno = firstlineno }))
unfolding parse_linetable
parse_linetable-misses entries addrq firstlineno info valid after small =
    rw (fuel-suc (length entries) (length (encode entries)) (length-encode entries)) (
      scan_entries-skips entries (suc (length (encode entries) - length entries)) addrq 0
        (record info { lineno = firstlineno }) (0 ∷ []) valid (omega arith) small
      ∙ refl)

-- ===== src/Corefile/Encoded.antt =====
-- `parseCoreFileNote` of corefile.cpp on the note that a kernel writes, whole or cut within a name.
use pystack.Prelude.{
  drop-append, ℕ, ◌+◌, ◌*◌, ◌/◌, ◌^◌, ◌<◌, ◌≡◌, refl, ap, ◌∙◌, arith, false, some, [], ◌∷◌, ◌++◌,
  drop, map, length, length-append, ltb, ◌==◌, List, drop-add,
}
use mathlib.Core.List.{append-nil, append_assoc}
use pystack.Memory.Maps.{Bytes}
use pystack.Version.Hex.{to_bytes}
use pystack.Corefile.{success, error, Elf, NoteData}
use pystack.Corefile.Mapped.{CoreVirtualMap, named_map, parse_entries, parse_core_file_note}
use pystack.Corefile.Reads.{
  IsName, IsName-append, after_nul-none, length-to_bytes, read_ulong-to_bytes, c_string-IsName,
  after_nul-IsName,
}

-- A file as the kernel knows it: from one address up to another, from a page of the file on.
pub record MappedFile : Type 0 where
  pub start : ℕ
  pub end : ℕ
  pub page : ℕ
  pub name : Bytes

pub record IsMappedFile (f : MappedFile) : Type 0 where
  pub start : f.start < 256 ^ 8
  pub end : f.end < 256 ^ 8
  pub page : f.page < 256 ^ 8
  pub name : IsName f.name

abbrev pub AreMappedFiles : List MappedFile → Type 0
AreMappedFiles [] = Unit {0}
AreMappedFiles (f ∷ files) = IsMappedFile f × AreMappedFiles files

-- The table of the files, in front of the rest.
abbrev pub table_of : List MappedFile → Bytes → Bytes
table_of [] rest = rest
table_of (f ∷ files) rest =
    to_bytes 8 f.start ++ (to_bytes 8 f.end ++ (to_bytes 8 f.page ++ table_of files rest))

-- Their names, each with a NUL, in front of what pads the note.
abbrev pub names_of : List MappedFile → Bytes → Bytes
names_of [] rest = rest
names_of (f ∷ files) rest = f.name ++ (0 ∷ names_of files rest)

abbrev pub note_bytes : ℕ → List MappedFile → Bytes → Bytes
note_bytes page_size files padding =
    to_bytes 8 (length files) ++ (to_bytes 8 page_size ++ table_of files (names_of files padding))

-- The note ends within the name of the last file.
abbrev pub unended_note_bytes : ℕ → List MappedFile → MappedFile → Bytes
unended_note_bytes page_size files last =
    let all_files = files ++ (last ∷ []) in
    to_bytes 8 (length all_files)
    ++ (to_bytes 8 page_size ++ table_of all_files (names_of files last.name))

-- The file with the name that is read on.
abbrev pub read_on : MappedFile → Bytes → MappedFile
read_on f more = record f { name = f.name ++ more }

abbrev pub map_of_file : ℕ → MappedFile → CoreVirtualMap
map_of_file page_size f = named_map f.start f.end (f.page * page_size) f.name

drop-table_of :
    (files : List MappedFile) (rest : Bytes) → drop (length files * 24) (table_of files rest) ≡ rest
drop-table_of [] rest = refl
drop-table_of (f ∷ files) rest =
    let e : length (f ∷ files) * 24 ≡ 8 + (8 + (8 + length files * 24)) = omega arith in
    rw
      (
        e,
        drop-add 8 (8 + (8 + length files * 24)) (table_of (f ∷ files) rest),
        drop-append (to_bytes 8 f.start)
            (to_bytes 8 f.end ++ (to_bytes 8 f.page ++ table_of files rest)) 8
            (length-to_bytes 8 f.start),
        drop-add 8 (8 + length files * 24)
            (to_bytes 8 f.end ++ (to_bytes 8 f.page ++ table_of files rest)),
        drop-append (to_bytes 8 f.end) (to_bytes 8 f.page ++ table_of files rest) 8
            (length-to_bytes 8 f.end),
        drop-add 8 (length files * 24) (to_bytes 8 f.page ++ table_of files rest),
        drop-append (to_bytes 8 f.page) (table_of files rest) 8 (length-to_bytes 8 f.page),
      )
      (drop-table_of files rest)

length-table_of :
    (files : List MappedFile) (rest : Bytes)
    → length (table_of files rest) ≡ length files * 24 + length rest
length-table_of [] rest = omega arith
length-table_of (f ∷ files) rest =
    rw
      (
        length-append (to_bytes 8 f.start)
            (to_bytes 8 f.end ++ (to_bytes 8 f.page ++ table_of files rest)),
        length-append (to_bytes 8 f.end) (to_bytes 8 f.page ++ table_of files rest),
        length-append (to_bytes 8 f.page) (table_of files rest),
        length-to_bytes 8 f.start,
        length-to_bytes 8 f.end,
        length-to_bytes 8 f.page,
      )
      (omega (arith, length-table_of files rest))

module _ (elf : Elf) (address_size : elf.address_size ≡ 8) (page_size : ℕ) where
  parse_entries-table_of :
      (files : List MappedFile) (rest beyond padding : Bytes) (result : List CoreVirtualMap)
      → AreMappedFiles files
      → parse_entries elf page_size
          (length files)
          (table_of files rest)
          beyond
          (names_of files padding)
          result
        ≡ some (success, result ++ map (map_of_file page_size) files)
  unfolding parse_entries
  parse_entries-table_of [] rest beyond padding result h = rw (append-nil result) refl
  parse_entries-table_of (f ∷ files) rest beyond padding result (is, h) =
      rw
        (
          read_ulong-to_bytes elf f.start
              (to_bytes 8 f.end ++ (to_bytes 8 f.page ++ table_of files rest)) address_size
              is.start,
          read_ulong-to_bytes elf f.end (to_bytes 8 f.page ++ table_of files rest) address_size
              is.end,
          read_ulong-to_bytes elf f.page (table_of files rest) address_size is.page,
          append_assoc f.name (0 ∷ names_of files padding) beyond,
          c_string-IsName f.name (names_of files padding ++ beyond) is.name,
          after_nul-IsName f.name (names_of files padding) is.name,
        )
        (parse_entries-table_of files rest beyond padding (result ++ (map_of_file page_size f ∷ []))
            h
          ∙ ap (λ m. some (success, m))
              (append_assoc result (map_of_file page_size f ∷ [])
                (map (map_of_file page_size) files)))

  parse_entries_overrun :
      (files : List MappedFile) (last : MappedFile) (rest more behind : Bytes)
      (result : List CoreVirtualMap)
      → AreMappedFiles files
      → IsMappedFile last
      → IsName more
      → parse_entries elf page_size
          (length (files ++ (last ∷ [])))
          (table_of (files ++ (last ∷ [])) rest)
          (more ++ (0 ∷ behind))
          (names_of files last.name)
          result
        ≡ some (error, result ++ map (map_of_file page_size) (files ++ (read_on last more ∷ [])))
  unfolding parse_entries
  parse_entries_overrun [] last rest more behind result h is more_name =
      rw
        (
          read_ulong-to_bytes elf last.start (to_bytes 8 last.end ++ (to_bytes 8 last.page ++ rest))
              address_size is.start,
          read_ulong-to_bytes elf last.end (to_bytes 8 last.page ++ rest) address_size is.end,
          read_ulong-to_bytes elf last.page rest address_size is.page,
          ← append_assoc last.name more (0 ∷ behind),
          c_string-IsName (last.name ++ more) behind
              (IsName-append last.name more is.name more_name),
          after_nul-none last.name is.name,
        )
        refl
  parse_entries_overrun (f ∷ files) last rest more behind result (f_is, h) is more_name =
      let files_all = files ++ (last ∷ []) in
      rw
        (
          read_ulong-to_bytes elf f.start
              (to_bytes 8 f.end ++ (to_bytes 8 f.page ++ table_of files_all rest)) address_size
              f_is.start,
          read_ulong-to_bytes elf f.end (to_bytes 8 f.page ++ table_of files_all rest) address_size
              f_is.end,
          read_ulong-to_bytes elf f.page (table_of files_all rest) address_size f_is.page,
          append_assoc f.name (0 ∷ names_of files last.name) (more ++ (0 ∷ behind)),
          c_string-IsName f.name (names_of files last.name ++ (more ++ (0 ∷ behind))) f_is.name,
          after_nul-IsName f.name (names_of files last.name) f_is.name,
        )
        (parse_entries_overrun files last rest more behind
            (result ++ (map_of_file page_size f ∷ [])) h is more_name
          ∙ ap (λ m. some (error, m))
              (append_assoc result (map_of_file page_size f ∷ [])
                (map (map_of_file page_size) (files ++ (read_on last more ∷ [])))))

-- The numbers in front are read, and the loop is at the first entry and at the first name.
parse_core_file_note-entries :
    (core : Elf) (note : NoteData) (page_size : ℕ) (files : List MappedFile) (names : Bytes)
    (result : List CoreVirtualMap)
    → core.address_size ≡ 8
    → note.elf.address_size ≡ 8
    → note.d_buf ≡ to_bytes 8 (length files) ++ (to_bytes 8 page_size ++ table_of files names)
    → length files < 256 ^ 8
    → page_size < 256 ^ 8
    → parse_core_file_note core note result
      ≡ parse_entries note.elf page_size
          (length files)
          (table_of files names)
          note.beyond
          names
          result
unfolding parse_core_file_note
parse_core_file_note-entries core note page_size files names result e d is few small =
    let is_0 : (note.elf.address_size == 0) ≡ false = rw d refl in
    let fits : ltb (length (table_of files names) / 24) (length files) ≡ false =
      rw (length-table_of files names) (ground arith) in
    rw
      (
        is_0,
        is,
        e,
        read_ulong-to_bytes note.elf (length files) (to_bytes 8 page_size ++ table_of files names) d
            few,
        read_ulong-to_bytes note.elf page_size (table_of files names) d small,
        fits,
        drop-table_of files names,
      )
      refl

-- From a note of a 64-bit core file that lists files as the kernel does, with fewer than 2 ^ 64 of them,
-- each is read in turn: its addresses, the place in the file, modulo 2 ^ 64, and its name. What the note
-- is padded with does not matter.
pub parse_core_file_note-note_bytes :
    (core : Elf) (note : NoteData) (page_size : ℕ) (files : List MappedFile) (padding : Bytes)
    (result : List CoreVirtualMap)
    → core.address_size ≡ 8
    → note.elf.address_size ≡ 8
    → note.d_buf ≡ note_bytes page_size files padding
    → length files < 256 ^ 8
    → page_size < 256 ^ 8
    → AreMappedFiles files
    → parse_core_file_note core note result
      ≡ some (success, result ++ map (map_of_file page_size) files)
parse_core_file_note-note_bytes core note page_size files padding result e d is few small h =
    let names = names_of files padding in
    parse_core_file_note-entries core note page_size files names result e d is few small
    ∙ parse_entries-table_of note.elf d page_size files names note.beyond padding result h

-- When the last name of a note of a 64-bit core file has no NUL within the note, it is read on through
-- the bytes behind the note up to a NUL. The note is refused, but all its files stay in the result, the
-- last one with the name that was read on.
pub parse_core_file_note_overrun :
    (core : Elf) (note : NoteData) (page_size : ℕ) (files : List MappedFile) (last : MappedFile)
    (more behind : Bytes) (result : List CoreVirtualMap)
    → core.address_size ≡ 8
    → note.elf.address_size ≡ 8
    → note.d_buf ≡ unended_note_bytes page_size files last
    → note.beyond ≡ more ++ (0 ∷ behind)
    → length (files ++ (last ∷ [])) < 256 ^ 8
    → page_size < 256 ^ 8
    → AreMappedFiles files
    → IsMappedFile last
    → IsName more
    → parse_core_file_note core note result
      ≡ some (error, result ++ map (map_of_file page_size) (files ++ (read_on last more ∷ [])))
parse_core_file_note_overrun core note page_size files last more behind result e d is after few
      small h last_is more_name =
    let names = names_of files last.name in
    parse_core_file_note-entries core note page_size (files ++ (last ∷ [])) names result e d is few
      small
    ∙ rw after (
        parse_entries_overrun note.elf d page_size files last names more behind result h last_is
          more_name)

-- ===== src/Corefile/NoteTests.antt =====
-- The notes of a small segment, as elf_common.cpp collects them.
use pystack.Prelude.{
  zero, suc, ◌+◌, ◌<◌, ◌≡◌, arith, true, Bool-cases, Option, some, none, inl, inr, List, [], ◌∷◌,
  ◌++◌, ◌==◌, if◌then◌else◌, Member,
}
use pystack.Memory.Maps.{Bytes}
use pystack.Corefile.{Elf, NoteData}
use pystack.Corefile.Notes.{Note, NoteElf, NoteSegment, GoesOn}

abbrev elf_64 : Elf
elf_64 = record { word_size = 4; address_size = 8; auxv_size = 16; is_64 = true }

-- "LINUX" and "CORE" with their NULs.
abbrev names : Bytes
names = b'L' ∷ b'I' ∷ b'N' ∷ b'U' ∷ b'X' ∷ 0 ∷ b'C' ∷ b'O' ∷ b'R' ∷ b'E' ∷ 0 ∷ 7 ∷ []

abbrev foreign_note : Note
foreign_note = record {
  next_offset = 6;
  name_offset = 0;
  desc_offset = 6;
  header = record { n_namesz = 6; n_descsz = 0; n_type = 6 };
}

abbrev core_note : Note
core_note = record {
  next_offset = 12;
  name_offset = 6;
  desc_offset = 11;
  header = record { n_namesz = 5; n_descsz = 1; n_type = 6 };
}

abbrev small_elf : NoteElf
small_elf = record {
  elf = elf_64;
  getnote = λ p_offset offset.
      if offset == 0 then some foreign_note else if offset == 6 then some core_note else none;
  rawchunk = λ offset size.
      if size == 12
      then some (record { d_buf = names; beyond = []; getauxv = λ i. none })
      else if size == 1
      then some (record { d_buf = 7 ∷ []; beyond = []; getauxv = λ i. none })
      else none;
}

small_elf-GoesOn : GoesOn small_elf
small_elf-GoesOn p_offset offset note h = elim (Bool-cases (offset == 0)) [
  | inl e ↦
      let f : some foreign_note ≡ some note = rw e at h in
      let same : foreign_note ≡ note = cc in rw (← same) (ground arith)
  | inr e ↦ elim (Bool-cases (offset == 6)) [
    | inl f ↦
        let g : some core_note ≡ some note = rw (e, f) at h in
        let same : core_note ≡ note = cc in rw (← same) (ground arith)
    | inr f ↦ absurd (let g : none ≡ some note = rw (e, f) at h in cc)
  ]
]

abbrev segments : List (Option NoteSegment)
segments =
    some (record { p_type = 1; p_offset = 0; p_filesz = 9 })
    ∷ (some (record { p_type = 4; p_offset = 100; p_filesz = 12 }) ∷ [])

abbrev wanted : NoteData
wanted = record {
  elf = elf_64;
  d_buf = 7 ∷ [];
  beyond = [];
  descriptor_size = 1;
  getauxv = λ i. none;
}

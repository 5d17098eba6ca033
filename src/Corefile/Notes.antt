-- ===== src/Corefile/Notes.antt =====
-- `getDataFromNoteSection` and `getNoteData` of elf_common.cpp: the notes of a type. What libelf says of
-- the file is a parameter.
use pystack.Prelude.{
  ℕ, zero, suc, ◌<◌, ◌≡◌, ◌⊎◌, Bool, true, false, not, ◌&&◌, Option, none, some, List, [], ◌∷◌,
  take, drop, length, leb, ltb, ◌==◌, if◌then◌else◌, add64, same_bytes, get_elem?,
}
use pystack.Memory.Maps.{Bytes}
use pystack.Corefile.{Elf, NoteData}

-- `GElf_Nhdr`
pub record NoteHeader : Type 0 where
  pub n_namesz : ℕ
  pub n_descsz : ℕ
  pub n_type : ℕ

-- What `gelf_getnote` gives at an offset, if its result is not 0.
pub record Note : Type 0 where
  pub next_offset : ℕ
  pub name_offset : ℕ
  pub desc_offset : ℕ
  pub header : NoteHeader

-- `Elf_Data`, with what can be read behind it, and `gelf_getauxv` of it.
pub record Chunk : Type 0 where
  pub d_buf : Bytes
  pub beyond : Bytes
  pub getauxv : ℕ → Option (ℕ × ℕ)

pub record NoteElf : Type 0 where
  pub elf : Elf
  -- `gelf_getnote` of the data at a place of the file
  pub getnote : ℕ → ℕ → Option Note
  -- `elf_getdata_rawchunk`
  pub rawchunk : ℕ → ℕ → Option Chunk

-- The last two are no results of the program: a name is read outside the data, or a loop goes on.
pub data Collected : Type 0 where
  collected : List NoteData → Collected
  open_behaviour out_of_fuel : Collected

abbrev pub core_name : Bytes
core_name = b'C' ∷ b'O' ∷ b'R' ∷ b'E' ∷ []

-- Whether the text at a name starts with "CORE"; it has to have so many bytes to be read.
abbrev pub name_is_core : ℕ → Bytes → Option Bool
name_is_core n name =
    if leb n (length name) then some (same_bytes (take 4 name) core_name) else none

abbrev pub ends_with_nul : Option ℕ → Bool
ends_with_nul none = false
ends_with_nul (some c) = c == 0

unfoldable pub is_note_of_desired_type : Bytes → ℕ → NoteHeader → Option Bool
is_note_of_desired_type name type nhdr =
    if not (nhdr.n_type == type)
    then some false
    else if nhdr.n_namesz == 4
    then name_is_core 4 name
    else if nhdr.n_namesz == 5
    then if leb 5 (length name) && not (ends_with_nul (get_elem? name 4))
      then some false
      else name_is_core 5 name
    else some false

abbrev pub add_note : NoteData → Collected → Collected
add_note note (collected notes) = collected (note ∷ notes)
add_note note open_behaviour = open_behaviour
add_note note out_of_fuel = out_of_fuel

-- A note whose data is missing is passed over.
abbrev pub add_chunk : NoteElf → Note → Option Chunk → Collected → Collected
add_chunk e note none rest = rest
add_chunk e note (some chunk) rest =
    add_note
      (record {
        elf = e.elf;
        d_buf = chunk.d_buf;
        beyond = chunk.beyond;
        descriptor_size = note.header.n_descsz;
        getauxv = chunk.getauxv;
      })
      rest

-- So is one that is not wanted.
abbrev pub keep_note : NoteElf → ℕ → Note → Option Bool → Collected → Collected
keep_note e p_offset note none rest = open_behaviour
keep_note e p_offset note (some false) rest = rest
keep_note e p_offset note (some true) rest =
    add_chunk e note (e.rawchunk (add64 p_offset note.desc_offset) note.header.n_descsz) rest

abbrev pub name_of : Bytes → Note → Bytes
name_of buffer note = if note.header.n_namesz == 0 then [] else drop note.name_offset buffer

-- The loop from an offset on, with fuel.
unfoldable pub data_from_note_section : NoteElf → ℕ → ℕ → Bytes → ℕ → ℕ → Collected
unfolding is_note_of_desired_type
data_from_note_section e type p_offset buffer zero note_offset = out_of_fuel
data_from_note_section e type p_offset buffer (suc fuel) note_offset =
    if not (ltb note_offset (length buffer))
    then collected []
    else (elim (e.getnote p_offset note_offset) [
      | none ↦ collected []
      | some note ↦
          keep_note e p_offset note (is_note_of_desired_type (name_of buffer note) type note.header)
            (data_from_note_section e type p_offset buffer fuel note.next_offset)
    ])

-- `GElf_Phdr`, as far as it is read.
pub record NoteSegment : Type 0 where
  pub p_type : ℕ
  pub p_offset : ℕ
  pub p_filesz : ℕ

-- The first header of type PT_NOTE whose data can be read; one that cannot be read is `none`.
unfoldable pub note_segment_data : NoteElf → List (Option NoteSegment) → Option (ℕ × Bytes)
note_segment_data e [] = none
note_segment_data e (none ∷ headers) = note_segment_data e headers
note_segment_data e (some h ∷ headers) =
    let rest = note_segment_data e headers in
    if not (h.p_type == 4) then rest else (elim (e.rawchunk h.p_offset h.p_filesz) [
      | none ↦ rest
      | some chunk ↦ some (h.p_offset, chunk.d_buf)
    ])

-- `headers` is `none` when `elf_getphdrnum` fails. The fuel is one more than the segment has bytes.
unfoldable pub get_note_data : NoteElf → Option (List (Option NoteSegment)) → ℕ → Collected
unfolding note_segment_data data_from_note_section
get_note_data e none type = collected []
get_note_data e (some headers) type = elim (note_segment_data e headers) [
  | none ↦ collected []
  | some (p_offset, buffer) ↦ data_from_note_section e type p_offset buffer (suc (length buffer)) 0
]

-- `gelf_getnote` gives the offset of a later note.
abbrev pub GoesOn : NoteElf → Type 0
GoesOn e =
    (p_offset note_offset : ℕ) (note : Note)
    → e.getnote p_offset note_offset ≡ some note
    → note_offset < note.next_offset

-- The name is "CORE", with or without its NUL, and nothing else.
abbrev pub IsCoreName : NoteHeader → Bytes → Type 0
IsCoreName nhdr name =
    (same_bytes (take 4 name) core_name ≡ true)
    × ((nhdr.n_namesz ≡ 4) ⊎ ((nhdr.n_namesz ≡ 5) × (get_elem? name 4 ≡ some 0)))

-- A note of the type, with the name "CORE", and data of the size that it says.
abbrev pub IsNote : NoteElf → ℕ → ℕ → Bytes → NoteData → Type 0
IsNote e type p_offset buffer data' =
    (offset : ℕ) × (note : Note) × (chunk : Chunk) × (e.getnote p_offset offset ≡ some note)
    × (note.header.n_type ≡ type)
    × IsCoreName note.header (name_of buffer note)
    × (e.rawchunk (add64 p_offset note.desc_offset) note.header.n_descsz ≡ some chunk)
    × (data'.d_buf ≡ chunk.d_buf)
    × (data'.descriptor_size ≡ note.header.n_descsz)

-- ===== src/Corefile/Mapped.antt =====
-- `parseCoreFileNote` and `extractMappedFiles` of corefile.cpp: the files that were mapped.
use pystack.Prelude.{
  ℕ, zero, suc, ◌*◌, ◌/◌, ◌%◌, Option, none, some, List, [], ◌∷◌, ◌++◌, drop, length, ltb, ◌==◌,
  if◌then◌else◌, word,
}
use pystack.Memory.Maps.{Bytes}
use pystack.Corefile.{
  StatusCode, success, error, Elf, NoteData, ◌>>=◌, read_obj, first_success, CoreFile,
}

pub record CoreVirtualMap : Type 0 where
  pub start : ℕ
  pub end : ℕ
  pub filesize : ℕ
  pub flags : Bytes
  pub offset : ℕ
  pub device : Bytes
  pub inode : ℕ
  pub path : Bytes
  pub buildid : Bytes

-- `std::string(const char*)` on the bytes that can be read, which it leaves when there is no NUL.
unfoldable pub c_string : Bytes → Option Bytes
c_string [] = none
c_string (c ∷ ptr) = if c == 0 then some [] else c_string ptr >>= λ s. some (c ∷ s)

-- `memchr(ptr, 0, end - ptr) + 1`
unfoldable pub after_nul : Bytes → Option Bytes
after_nul [] = none
after_nul (c ∷ ptr) = if c == 0 then some ptr else after_nul ptr

-- Into a `uint64_t` without a value: when fewer bytes are written, the others have any value.
unfoldable pub read_ulong : Elf → Bytes → Option (ℕ × Bytes)
unfolding read_obj
read_ulong elf ptr = if elf.address_size == 8 then read_obj 8 8 0 ptr else none

unfoldable pub named_map : ℕ → ℕ → ℕ → Bytes → CoreVirtualMap
named_map mstart mend offset filename = record {
  start = mstart;
  end = mend;
  filesize = 0;
  flags = [];
  offset = offset % word;
  device = [];
  inode = 0;
  path = filename;
  buildid = [];
}

-- The loop over the entries: `ptr` is at an entry, and `filenames` at its name. A name without a NUL is
-- read on behind the data, and the test for the NUL comes after that.
unfoldable pub parse_entries :
    Elf
    → ℕ
    → ℕ
    → Bytes
    → Bytes
    → Bytes
    → List CoreVirtualMap
    → Option (StatusCode × List CoreVirtualMap)
unfolding read_ulong c_string after_nul named_map
parse_entries elf page_size zero ptr beyond filenames result = some (success, result)
parse_entries elf page_size (suc count) ptr beyond filenames result =
    read_ulong elf ptr >>= λ mstart. read_ulong elf mstart.1 >>= λ mend.
    read_ulong elf mend.1 >>= λ moffset. c_string (filenames ++ beyond) >>= λ filename.
    let result = result ++ (named_map mstart.0 mend.0 (moffset.0 * page_size) filename ∷ []) in
    elim (after_nul filenames) [
      | none ↦ some (error, result)
      | some next_filename ↦ parse_entries elf page_size count moffset.1 beyond next_filename result
    ]

unfoldable pub parse_core_file_note :
    Elf → NoteData → List CoreVirtualMap → Option (StatusCode × List CoreVirtualMap)
unfolding read_ulong parse_entries
parse_core_file_note core note result =
    if note.elf.address_size == 0
    then some (error, result)
    else read_ulong note.elf note.d_buf >>= λ count. read_ulong note.elf count.1 >>= λ page_size.
        let entry_size = 3 * core.address_size in
        if entry_size == 0
        then none
        else if ltb (length page_size.1 / entry_size) count.0
        then some (error, result)
        else parse_entries note.elf page_size.0 count.0 page_size.1 note.beyond
            (drop (count.0 * entry_size) page_size.1) result

unfoldable pub extract_mapped_files : CoreFile → Option (List CoreVirtualMap)
unfolding first_success parse_core_file_note
extract_mapped_files core =
    first_success (parse_core_file_note core.elf) core.file_notes [] >>= λ r. some r.1

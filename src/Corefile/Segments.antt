-- ===== src/Corefile/Segments.antt =====
-- `populateMaps`, `findExecFn` and `extractExecutable` of corefile.cpp, and `parse_permissions` of
-- elf_common.cpp. What libelf and libdwfl say, and the file's content, are parameters.
use pystack.Prelude.{
  ℕ, zero, suc, ◌+◌, ◌/◌, ◌%◌, Bool, true, false, not, ◌&&◌, Option, none, some, List, [], ◌∷◌,
  ◌++◌, map, drop, leb, ◌==◌, if◌then◌else◌, add64, sub64,
}
use pystack.Memory.Maps.{Bytes}
use pystack.Memory.Core.{SimpleVirtualMap}
use pystack.Corefile.{StatusCode, success, error, NoteData, ◌>>=◌, first_success, CoreFile}
use pystack.Corefile.Mapped.{CoreVirtualMap}

-- `GElf_Phdr`, as far as it is read.
pub record SegmentHeader : Type 0 where
  pub p_type : ℕ
  pub p_flags : ℕ
  pub p_vaddr : ℕ
  pub p_memsz : ℕ
  pub p_filesz : ℕ
  pub p_offset : ℕ

unfoldable pub parse_permissions : ℕ → Bytes
parse_permissions flags =
    (if flags / 4 % 2 == 1 then b'r' ∷ [] else [])
    ++ ((if flags / 2 % 2 == 1 then b'w' ∷ [] else [])
        ++ (if flags % 2 == 1 then b'x' ∷ [] else []))

unfoldable pub is_within : ℕ → ℕ → SimpleVirtualMap → Bool
is_within start end m = leb m.start start && leb end m.end

-- The name of the first module that a segment lies in.
unfoldable pub filename_of : ℕ → ℕ → List SimpleVirtualMap → Bytes
unfolding is_within
filename_of start end [] = []
filename_of start end (m ∷ module_info) =
    if is_within start end m then m.filename else filename_of start end module_info

-- A module with the name that `locateLibrary` gives for its own.
abbrev relocated : (Bytes → Bytes) → SimpleVirtualMap → SimpleVirtualMap
relocated locate_library m = record m { filename = locate_library m.filename }

module _ (get_build_id : Bytes → Bytes) where
  unfoldable pub segment_map : List SimpleVirtualMap → SegmentHeader → CoreVirtualMap
  unfolding filename_of parse_permissions add64
  segment_map module_info phdr =
      let end = add64 phdr.p_vaddr phdr.p_memsz in
      let filename = filename_of phdr.p_vaddr end module_info in
      record {
        start = phdr.p_vaddr;
        end = end;
        filesize = phdr.p_filesz;
        flags = parse_permissions phdr.p_flags;
        offset = phdr.p_offset;
        device = [];
        inode = 0;
        path = filename;
        buildid = get_build_id filename;
      }

  -- The loop over the headers; one that cannot be read is `none`.
  unfoldable pub segment_maps :
      List SimpleVirtualMap → List (Option SegmentHeader) → List CoreVirtualMap
  unfolding segment_map
  segment_maps module_info [] = []
  segment_maps module_info (none ∷ headers) = segment_maps module_info headers
  segment_maps module_info (some phdr ∷ headers) =
      let rest = segment_maps module_info headers in
      if not (phdr.p_type == 1) then rest else segment_map module_info phdr ∷ rest

  -- The three exceptions are one: `none`. `is_core` is about the header of the file, `modules` is what
  -- `dwfl_getmodules` hands out, and `headers` what `gelf_getphdr` gives.
  unfoldable pub populate_maps :
      (Bytes → Bytes)
      → Bool
      → Option (List SimpleVirtualMap)
      → Option (List (Option SegmentHeader))
      → Option (List SimpleVirtualMap × List CoreVirtualMap)
  unfolding segment_maps
  populate_maps locate_library false modules headers = none
  populate_maps locate_library true modules headers = modules >>= λ modules. headers >>= λ headers.
      let module_info = map (relocated locate_library) modules in
      some (module_info, segment_maps module_info headers)

-- The loop over the entries from an index on, of which there are so many.
unfoldable pub find_auxv : (ℕ → Option (ℕ × ℕ)) → ℕ → ℕ → Option ℕ
find_auxv getauxv i zero = none
find_auxv getauxv i (suc count) =
    let rest = find_auxv getauxv (i + 1) count in
    elim (getauxv i) [ none ↦ rest | some av ↦ if av.0 == 31 then some av.1 else rest ]

-- A size of 0 is divided by.
unfoldable pub parse_core_execfn : NoteData → ℕ → Option (StatusCode × ℕ)
unfolding find_auxv
parse_core_execfn note result =
    if note.elf.auxv_size == 0
    then none
    else some (elim (find_auxv note.getauxv 0 (note.descriptor_size / note.elf.auxv_size)) [
      | none ↦ (error, result)
      | some value ↦ (success, value)
    ])

-- What `elf_getshdrnum`, `elf_nextscn`, `gelf_getshdr` and `elf_getdata` give: the notes of the sections
-- of type SHT_NOTE, with the section's `sh_offset` as the size of the descriptor.
unfoldable pub find_exec_fn : Option (List NoteData) → CoreFile → Option ℕ
unfolding first_success parse_core_execfn
find_exec_fn none core = some 0
find_exec_fn (some sections) core = first_success parse_core_execfn sections 0 >>= λ r. elim r.0 [
  | success ↦ some r.1
  | error ↦ first_success parse_core_execfn core.auxv_notes r.1 >>= λ r. elim r.0 [
    | success ↦ some r.1
    | error ↦ some 0
  ]
]

pub data CoreError : Type 0 where
  elf_analyzer_error undefined : CoreError

pub data Extracted : Type 0 where
  extracted : Bytes → Extracted
  failed : CoreError → Extracted

-- Both ends count.
unfoldable pub map_around : ℕ → List CoreVirtualMap → Option CoreVirtualMap
map_around addr [] = none
map_around addr (m ∷ maps) =
    if leb m.start addr && leb addr m.end then some m else map_around addr maps

-- `std::getline(is, s, 0)`
unfoldable pub get_line : Bytes → Bytes
get_line [] = []
get_line (c ∷ content) = if c == 0 then [] else c ∷ get_line content

unfoldable pub location_of : ℕ → CoreVirtualMap → ℕ
unfolding add64 sub64
location_of addr m = add64 (sub64 addr m.start) m.offset

-- `content` is the core file, where it can be opened.
abbrev read_executable : Option Bytes → ℕ → Option CoreVirtualMap → Extracted
read_executable content addr none = failed elf_analyzer_error
read_executable none addr (some m) = failed elf_analyzer_error
read_executable (some content) addr (some m) =
    extracted (get_line (drop (location_of addr m) content))

unfoldable pub extract_executable :
    Option (List NoteData) → CoreFile → List CoreVirtualMap → Option Bytes → Extracted
unfolding find_exec_fn map_around location_of get_line
extract_executable sections core maps content = elim (find_exec_fn sections core) [
  | none ↦ failed undefined
  | some addr ↦
      if addr == 0
      then failed elf_analyzer_error
      else read_executable content addr (map_around addr maps)
]

-- ===== src/Corefile/Tests.antt =====
-- Notes and segments of a small 64-bit core file, read as corefile.cpp reads them.
use pystack.Prelude.{
  ℕ, zero, suc, ◌≡◌, refl, arith, true, Option, some, none, List, [], ◌∷◌, ◌++◌, inl, inr, ◌==◌,
  if◌then◌else◌, length, Member,
}
use pystack.Memory.Maps.{Bytes}
use pystack.Memory.Core.{SimpleVirtualMap}
use pystack.Version.Hex.{to_bytes}
use pystack.Corefile.{
  success, error, Elf, NoteData, Headers, CoreFile, CorePsInfo, parse_core_psinfo, no_psinfo,
  extract_ps_info, first_success,
}
use pystack.Corefile.Mapped.{CoreVirtualMap, named_map, parse_core_file_note}
use pystack.Corefile.Segments.{
  SegmentHeader, segment_map, segment_maps, extract_executable, extracted, find_exec_fn,
  parse_core_execfn,
}
use pystack.Corefile.Encoded.{
  MappedFile, AreMappedFiles, unended_note_bytes, parse_core_file_note_overrun, note_bytes,
  parse_core_file_note-note_bytes,
}
use pystack.Corefile.Crash.{fault, siginfo_bytes}
use pystack.Corefile.Names.{HasNames, extract_ps_info-HasNames}
use pystack.Corefile.Found.{IsOnly, extract_executable-name}
use pystack.Memory.Process.Window.{window}

abbrev elf_64 : Elf
elf_64 = record { word_size = 4; address_size = 8; auxv_size = 16; is_64 = true }

-- The sizes and places of x86-64.
abbrev x86_64 : Headers
x86_64 = record { siginfo_size = 128; prstatus_size = 336; signo_at = 0; errno_at = 8; code_at = 4 }

abbrev note_of : Bytes → NoteData
note_of bytes = record {
  elf = elf_64;
  d_buf = bytes;
  beyond = [];
  descriptor_size = length bytes;
  getauxv = λ i. none;
}

abbrev libc : MappedFile
libc = record { start = 4096; end = 12288; page = 2; name = b'c' ∷ [] }

abbrev python : MappedFile
python = record { start = 65536; end = 69632; page = 0; name = b'p' ∷ b'y' ∷ [] }

are_mapped : AreMappedFiles (libc ∷ (python ∷ []))
are_mapped = (
  record { start = omega arith; end = omega arith; page = omega arith; name = (omega arith, tt) },
  (
    record {
      start = omega arith;
      end = omega arith;
      page = omega arith;
      name = (omega arith, (omega arith, tt));
    },
    tt,
  ),
)

abbrev file_note : NoteData
file_note = note_of (note_bytes 4096 (libc ∷ (python ∷ [])) (0 ∷ (0 ∷ [])))

parse_core_file_note-note_bytes_example :
    parse_core_file_note elf_64 file_note []
    ≡ some (
      success,
      named_map 4096 12288 8192 (b'c' ∷ []) ∷ (named_map 65536 69632 0 (b'p' ∷ b'y' ∷ []) ∷ []),
    )
parse_core_file_note-note_bytes_example =
    parse_core_file_note-note_bytes elf_64 file_note 4096 (libc ∷ (python ∷ [])) (0 ∷ (0 ∷ [])) []
      refl refl refl (omega arith) (omega arith) are_mapped

-- A fault at the address 16.
abbrev padding : ℕ → Bytes
padding zero = []
padding (suc n) = 0 ∷ padding n

abbrev fault_note : NoteData
fault_note = note_of (siginfo_bytes 11 0 1 (fault 16) (padding 104))

-- A note for the name of the process, too short.
abbrev core_file : CoreFile
core_file = record {
  elf = elf_64;
  siginfo_notes = fault_note ∷ [];
  prstatus_notes = [];
  psinfo_notes = note_of (padding 100) ∷ (note_of (padding 136) ∷ []);
  file_notes = note_of (to_bytes 8 1 ++ to_bytes 8 4096) ∷ (file_note ∷ []);
  auxv_notes =
      record {
        elf = elf_64;
        d_buf = [];
        beyond = [];
        descriptor_size = 32;
        getauxv = λ i. elim i [ zero ↦ none | suc j ↦ some (31, 4097) ];
      }
      ∷ [];
}

-- The name of the second file goes on behind the note.
abbrev unended_note : NoteData
unended_note = record (note_of (unended_note_bytes 4096 (libc ∷ []) python)) {
  beyond = b't' ∷ (0 ∷ (b'x' ∷ []));
}

parse_core_file_note_overrun_example :
    parse_core_file_note elf_64 unended_note []
    ≡ some (
      error,
      named_map 4096 12288 8192 (b'c' ∷ [])
          ∷ (named_map 65536 69632 0 (b'p' ∷ (b'y' ∷ (b't' ∷ []))) ∷ []),
    )
parse_core_file_note_overrun_example =
    parse_core_file_note_overrun elf_64 unended_note 4096 (libc ∷ []) python (b't' ∷ []) (b'x' ∷ [])
      [] refl refl refl refl (omega arith) (omega arith) (are_mapped.0, tt) (are_mapped.1.0)
      (omega arith, tt)

abbrev process_info : CorePsInfo
process_info = (parse_core_psinfo (note_of (padding 136)) no_psinfo).1

ps_info_of_core : extract_ps_info core_file ≡ some process_info
unfolding extract_ps_info first_success parse_core_psinfo
ps_info_of_core = refl

extract_ps_info-HasNames_example : HasNames process_info
extract_ps_info-HasNames_example = extract_ps_info-HasNames core_file process_info ps_info_of_core

-- Two segments, of which the second is loaded from the place 512 and is that of a module.
abbrev module_of_python : SimpleVirtualMap
module_of_python = record { start = 4096; end = 12288; filename = b'p' ∷ []; buildid = [] }

abbrev note_segment : SegmentHeader
note_segment = record {
  p_type = 4;
  p_flags = 0;
  p_vaddr = 0;
  p_memsz = 0;
  p_filesz = 9;
  p_offset = 64;
}

abbrev load_segment : SegmentHeader
load_segment = record {
  p_type = 1;
  p_flags = 5;
  p_vaddr = 4096;
  p_memsz = 4096;
  p_filesz = 9;
  p_offset = 2;
}

abbrev segments : List (Option SegmentHeader)
segments = some note_segment ∷ (none ∷ (some load_segment ∷ []))

abbrev loaded_map : CoreVirtualMap
loaded_map = segment_map (λ name. []) (module_of_python ∷ []) load_segment

is_loaded : Member loaded_map (segment_maps (λ name. []) (module_of_python ∷ []) segments)
unfolding segment_maps
is_loaded = inl refl

-- The name stands at the address 4097, at the place 3.
abbrev content : Bytes
content = 127 ∷ (0 ∷ (7 ∷ (b'l' ∷ (b's' ∷ (0 ∷ (b'x' ∷ []))))))

-- The memory that the segment holds.
abbrev memory : ℕ → ℕ
memory addr =
    if addr == 4096
    then 7
    else if addr == 4097
    then b'l'
    else if addr == 4098
    then b's'
    else if addr == 4099
    then 0
    else b'x'

abbrev mapped : CoreVirtualMap
mapped = record loaded_map { filesize = 5 }

mapped-IsOnly : IsOnly 4097 (mapped ∷ []) mapped
unfolding segment_map
mapped-IsOnly =
    (inl refl, omega arith, omega arith, λ m h low high. elim h [ inl e ↦ e | inr h ↦ absurd h ])

exec_fn_of_core : find_exec_fn (some []) core_file ≡ some 4097
unfolding find_exec_fn first_success parse_core_execfn
exec_fn_of_core = refl

extract_executable-name_example :
    extract_executable (some []) core_file (mapped ∷ []) (some content)
    ≡ extracted (b'l' ∷ (b's' ∷ []))
unfolding window segment_map
extract_executable-name_example =
    extract_executable-name memory (some []) core_file (mapped ∷ []) content [] (b'l' ∷ (b's' ∷ []))
      4097 mapped exec_fn_of_core (λ e. omega (arith, e)) mapped-IsOnly refl refl
      (omega arith, (omega arith, tt)) (omega arith) (omega arith) (omega arith)

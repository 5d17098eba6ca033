-- ===== src/Memory/Core.antt =====
-- `CorefileRemoteMemoryManager` of mem.h and mem.cpp: the memory of a process that left a core file. The
-- files, and what libelf says of them, are a parameter.
pub mod Segments
pub mod Dump
mod Tests
use pystack.Prelude.{
  ℕ, Bool, true, false, not, ◌&&◌, ◌||◌, Option, none, some, List, [], ◌∷◌, ◌++◌, length, take,
  drop, leb, ltb, ◌==◌, if◌then◌else◌, add64, sub64, same_bytes,
}
use mathlib.Core.Option
use pystack.Memory.Exec.{invalid_remote_address, undefined, Result, ok, throw, Exec, after, ◌>>=◌}
use pystack.Memory.Maps.{Bytes, VirtualMap, map_size}

pub record SimpleVirtualMap : Type 0 where
  pub start : ℕ
  pub end : ℕ
  pub filename : Bytes
  pub buildid : Bytes

pub record ElfLoadSegment : Type 0 where
  pub vaddr : ℕ
  pub offset : ℕ
  pub size : ℕ

-- `GElf_Phdr`, as far as it is read.
pub record ProgramHeader : Type 0 where
  pub p_type : ℕ
  pub p_vaddr : ℕ
  pub p_offset : ℕ
  pub p_filesz : ℕ

pub record Files : Type 0 where
  -- `fopen`, `fileno` and `elf_begin` succeed
  pub open_elf : Bytes → Bool
  -- `elf_getphdrnum`, and `gelf_getphdr` of every index; a header that cannot be read is `none`
  pub program_headers : Bytes → Option (List (Option ProgramHeader))
  -- what an `ifstream` of the name gives
  pub content : Bytes → Option Bytes

-- The pairs of `load_segments` stand newest first.
pub record CoreManager : Type 0 where
  pub vmaps : List VirtualMap
  pub shared_libs : List SimpleVirtualMap
  pub corefile : Bytes
  pub load_segments : List (Bytes × List ElfLoadSegment)

-- The constructor with `readCorefile`. No bytes stand for a file that cannot be opened, measured or
-- mapped; the exception is `RemoteMemCopyError`.
unfoldable pub open_core :
    Option Bytes → List SimpleVirtualMap → List VirtualMap → Option CoreManager
open_core none libs vmaps = none
open_core (some []) libs vmaps = none
open_core (some (b ∷ bytes)) libs vmaps =
    some (record { vmaps = vmaps; shared_libs = libs; corefile = b ∷ bytes; load_segments = [] })

-- The test of `getMemoryLocationFromCore`.
unfoldable pub is_in_core : ℕ → VirtualMap → Bool
is_in_core addr v =
    (leb v.start addr && ltb addr (add64 v.start v.filesize))
    && (not (v.filesize == 0) && not (v.offset == 0))

unfoldable pub find_core_map : ℕ → List VirtualMap → Option VirtualMap
unfolding is_in_core
find_core_map addr [] = none
find_core_map addr (v ∷ vs) = if is_in_core addr v then some v else find_core_map addr vs

unfoldable pub core_offset : ℕ → VirtualMap → ℕ
core_offset addr v = add64 (sub64 v.offset v.start) addr

unfoldable pub get_memory_location_from_core : CoreManager → ℕ → Option ℕ
unfolding find_core_map core_offset
get_memory_location_from_core m addr = Option.map (core_offset addr) (find_core_map addr m.vmaps)

-- The headers of type PT_LOAD.
unfoldable pub loaded_segments : List (Option ProgramHeader) → List ElfLoadSegment
loaded_segments [] = []
loaded_segments (none ∷ headers) = loaded_segments headers
loaded_segments (some h ∷ headers) =
    let rest = loaded_segments headers in
    if h.p_type == 1
    then record { vaddr = h.p_vaddr; offset = h.p_offset; size = h.p_filesz } ∷ rest
    else rest

abbrev nonempty : List ElfLoadSegment → Option (List ElfLoadSegment)
nonempty [] = none
nonempty (s ∷ segments) = some (s ∷ segments)

-- The segments that `initLoadSegments` reads; it fails without any.
unfoldable pub read_segments : Files → Bytes → Option (List ElfLoadSegment)
unfolding loaded_segments
read_segments files name =
    if files.open_elf name
    then (elim (files.program_headers name) [
      | none ↦ none
      | some headers ↦ nonempty (loaded_segments headers)
    ])
    else none

unfoldable pub init_load_segments : Files → Bytes → CoreManager → Option CoreManager
unfolding read_segments
init_load_segments files name m =
    Option.map (λ segments. record m { load_segments = (name, segments) ∷ m.load_segments })
      (read_segments files name)

unfoldable pub find_lib : ℕ → List SimpleVirtualMap → Option SimpleVirtualMap
find_lib addr [] = none
find_lib addr (lib ∷ libs) =
    if leb lib.start addr && ltb addr lib.end then some lib else find_lib addr libs

-- `d_elf_load_segments_cache.find`
unfoldable pub find_segments :
    Bytes → List (Bytes × List ElfLoadSegment) → Option (List ElfLoadSegment)
find_segments name [] = none
find_segments name ((key, segments) ∷ rest) =
    if same_bytes name key then some segments else find_segments name rest

-- The `for` loop.
unfoldable pub find_segment : ℕ → List ElfLoadSegment → Option ℕ
find_segment symbol_vaddr [] = none
find_segment symbol_vaddr (s ∷ segments) =
    if leb s.vaddr symbol_vaddr && ltb symbol_vaddr (add64 s.vaddr s.size)
    then some (add64 (sub64 symbol_vaddr s.vaddr) s.offset)
    else find_segment symbol_vaddr segments

-- From `cache_it->second[0]` on, which C++ leaves open for an empty vector.
unfoldable pub locate_symbol :
    SimpleVirtualMap → ℕ → List ElfLoadSegment → Result (Option (Bytes × ℕ))
unfolding find_segment
locate_symbol lib addr [] = throw undefined
locate_symbol lib addr (first ∷ segments) = ok (
    Option.map (λ offset. (lib.filename, offset))
      (find_segment (add64 (sub64 addr lib.start) first.vaddr) (first ∷ segments)))

-- `cache_it = find(…)`, which C++ leaves open to dereference if nothing is found.
abbrev locate_cached : SimpleVirtualMap → ℕ → Exec CoreManager (Option (Bytes × ℕ))
locate_cached lib addr m = elim (find_segments lib.filename m.load_segments) [
  | none ↦ (throw undefined, m)
  | some segments ↦ (locate_symbol lib addr segments, m)
]

-- The file and the place in it; `none` is the status ERROR.
unfoldable pub get_memory_location_from_elf : Files → ℕ → Exec CoreManager (Option (Bytes × ℕ))
unfolding find_lib find_segments init_load_segments locate_symbol
get_memory_location_from_elf files addr m = elim (find_lib addr m.shared_libs) [
  | none ↦ (ok none, m)
  | some lib ↦ elim (find_segments lib.filename m.load_segments) [
    | some segments ↦ (locate_symbol lib addr segments, m)
    | none ↦ elim (init_load_segments files lib.filename m) [
      | none ↦ (ok none, m)
      | some m' ↦ locate_cached lib addr m'
    ]
  ]
]

-- `memcpy` from the core file, with the test before it.
unfoldable pub read_core : ℕ → ℕ → Bytes → Result Bytes
read_core offset size core =
    if ltb (length core) size || ltb (sub64 (length core) size) offset
    then throw invalid_remote_address
    else ok (take size (drop offset core))

-- `is.seekg(offset); is.read(destination, size)`: a file that ends early leaves the rest of the
-- destination as it was.
unfoldable pub read_stream : Files → Bytes → Option (Bytes × ℕ) → Result Bytes
read_stream files destination none = throw invalid_remote_address
read_stream files destination (some (name, offset)) = elim (files.content name) [
  | none ↦ throw invalid_remote_address
  | some bytes ↦
      let got = take (length destination) (drop offset bytes) in
      ok (got ++ drop (length got) destination)
]

-- `copyMemoryFromProcess`; the destination has the size of the read.
unfoldable pub copy_memory : Files → ℕ → Bytes → Exec CoreManager Bytes
unfolding get_memory_location_from_core get_memory_location_from_elf read_core read_stream
copy_memory files addr destination m = elim (get_memory_location_from_core m addr) [
  | some offset ↦ (read_core offset (length destination) m.corefile, m)
  | none ↦
      (get_memory_location_from_elf files addr >>= λ found m'.
      (read_stream files destination found, m'))
        m
]

-- `isAddressValid`
unfoldable pub is_address_valid : ℕ → VirtualMap → Bool
is_address_valid addr v =
    not (addr == 0) && (leb v.start addr && ltb addr (add64 v.start (map_size v)))

-- ===== src/Memory/Core/Tests.antt =====
-- A core file of eight bytes with parts of two maps, and one library with a segment.
use pystack.Prelude.{
  ℕ, ◌+◌, ◌≡◌, refl, true, none, some, [], ◌∷◌, inl, inr, arith, add64, sub64, same_bytes,
}
use pystack.Memory.Exec.{ok, throw, invalid_remote_address}
use pystack.Memory.Maps.{VirtualMap}
use pystack.Memory.Process.Window.{window}
use pystack.Memory.Core.{
  Files, CoreManager, SimpleVirtualMap, is_in_core, find_core_map, copy_memory,
}
use pystack.Memory.Core.Dump.{IsDumped, IsDump, copy_memory-dump}
use pystack.Memory.Core.Segments.{read_all}

abbrev mem : ℕ → ℕ
mem a = a

abbrev part : ℕ → ℕ → ℕ → VirtualMap
part start filesize offset = record {
  start = start;
  end = start + 16;
  filesize = filesize;
  flags = [];
  offset = offset;
  device = [];
  inode = 0;
  path = [];
}

abbrev lib : SimpleVirtualMap
lib = record { start = 1000; end = 1100; filename = 7 ∷ []; buildid = [] }

abbrev manager : CoreManager
manager = record {
  vmaps = part 64 4 2 ∷ part 200 2 6 ∷ [];
  shared_libs = lib ∷ [];
  corefile = 1 ∷ 2 ∷ 64 ∷ 65 ∷ 66 ∷ 67 ∷ 200 ∷ 201 ∷ [];
  load_segments = [];
}

-- The library has one segment of three bytes, for address 16, at place 1 of the file.
abbrev files : Files
files = record {
  open_elf = λ _. true;
  program_headers = λ _. some (
      none
      ∷ some (record { p_type = 1; p_vaddr = 16; p_offset = 1; p_filesz = 3 })
      ∷ some (record { p_type = 2; p_vaddr = 0; p_offset = 0; p_filesz = 9 })
      ∷ []);
  content = λ _. some (90 ∷ 91 ∷ 92 ∷ 93 ∷ []);
}

heap-IsDumped : IsDumped mem manager.corefile (part 64 4 2)
unfolding window
heap-IsDumped = record {
  ends = omega arith;
  inside = omega arith;
  small = omega arith;
  bytes = refl;
}

stack-IsDumped : IsDumped mem manager.corefile (part 200 2 6)
unfolding window
stack-IsDumped = record {
  ends = omega arith;
  inside = omega arith;
  small = omega arith;
  bytes = refl;
}

dumped : IsDump mem manager
dumped v (inl e) = rw e heap-IsDumped
dumped v (inr (inl e)) = rw e stack-IsDumped
dumped v (inr (inr h)) = absurd h

copy_memory-dump_example :
    copy_memory files 65 (0 ∷ 0 ∷ 0 ∷ []) manager ≡ (ok (65 ∷ 66 ∷ 67 ∷ []), manager)
unfolding find_core_map is_in_core window add64
copy_memory-dump_example =
    copy_memory-dump mem files manager dumped 65 (0 ∷ 0 ∷ 0 ∷ []) (part 64 4 2) refl (omega arith)

-- Two reads of the library, the second from the cache, and one of an address that is nowhere.
library_reads :
    read_all files ((1001, 0 ∷ 0 ∷ []) ∷ (1002, 0 ∷ 0 ∷ []) ∷ (5, 0 ∷ []) ∷ []) manager
    ≡ (ok (92 ∷ 93 ∷ []) ∷ ok (93 ∷ 0 ∷ []) ∷ throw invalid_remote_address ∷ [])
unfolding copy_memory add64 sub64 same_bytes
library_reads = refl

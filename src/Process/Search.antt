-- ===== src/Process/Search.antt =====
-- The search over all maps, of process.cpp, and the order of the methods, of `getInterpreterStateAddr` in
-- thread_builder.cpp.
mod PointsBack
mod Found
mod First
mod Cookie
mod Tests
use pystack.Prelude.{ℕ, ◌/◌, ◌%◌, Bool, true, false, not, ◌&&◌, List, [], ◌∷◌, ◌==◌, if◌then◌else◌}
use pystack.Memory.Maps.{Bytes, VirtualMap, map_size, has_byte}
use pystack.Process.{Process, Run, done, stop, ◌>>=◌, catch_remote, catch_all, read}
use pystack.Process.Interpreter.{
  words_of, find_cookie, find_interpreter_state_from_symbols, find_interpreter_state_from_elf_data,
  find_interpreter_state_from_debug_offsets, scan_memory_area_for_interpreter_state, scan_bss,
  scan_heap,
}

-- `Path().empty()`
abbrev is_empty : Bytes → Bool
is_empty [] = true
is_empty (b ∷ path) = false

-- The first result that is not 0.
unfoldable pub or_else : Run ℕ → Run ℕ → Run ℕ
or_else r rest = r >>= λ addr. if addr == 0 then rest else done addr

-- A method that is enabled; its exceptions are logged and dropped.
unfoldable pub try_method : Bool → Run ℕ → Run ℕ → Run ℕ
unfolding or_else catch_all
try_method enabled method rest = if enabled then or_else (catch_all method (done 0)) rest else rest

unfoldable pub has_flag : ℕ → ℕ → Bool
has_flag method_flags flag = method_flags / flag % 2 == 1

module _ (fuel : ℕ) (p : Process) where
  unfoldable pub scan_anonymous : List VirtualMap → Run ℕ
  unfolding or_else scan_memory_area_for_interpreter_state
  scan_anonymous [] = done 0
  scan_anonymous (map ∷ maps) =
      let rest = scan_anonymous maps in
      if not (is_empty map.path)
      then rest
      else or_else (scan_memory_area_for_interpreter_state fuel p map) rest

  unfoldable pub scan_all_anonymous_maps : Run ℕ
  unfolding scan_anonymous
  scan_all_anonymous_maps = scan_anonymous p.memory_maps

  -- The methods and their flags, in the order of the table.
  unfoldable pub get_interpreter_state_addr : ℕ → Run ℕ
  unfolding try_method has_flag find_interpreter_state_from_debug_offsets
      find_interpreter_state_from_elf_data find_interpreter_state_from_symbols scan_bss
      scan_all_anonymous_maps scan_heap
  get_interpreter_state_addr method_flags =
      try_method (has_flag method_flags 32) (find_interpreter_state_from_debug_offsets fuel p) (
        try_method (has_flag method_flags 1) (find_interpreter_state_from_elf_data fuel p) (
          try_method (has_flag method_flags 2) (find_interpreter_state_from_symbols fuel p) (
            try_method (has_flag method_flags 4) (scan_bss fuel p) (
              try_method (has_flag method_flags 8) scan_all_anonymous_maps
                (try_method (has_flag method_flags 16) (scan_heap fuel p) (done 0))))))

unfoldable pub scan_memory_area_for_debug_offsets : Process → VirtualMap → Run ℕ
unfolding read words_of find_cookie map_size
scan_memory_area_for_debug_offsets p map = do
  buffer ← read p map.start (map_size map)
  find_cookie (map_size map) map.start (words_of (map_size map / 8) buffer)

-- The loop of `findDebugOffsetsFromMaps`, over the writable maps of a file.
unfoldable pub scan_writable : Process → List VirtualMap → Run ℕ
unfolding or_else scan_memory_area_for_debug_offsets has_byte catch_remote
scan_writable p [] = done 0
scan_writable p (map ∷ maps) =
    let rest = scan_writable p maps in
    if has_byte b'w' map.flags && not (is_empty map.path)
    then or_else (catch_remote (scan_memory_area_for_debug_offsets p map) (done 0)) rest
    else rest

unfoldable pub find_debug_offsets_from_maps : Process → Run ℕ
unfolding scan_writable
find_debug_offsets_from_maps p = scan_writable p p.memory_maps

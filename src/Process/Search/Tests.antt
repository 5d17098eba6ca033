-- ===== src/Process/Search/Tests.antt =====
-- The theorems about the search, on a small process.
use pystack.Prelude.{◌/◌, ◌^◌, ◌≡◌, refl, arith, [], ◌∷◌, Member, sub64, add64, ◌↔◌, inl, inr}
use pystack.Memory.Maps.{Bytes, VirtualMap, map_size}
use pystack.Process.{Process, done, read}
use pystack.Process.Interpreter.{
  is_valid_interpreter_state, scan_memory_area_for_interpreter_state, words_of, cookie,
}
use pystack.Process.Sample.{bytes_of, map_of, process_of}
use pystack.Process.Search.{get_interpreter_state_addr, find_debug_offsets_from_maps}
use pystack.Process.Search.PointsBack.{PointsBack}
use pystack.Process.Search.Found.{get_interpreter_state_addr-PointsBack}
use pystack.Process.Search.First.{IsFirst, scan_memory_area_for_interpreter_state-IsFirst}
use pystack.Process.Search.Cookie.{Located, Fits, find_debug_offsets_from_maps-Located}

-- The state at 4112, its thread, a dictionary, and its type.
abbrev running : Process
running =
    process_of
      (5 ∷ 4112 ∷ 4128 ∷ 4144 ∷ 0 ∷ 4112 ∷ 4160 ∷ 0 ∷ (2 ^ 29) ∷ 4176 ∷ 0 ∷ 0 ∷ 0 ∷ 0 ∷ 0 ∷ 0 ∷ [])

found : get_interpreter_state_addr 4 running 4 ≡ done 4112
unfolding get_interpreter_state_addr sub64
found = refl

abbrev bss_bytes : Bytes
bss_bytes = bytes_of (5 ∷ 4112 ∷ [])

bss_read : read running 4096 (map_size (map_of 4096 4112)) ≡ done bss_bytes
unfolding read map_size sub64
bss_read = refl

-- A cookie at the second word, and Python 3.13.0.
abbrev starting : Process
starting = process_of (5 ∷ cookie ∷ 0x030d_00f0 ∷ [])

located : find_debug_offsets_from_maps starting ≡ done 4104
unfolding find_debug_offsets_from_maps sub64 add64
located = refl

starting-Fits : (map : VirtualMap) → Member map starting.memory_maps → Fits map
unfolding map_size sub64
starting-Fits map (inl e) = rw e (omega arith)
starting-Fits map (inr h) = absurd h

get_interpreter_state_addr-PointsBack_example : PointsBack 4 running 4112
get_interpreter_state_addr-PointsBack_example =
    get_interpreter_state_addr-PointsBack 4 running 4 4112 (omega arith) found

scan_memory_area_for_interpreter_state-IsFirst_example :
    (scan_memory_area_for_interpreter_state 4 running (map_of 4096 4112) ≡ done 4112)
    ↔ IsFirst
        (is_valid_interpreter_state 4 running)
        (words_of (map_size (map_of 4096 4112) / 8) bss_bytes)
        4112
unfolding map_size sub64
scan_memory_area_for_interpreter_state-IsFirst_example =
    scan_memory_area_for_interpreter_state-IsFirst 4 running (map_of 4096 4112) bss_bytes 4112
      bss_read refl

find_debug_offsets_from_maps-Located_example : Located starting starting.memory_maps 4104
find_debug_offsets_from_maps-Located_example =
    find_debug_offsets_from_maps-Located starting 4104 starting-Fits (omega arith) located

-- ===== src/Process/Interpreter.antt =====
-- The state of the interpreter, of process.cpp: the test of an
-- address, the scan of one area of the memory, and the paths by symbols and by ELF data.
use pystack.Prelude.{
  ℕ, zero, suc, ◌/◌, ◌%◌, Bool, true, false, not, ◌&&◌, Option, none, some, List, [], ◌∷◌, take,
  drop, leb, ◌==◌, if◌then◌else◌, add64,
}
use pystack.Memory.Maps.{Bytes, VirtualMap, map_size}
use pystack.Offsets.Layout.{
  py_is, py_is_o_tstate_head, py_is_o_modules, py_is_o_sysdict, py_is_o_builtins, py_thread,
  py_thread_o_interp, py_runtime, py_runtime_o_interp_head,
}
use pystack.Process.{
  Process, Run, done, stop, open_behaviour, pure, ◌>>=◌, catch_remote, catch_all, attempt, read,
  read_word, read_field, copy_from_remote, is_valid,
}
use pystack.Process.ObjectType.{ObjectType, dict, object_type, make_object}
use pystack.Version.{little_endian, parse_py_version_hex}

abbrev is_dict : ObjectType → Bool
is_dict dict = true
is_dict _ = false

-- "_PyRuntime"
abbrev pub runtime_symbol : Bytes
runtime_symbol = b'_' ∷ b'P' ∷ b'y' ∷ b'R' ∷ b'u' ∷ b'n' ∷ b't' ∷ b'i' ∷ b'm' ∷ b'e' ∷ []

-- "interp_head"
abbrev interp_head_symbol : Bytes
interp_head_symbol = b'i' ∷ b'n' ∷ b't' ∷ b'e' ∷ b'r' ∷ b'p' ∷ b'_' ∷ b'h' ∷ b'e' ∷ b'a' ∷ b'd' ∷ []

-- The number in memory that spells "xdebugpy".
abbrev pub cookie : ℕ
cookie = little_endian (b'x' ∷ b'd' ∷ b'e' ∷ b'b' ∷ b'u' ∷ b'g' ∷ b'p' ∷ b'y' ∷ [])

abbrev pub word_of : Bytes → ℕ
word_of buffer = little_endian (take 8 buffer)

-- The first of the words that passes a test which may fail, or 0 where none does.
unfoldable pub first_valid : (ℕ → Run Bool) → List ℕ → Run ℕ
first_valid test [] = done 0
first_valid test (w ∷ words) =
    let rest = first_valid test words in test w >>= λ valid. if valid then done w else rest

-- The `n` first words of a buffer.
unfoldable pub words_of : ℕ → Bytes → List ℕ
unfolding little_endian
words_of zero buffer = []
words_of (suc n) buffer = word_of buffer ∷ words_of n (drop 8 buffer)

-- The last word of a buffer that ends inside it is read past the end, where none before is valid.
unfoldable pub last_word : ℕ → ℕ → Run ℕ
last_word size result =
    if result == 0 && not (size % 8 == 0) then stop open_behaviour else done result

-- The test of the cookie and of the version after it.
unfoldable pub is_debug_offsets : ℕ → Bool
unfolding parse_py_version_hex
is_debug_offsets version = elim (parse_py_version_hex version) [
  | none ↦ false
  | some parsed ↦ parsed.major == 3 && leb 13 parsed.minor
]

-- The loop over the words, where the version of a cookie in the last word lies past the end.
unfoldable pub find_cookie : ℕ → ℕ → List ℕ → Run ℕ
unfolding is_debug_offsets little_endian
find_cookie size addr [] = last_word size 0
find_cookie size addr (w ∷ []) = if w == cookie then stop open_behaviour else last_word size 0
find_cookie size addr (w ∷ (version ∷ words)) =
    let rest = find_cookie size (add64 addr 8) (version ∷ words) in
    if w == cookie && is_debug_offsets version then done addr else rest

module _ (fuel : ℕ) (p : Process) where
  unfoldable pub is_valid_dictionary_object : ℕ → Run Bool
  unfolding is_valid object_type make_object catch_remote
  is_valid_dictionary_object addr =
      if addr == 0
      then done false
      else if not (is_valid p addr)
      then done false
      else catch_remote (do pyobj ← make_object fuel p addr; pure (is_dict (object_type p pyobj)))
          (done false)

  -- The loop over the three dictionaries, which leaves at the first that is not valid.
  unfoldable pub all_dictionaries : List ℕ → Run Bool
  unfolding is_valid_dictionary_object
  all_dictionaries [] = done true
  all_dictionaries (addr ∷ addrs) =
      let rest = all_dictionaries addrs in
      is_valid_dictionary_object addr >>= λ valid. if valid then rest else done false

  -- The thread's pointer back, and the dictionaries.
  unfoldable pub points_back : ℕ → ℕ → Run Bool
  unfolding all_dictionaries read_field
  points_back addr current_thread_addr = do
    interp ← read_field p py_thread current_thread_addr py_thread_o_interp
    if not (interp == addr) then done false else (do
      modules ← read_field p py_is addr py_is_o_modules
      sysdict ← read_field p py_is addr py_is_o_sysdict
      builtins ← read_field p py_is addr py_is_o_builtins
      all_dictionaries (modules ∷ sysdict ∷ builtins ∷ []))

  unfoldable pub is_valid_interpreter_state : ℕ → Run Bool
  unfolding points_back read_field copy_from_remote is_valid attempt
  is_valid_interpreter_state addr = if not (is_valid p addr) then done false else (do
    state ← attempt (copy_from_remote p py_is addr)
    elim state [
      | none ↦ done false
      | some buffer ↦ do
        current_thread_addr ← read_field p py_is addr py_is_o_tstate_head
        if not (is_valid p current_thread_addr) then done false else (do
          thread ← attempt (copy_from_remote p py_thread current_thread_addr)
          elim thread [ none ↦ done false | some buffer ↦ points_back addr current_thread_addr ])
    ])

  -- The end of the functions that try one address: it, or 0.
  unfoldable pub checked : ℕ → Run ℕ
  unfolding is_valid_interpreter_state
  checked interp_state = do
    valid ← is_valid_interpreter_state interp_state
    pure (if valid then interp_state else 0)

  unfoldable pub find_interpreter_state_from_pointer : ℕ → Run ℕ
  unfolding checked read_word
  find_interpreter_state_from_pointer pointer = read_word p pointer >>= checked

  unfoldable pub find_interpreter_state_from_py_runtime : ℕ → Run ℕ
  unfolding checked read_field
  find_interpreter_state_from_py_runtime runtime_addr =
      read_field p py_runtime runtime_addr py_runtime_o_interp_head >>= checked

  unfoldable pub find_interpreter_state_from_symbols : Run ℕ
  unfolding find_interpreter_state_from_py_runtime find_interpreter_state_from_pointer
  find_interpreter_state_from_symbols =
      let pyruntime = p.find_symbol runtime_symbol in
      let interp_head = p.find_symbol interp_head_symbol in
      if not (pyruntime == 0)
      then find_interpreter_state_from_py_runtime pyruntime
      else if not (interp_head == 0)
      then find_interpreter_state_from_pointer interp_head
      else done 0

  -- `findPyRuntimeFromElfData` and the search from its result.
  unfoldable pub find_py_runtime_from_elf_data : ℕ
  find_py_runtime_from_elf_data = elim p.section_addr [
    | none ↦ 0
    | some corrected_addr ↦ if p.load_addr == 0 then 0 else add64 p.load_addr corrected_addr
  ]

  unfoldable pub find_interpreter_state_from_elf_data : Run ℕ
  unfolding find_py_runtime_from_elf_data find_interpreter_state_from_py_runtime
  find_interpreter_state_from_elf_data =
      let pyruntime = find_py_runtime_from_elf_data in
      if pyruntime == 0 then done 0 else find_interpreter_state_from_py_runtime pyruntime

  unfoldable pub find_interpreter_state_from_debug_offsets : Run ℕ
  unfolding checked read_field catch_all
  find_interpreter_state_from_debug_offsets =
      if p.debug_offsets_addr == 0
      then done 0
      else catch_all
          (read_field p py_runtime p.debug_offsets_addr py_runtime_o_interp_head >>= checked)
          (done 0)

  unfoldable pub scan_memory_area_for_interpreter_state : VirtualMap → Run ℕ
  unfolding first_valid words_of last_word is_valid_interpreter_state map_size read
  scan_memory_area_for_interpreter_state map = do
    buffer ← read p map.start (map_size map)
    result ← first_valid is_valid_interpreter_state (words_of (map_size map / 8) buffer)
    last_word (map_size map) result

  unfoldable pub scan_option : Option VirtualMap → Run ℕ
  unfolding scan_memory_area_for_interpreter_state
  scan_option none = done 0
  scan_option (some map) = scan_memory_area_for_interpreter_state map

  unfoldable pub scan_bss : Run ℕ
  unfolding scan_option
  scan_bss = scan_option p.bss

  unfoldable pub scan_heap : Run ℕ
  unfolding scan_option
  scan_heap = scan_option p.heap

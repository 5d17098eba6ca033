-- ===== src/Process/Sample.antt =====
-- Small processes, as test data.
use pystack.Prelude.{
  ℕ, ◌+◌, ◌-◌, ◌*◌, ◌/◌, ◌%◌, ◌^◌, false, ◌&&◌, none, some, List, [], ◌∷◌, leb, if◌then◌else◌, take,
  drop, length,
}
use pystack.Memory.Exec.{ok, throw, invalid_remote_address}
use pystack.Memory.Maps.{Bytes, VirtualMap}
use pystack.Offsets.Layout.{
  py_dict_o_ma_values, py_list_o_ob_size, py_list_o_ob_item, py_dictkeys_o_dk_kind,
  py_dictkeys_o_dk_nentries, py_dictkeys_o_dk_indices, Field, py_is_o_modules, py_is_o_sysdict,
  py_is_o_builtins, py_is_o_gil_runtime_state, py_is_o_gc, py_gilruntimestate_o_last_holder,
  py_thread_o_interp, py_thread_o_frame, py_thread_o_thread_id, py_thread_o_native_thread_id,
  py_frame_o_code, py_frame_o_owner, py_frame_o_prev_instr, py_code_o_name, py_code_o_firstlineno,
  py_code_o_argcount, py_code_o_lnotab, py_code_o_varnames, py_unicode_o_length, py_unicode_o_ascii,
  py_bytes_o_ob_sval, py_type_o_tp_name,
}
use pystack.Process.{Process}

abbrev pub bytes_of : List ℕ → Bytes
bytes_of [] = []
bytes_of (w ∷ words) =
    (w % 256)
    ∷ (w / 2 ^ 8 % 256)
    ∷ (w / 2 ^ 16 % 256)
    ∷ (w / 2 ^ 24 % 256)
    ∷ (w / 2 ^ 32 % 256)
    ∷ (w / 2 ^ 40 % 256)
    ∷ (w / 2 ^ 48 % 256)
    ∷ (w / 2 ^ 56)
    ∷ bytes_of words

-- The structures have five words; these fields are not the first.
abbrev field_offset : Field → ℕ
field_offset py_is_o_modules = 8
field_offset py_is_o_sysdict = 8
field_offset py_is_o_builtins = 8
field_offset py_is_o_gil_runtime_state = 16
field_offset py_is_o_gc = 24
field_offset py_gilruntimestate_o_last_holder = 8
field_offset py_thread_o_interp = 8
field_offset py_thread_o_frame = 16
field_offset py_thread_o_thread_id = 24
field_offset py_thread_o_native_thread_id = 32
field_offset py_frame_o_code = 8
field_offset py_frame_o_owner = 16
field_offset py_frame_o_prev_instr = 24
field_offset py_code_o_name = 8
field_offset py_code_o_firstlineno = 16
field_offset py_code_o_argcount = 16
field_offset py_code_o_lnotab = 24
field_offset py_code_o_varnames = 32
field_offset py_unicode_o_length = 8
field_offset py_unicode_o_ascii = 16
field_offset py_bytes_o_ob_sval = 8
field_offset py_type_o_tp_name = 8
field_offset py_list_o_ob_size = 8
field_offset py_list_o_ob_item = 16
field_offset py_dict_o_ma_values = 8
field_offset py_dictkeys_o_dk_kind = 8
field_offset py_dictkeys_o_dk_nentries = 16
field_offset py_dictkeys_o_dk_indices = 24
field_offset _ = 0

abbrev pub map_of : ℕ → ℕ → VirtualMap
map_of start end = record {
  start = start;
  end = end;
  filesize = 0;
  flags = b'r' ∷ b'w' ∷ [];
  offset = 0;
  device = [];
  inode = 0;
  path = b'l' ∷ b'i' ∷ b'b' ∷ [];
}

-- A process of Python 3.13 whose memory is these words, from 4096 on; the first two are the BSS.
abbrev pub process_of : List ℕ → Process
process_of words = record {
  pid = 7;
  tids = 7 ∷ [];
  version = (3, 13);
  free_threaded = false;
  offsets = record { size = λ s. 40; offset = field_offset };
  memory_maps = map_of 4096 (4096 + 8 * length words) ∷ [];
  bss = some (map_of 4096 4112);
  heap = none;
  copy = λ addr n.
      if leb 4096 addr && leb (addr + n) (4096 + 8 * length words)
      then ok (take n (drop (addr - 4096) (bytes_of words)))
      else throw invalid_remote_address;
  find_symbol = λ name. 4096;
  debug_offsets_addr = 0;
  section_addr = none;
  load_addr = 0;
}

-- Two threads from 4296 on, of one interpreter; the first holds its lock, and has a frame at 4096, with
-- code, above a shim.
abbrev pub threaded : Process
threaded = process_of (
    4136 ∷ 4176 ∷ 0 ∷ 0 ∷ 0 ∷ 0 ∷ 0 ∷ 3 ∷ 0 ∷ 0 ∷ 4216 ∷ 4216 ∷ 7 ∷ 4240 ∷ 4240 ∷ 36 ∷ 1 ∷ 97 ∷ 0
    ∷ 0 ∷ 0 ∷ 0 ∷ 0 ∷ 0 ∷ 0 ∷ 4336 ∷ 4376 ∷ 4096 ∷ 9 ∷ 7 ∷ 0 ∷ 4376 ∷ 0 ∷ 8 ∷ 8 ∷ 0 ∷ 0 ∷ 4416 ∷ 0
    ∷ 0 ∷ 1 ∷ 4296 ∷ 0 ∷ 0 ∷ 0 ∷ 0 ∷ [])

-- A shim that points back to itself.
abbrev pub circular : Process
circular = process_of (4096 ∷ 0 ∷ 3 ∷ 0 ∷ 0 ∷ [])

-- A dictionary at 4096 of one key and one value, and its table at 4136.
abbrev pub keyed : Process
keyed = process_of (4136 ∷ 0 ∷ 0 ∷ 0 ∷ 0 ∷ 3 ∷ 0 ∷ 1 ∷ 0 ∷ 9 ∷ 5 ∷ 6 ∷ [])

-- The same, with the width of the indices behind the logarithm, as CPython has it.
abbrev pub keyed_wide : Process
keyed_wide = process_of (4136 ∷ 0 ∷ 0 ∷ 0 ∷ 0 ∷ 0x303 ∷ 0 ∷ 1 ∷ 0 ∷ 9 ∷ 5 ∷ 6 ∷ [])

-- A list at 4096 whose one item is itself, and its type at 4136.
abbrev pub nested : Process
nested =
    process_of (4136 ∷ 1 ∷ 4176 ∷ 0 ∷ 0 ∷ (2 ^ 25) ∷ 4184 ∷ 0 ∷ 0 ∷ 0 ∷ 4096 ∷ 0 ∷ 0 ∷ 0 ∷ 0 ∷ [])

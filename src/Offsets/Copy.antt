-- ===== src/Offsets/Copy.antt =====
-- `copyDebugOffsets` of process.cpp: the offsets of the other process, from its `_Py_DebugOffsets`.
use Prim.Native.Nat.{max}
use pystack.Prelude.{ℕ, add64, sub64}
use pystack.Memory.Maps.{Bytes}
use pystack.Offsets.Layout.{
  Struct, Field, DebugOffset, PythonV, py_tuple, py_list, py_dict, py_dictkeys, py_dictvalues,
  py_float, py_long, py_bytes, py_unicode, py_object, py_type, py_code, py_frame, py_thread, py_is,
  py_runtime, py_gc, py_cframe, py_gilruntimestate, py_tuple_o_ob_size, py_tuple_o_ob_item,
  py_list_o_ob_size, py_list_o_ob_item, py_dict_o_ma_keys, py_dict_o_ma_values,
  py_dictkeys_o_dk_size, py_dictkeys_o_dk_kind, py_dictkeys_o_dk_nentries, py_dictkeys_o_dk_indices,
  py_dictvalues_o_values, py_float_o_ob_fval, py_long_o_ob_size, py_long_o_ob_digit,
  py_bytes_o_ob_size, py_bytes_o_ob_sval, py_unicode_o_state, py_unicode_o_length,
  py_unicode_o_ascii, py_object_o_ob_type, py_code_o_filename, py_code_o_name, py_code_o_lnotab,
  py_code_o_firstlineno, py_code_o_argcount, py_code_o_varnames, py_code_o_code_adaptive,
  py_frame_o_back, py_frame_o_code, py_frame_o_lasti, py_frame_o_prev_instr, py_frame_o_localsplus,
  py_frame_o_is_entry, py_frame_o_owner, py_thread_o_prev, py_thread_o_next, py_thread_o_interp,
  py_thread_o_frame, py_thread_o_thread_id, py_thread_o_native_thread_id, py_runtime_o_finalizing,
  py_runtime_o_interp_head, py_runtime_o_gc, py_runtime_o_tstate_current, py_type_o_tp_name,
  py_type_o_tp_repr, py_type_o_tp_flags, py_is_o_next, py_is_o_tstate_head, py_is_o_gc,
  py_is_o_modules, py_is_o_sysdict, py_is_o_builtins, py_is_o_gil_runtime_state, py_is_o_id,
  py_gc_o_collecting, py_cframe_current_frame, py_gilruntimestate_o_locked,
  py_gilruntimestate_o_last_holder, bytes_object_ob_size, bytes_object_ob_sval,
  bytes_object_struct_size, code_object_argcount, code_object_co_code_adaptive,
  code_object_filename, code_object_firstlineno, code_object_linetable, code_object_localsplusnames,
  code_object_name, code_object_struct_size, dict_object_ma_keys, dict_object_ma_values,
  dict_object_struct_size, float_object_ob_fval, float_object_struct_size, gc_collecting,
  gc_struct_size, interpreter_frame_executable, interpreter_frame_instr_ptr,
  interpreter_frame_localsplus, interpreter_frame_owner, interpreter_frame_previous,
  interpreter_frame_struct_size, interpreter_state_builtins, interpreter_state_ceval_gil,
  interpreter_state_gc, interpreter_state_gil_runtime_state,
  interpreter_state_gil_runtime_state_holder, interpreter_state_gil_runtime_state_locked,
  interpreter_state_id, interpreter_state_imports_modules, interpreter_state_next,
  interpreter_state_struct_size, interpreter_state_sysdict, interpreter_state_threads_head,
  list_object_ob_item, list_object_ob_size, list_object_struct_size, long_object_lv_tag,
  long_object_ob_digit, long_object_struct_size, pyobject_ob_type, pyobject_struct_size,
  runtime_state_finalizing, runtime_state_interpreters_head, runtime_state_struct_size,
  thread_state_current_frame, thread_state_interp, thread_state_native_thread_id, thread_state_next,
  thread_state_prev, thread_state_struct_size, thread_state_thread_id, tuple_object_ob_item,
  tuple_object_ob_size, tuple_object_struct_size, type_object_struct_size, type_object_tp_flags,
  type_object_tp_name, type_object_tp_repr, unicode_object_asciiobject_size, unicode_object_length,
  unicode_object_state, unicode_object_struct_size,
}

-- What `getField` reads from the runtime of the other process: the cookie, and the numbers.
pub record RemoteRuntime : Type 0 where
  pub cookie : Bytes
  pub value : DebugOffset → ℕ

gil_locked : RemoteRuntime → ℕ
gil_locked r =
    sub64 (r.value interpreter_state_gil_runtime_state_locked)
      (r.value interpreter_state_gil_runtime_state)

gil_holder : RemoteRuntime → ℕ
gil_holder r =
    sub64 (r.value interpreter_state_gil_runtime_state_holder)
      (r.value interpreter_state_gil_runtime_state)

-- The fields of the state of the GIL are an `int` and an address.
gil_size : RemoteRuntime → ℕ
unfolding gil_locked gil_holder
gil_size r = max (add64 (gil_locked r) 4) (add64 (gil_holder r) 8)

-- `set_size`, and the sizes that are taken from the built-in offsets.
unfoldable pub copied_size : RemoteRuntime → PythonV → Struct → ℕ
unfolding gil_size
copied_size r fixed py_tuple = r.value tuple_object_struct_size
copied_size r fixed py_list = r.value list_object_struct_size
copied_size r fixed py_dict = r.value dict_object_struct_size
copied_size r fixed py_dictkeys = fixed.size py_dictkeys
copied_size r fixed py_dictvalues = fixed.size py_dictvalues
copied_size r fixed py_float = r.value float_object_struct_size
copied_size r fixed py_long = r.value long_object_struct_size
copied_size r fixed py_bytes = r.value bytes_object_struct_size
copied_size r fixed py_unicode = r.value unicode_object_struct_size
copied_size r fixed py_object = r.value pyobject_struct_size
copied_size r fixed py_type = r.value type_object_struct_size
copied_size r fixed py_code = r.value code_object_struct_size
copied_size r fixed py_frame = r.value interpreter_frame_struct_size
copied_size r fixed py_thread = r.value thread_state_struct_size
copied_size r fixed py_is = r.value interpreter_state_struct_size
copied_size r fixed py_runtime = r.value runtime_state_struct_size
copied_size r fixed py_gc = r.value gc_struct_size
copied_size r fixed py_cframe = fixed.size py_cframe
copied_size r fixed py_gilruntimestate = gil_size r

-- `set_offset`, and the offsets that are taken from the built-in ones. A field that is not set stays 0.
unfoldable pub copied_offset : RemoteRuntime → PythonV → Field → ℕ
unfolding gil_locked gil_holder
copied_offset r fixed py_tuple_o_ob_size = r.value tuple_object_ob_size
copied_offset r fixed py_tuple_o_ob_item = r.value tuple_object_ob_item
copied_offset r fixed py_list_o_ob_size = r.value list_object_ob_size
copied_offset r fixed py_list_o_ob_item = r.value list_object_ob_item
copied_offset r fixed py_dict_o_ma_keys = r.value dict_object_ma_keys
copied_offset r fixed py_dict_o_ma_values = r.value dict_object_ma_values
copied_offset r fixed py_dictkeys_o_dk_size = fixed.offset py_dictkeys_o_dk_size
copied_offset r fixed py_dictkeys_o_dk_kind = fixed.offset py_dictkeys_o_dk_kind
copied_offset r fixed py_dictkeys_o_dk_nentries = fixed.offset py_dictkeys_o_dk_nentries
copied_offset r fixed py_dictkeys_o_dk_indices = fixed.offset py_dictkeys_o_dk_indices
copied_offset r fixed py_dictvalues_o_values = fixed.offset py_dictvalues_o_values
copied_offset r fixed py_float_o_ob_fval = r.value float_object_ob_fval
copied_offset r fixed py_long_o_ob_size = r.value long_object_lv_tag
copied_offset r fixed py_long_o_ob_digit = r.value long_object_ob_digit
copied_offset r fixed py_bytes_o_ob_size = r.value bytes_object_ob_size
copied_offset r fixed py_bytes_o_ob_sval = r.value bytes_object_ob_sval
copied_offset r fixed py_unicode_o_state = r.value unicode_object_state
copied_offset r fixed py_unicode_o_length = r.value unicode_object_length
copied_offset r fixed py_unicode_o_ascii = r.value unicode_object_asciiobject_size
copied_offset r fixed py_object_o_ob_type = r.value pyobject_ob_type
copied_offset r fixed py_code_o_filename = r.value code_object_filename
copied_offset r fixed py_code_o_name = r.value code_object_name
copied_offset r fixed py_code_o_lnotab = r.value code_object_linetable
copied_offset r fixed py_code_o_firstlineno = r.value code_object_firstlineno
copied_offset r fixed py_code_o_argcount = r.value code_object_argcount
copied_offset r fixed py_code_o_varnames = r.value code_object_localsplusnames
copied_offset r fixed py_code_o_code_adaptive = r.value code_object_co_code_adaptive
copied_offset r fixed py_frame_o_back = r.value interpreter_frame_previous
copied_offset r fixed py_frame_o_code = r.value interpreter_frame_executable
copied_offset r fixed py_frame_o_lasti = 0
copied_offset r fixed py_frame_o_prev_instr = r.value interpreter_frame_instr_ptr
copied_offset r fixed py_frame_o_localsplus = r.value interpreter_frame_localsplus
copied_offset r fixed py_frame_o_is_entry = 0
copied_offset r fixed py_frame_o_owner = r.value interpreter_frame_owner
copied_offset r fixed py_thread_o_prev = r.value thread_state_prev
copied_offset r fixed py_thread_o_next = r.value thread_state_next
copied_offset r fixed py_thread_o_interp = r.value thread_state_interp
copied_offset r fixed py_thread_o_frame = r.value thread_state_current_frame
copied_offset r fixed py_thread_o_thread_id = r.value thread_state_thread_id
copied_offset r fixed py_thread_o_native_thread_id = r.value thread_state_native_thread_id
copied_offset r fixed py_runtime_o_finalizing = r.value runtime_state_finalizing
copied_offset r fixed py_runtime_o_interp_head = r.value runtime_state_interpreters_head
copied_offset r fixed py_runtime_o_gc = 0
copied_offset r fixed py_runtime_o_tstate_current = 0
copied_offset r fixed py_type_o_tp_name = r.value type_object_tp_name
copied_offset r fixed py_type_o_tp_repr = r.value type_object_tp_repr
copied_offset r fixed py_type_o_tp_flags = r.value type_object_tp_flags
copied_offset r fixed py_is_o_next = r.value interpreter_state_next
copied_offset r fixed py_is_o_tstate_head = r.value interpreter_state_threads_head
copied_offset r fixed py_is_o_gc = r.value interpreter_state_gc
copied_offset r fixed py_is_o_modules = r.value interpreter_state_imports_modules
copied_offset r fixed py_is_o_sysdict = r.value interpreter_state_sysdict
copied_offset r fixed py_is_o_builtins = r.value interpreter_state_builtins
copied_offset r fixed py_is_o_gil_runtime_state = r.value interpreter_state_ceval_gil
copied_offset r fixed py_is_o_id = r.value interpreter_state_id
copied_offset r fixed py_gc_o_collecting = r.value gc_collecting
copied_offset r fixed py_cframe_current_frame = fixed.offset py_cframe_current_frame
copied_offset r fixed py_gilruntimestate_o_locked = gil_locked r
copied_offset r fixed py_gilruntimestate_o_last_holder = gil_holder r

unfoldable pub copy_debug_offsets : RemoteRuntime → PythonV → PythonV
unfolding copied_size copied_offset
copy_debug_offsets r fixed = record { size = copied_size r fixed; offset = copied_offset r fixed }

-- ===== src/Offsets/Layout.antt =====
-- version.h: the offsets of the CPython structures that the program reads. A value of `Struct` is a
-- structure of `python_v`, and a value of `Field` is a member pointer, such as `&py_is_v::o_next`.
use pystack.Prelude.{ℕ}

pub data Struct : Type 0 where
  py_tuple py_list py_dict py_dictkeys py_dictvalues py_float py_long py_bytes : Struct
  py_unicode py_object py_type py_code py_frame py_thread py_is py_runtime py_gc : Struct
  py_cframe py_gilruntimestate : Struct

-- The fields, less those of `_Py_DebugOffsets` itself.
pub data Field : Type 0 where
  py_tuple_o_ob_size py_tuple_o_ob_item py_list_o_ob_size py_list_o_ob_item : Field
  py_dict_o_ma_keys py_dict_o_ma_values py_dictkeys_o_dk_size py_dictkeys_o_dk_kind : Field
  py_dictkeys_o_dk_nentries py_dictkeys_o_dk_indices py_dictvalues_o_values : Field
  py_float_o_ob_fval py_long_o_ob_size py_long_o_ob_digit py_bytes_o_ob_size : Field
  py_bytes_o_ob_sval py_unicode_o_state py_unicode_o_length py_unicode_o_ascii : Field
  py_object_o_ob_type py_code_o_filename py_code_o_name py_code_o_lnotab : Field
  py_code_o_firstlineno py_code_o_argcount py_code_o_varnames py_code_o_code_adaptive : Field
  py_frame_o_back py_frame_o_code py_frame_o_lasti py_frame_o_prev_instr : Field
  py_frame_o_localsplus py_frame_o_is_entry py_frame_o_owner py_thread_o_prev : Field
  py_thread_o_next py_thread_o_interp py_thread_o_frame py_thread_o_thread_id : Field
  py_thread_o_native_thread_id py_runtime_o_finalizing py_runtime_o_interp_head : Field
  py_runtime_o_gc py_runtime_o_tstate_current py_type_o_tp_name py_type_o_tp_repr : Field
  py_type_o_tp_flags py_is_o_next py_is_o_tstate_head py_is_o_gc py_is_o_modules : Field
  py_is_o_sysdict py_is_o_builtins py_is_o_gil_runtime_state py_is_o_id : Field
  py_gc_o_collecting py_cframe_current_frame py_gilruntimestate_o_locked : Field
  py_gilruntimestate_o_last_holder : Field

-- The values of `_Py_DebugOffsets`, by the names of the fields `o_dbg_off_…` of `py_runtime_v`.
pub data DebugOffset : Type 0 where
  py_version_hex free_threaded runtime_state_struct_size runtime_state_finalizing : DebugOffset
  runtime_state_interpreters_head interpreter_state_struct_size : DebugOffset
  interpreter_state_id interpreter_state_next interpreter_state_threads_head : DebugOffset
  interpreter_state_gc interpreter_state_imports_modules : DebugOffset
  interpreter_state_sysdict interpreter_state_builtins : DebugOffset
  interpreter_state_ceval_gil interpreter_state_gil_runtime_state : DebugOffset
  interpreter_state_gil_runtime_state_enabled : DebugOffset
  interpreter_state_gil_runtime_state_locked : DebugOffset
  interpreter_state_gil_runtime_state_holder thread_state_struct_size : DebugOffset
  thread_state_prev thread_state_next thread_state_interp : DebugOffset
  thread_state_current_frame thread_state_thread_id thread_state_native_thread_id : DebugOffset
  thread_state_datastack_chunk thread_state_status interpreter_frame_struct_size : DebugOffset
  interpreter_frame_previous interpreter_frame_executable : DebugOffset
  interpreter_frame_instr_ptr interpreter_frame_localsplus : DebugOffset
  interpreter_frame_owner code_object_struct_size code_object_filename : DebugOffset
  code_object_name code_object_qualname code_object_linetable : DebugOffset
  code_object_firstlineno code_object_argcount code_object_localsplusnames : DebugOffset
  code_object_localspluskinds code_object_co_code_adaptive pyobject_struct_size : DebugOffset
  pyobject_ob_type type_object_struct_size type_object_tp_name : DebugOffset
  type_object_tp_repr type_object_tp_flags tuple_object_struct_size : DebugOffset
  tuple_object_ob_item tuple_object_ob_size list_object_struct_size : DebugOffset
  list_object_ob_item list_object_ob_size dict_object_struct_size : DebugOffset
  dict_object_ma_keys dict_object_ma_values float_object_struct_size : DebugOffset
  float_object_ob_fval long_object_struct_size long_object_lv_tag : DebugOffset
  long_object_ob_digit bytes_object_struct_size bytes_object_ob_size : DebugOffset
  bytes_object_ob_sval unicode_object_struct_size unicode_object_state : DebugOffset
  unicode_object_length unicode_object_asciiobject_size gc_struct_size : DebugOffset
  gc_collecting : DebugOffset

-- `sizeof(FieldOffset<T>::Type)` on a 64-bit machine.
abbrev pub sizeof : Field → ℕ
sizeof py_tuple_o_ob_size = 8
sizeof py_tuple_o_ob_item = 8
sizeof py_list_o_ob_size = 8
sizeof py_list_o_ob_item = 8
sizeof py_dict_o_ma_keys = 8
sizeof py_dict_o_ma_values = 8
sizeof py_dictkeys_o_dk_size = 8
sizeof py_dictkeys_o_dk_kind = 1
sizeof py_dictkeys_o_dk_nentries = 8
sizeof py_dictkeys_o_dk_indices = 1
sizeof py_dictvalues_o_values = 8
sizeof py_float_o_ob_fval = 8
sizeof py_long_o_ob_size = 8
sizeof py_long_o_ob_digit = 4
sizeof py_bytes_o_ob_size = 8
sizeof py_bytes_o_ob_sval = 1
sizeof py_unicode_o_state = 4
sizeof py_unicode_o_length = 8
sizeof py_unicode_o_ascii = 8
sizeof py_object_o_ob_type = 8
sizeof py_code_o_filename = 8
sizeof py_code_o_name = 8
sizeof py_code_o_lnotab = 8
sizeof py_code_o_firstlineno = 4
sizeof py_code_o_argcount = 4
sizeof py_code_o_varnames = 8
sizeof py_code_o_code_adaptive = 1
sizeof py_frame_o_back = 8
sizeof py_frame_o_code = 8
sizeof py_frame_o_lasti = 4
sizeof py_frame_o_prev_instr = 8
sizeof py_frame_o_localsplus = 8
sizeof py_frame_o_is_entry = 1
sizeof py_frame_o_owner = 1
sizeof py_thread_o_prev = 8
sizeof py_thread_o_next = 8
sizeof py_thread_o_interp = 8
sizeof py_thread_o_frame = 8
sizeof py_thread_o_thread_id = 8
sizeof py_thread_o_native_thread_id = 8
sizeof py_runtime_o_finalizing = 8
sizeof py_runtime_o_interp_head = 8
sizeof py_runtime_o_gc = 1
sizeof py_runtime_o_tstate_current = 8
sizeof py_type_o_tp_name = 8
sizeof py_type_o_tp_repr = 8
sizeof py_type_o_tp_flags = 8
sizeof py_is_o_next = 8
sizeof py_is_o_tstate_head = 8
sizeof py_is_o_gc = 1
sizeof py_is_o_modules = 8
sizeof py_is_o_sysdict = 8
sizeof py_is_o_builtins = 8
sizeof py_is_o_gil_runtime_state = 8
sizeof py_is_o_id = 8
sizeof py_gc_o_collecting = 8
sizeof py_cframe_current_frame = 8
sizeof py_gilruntimestate_o_locked = 4
sizeof py_gilruntimestate_o_last_holder = 8

-- `python_v`. A size is an `ssize_t` by its 64-bit pattern.
pub record PythonV : Type 0 where
  pub size : Struct → ℕ
  pub offset : Field → ℕ

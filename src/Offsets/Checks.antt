-- ===== src/Offsets/Checks.antt =====
-- `validateDebugOffsets` and `clampSizes` of process.cpp.
use Prim.Native.Nat.{max}
use pystack.Prelude.{
  ℕ, ◌*◌, ◌^◌, Bool, true, false, not, ◌&&◌, ◌||◌, List, [], ◌∷◌, leb, ltb, add64, sub64,
}
use pystack.Offsets.Layout.{
  Struct, Field, PythonV, sizeof, py_tuple, py_list, py_dict, py_dictkeys, py_dictvalues, py_float,
  py_long, py_bytes, py_unicode, py_object, py_type, py_code, py_frame, py_thread, py_is,
  py_runtime, py_gc, py_cframe, py_gilruntimestate, py_bytes_o_ob_size, py_bytes_o_ob_sval,
  py_cframe_current_frame, py_code_o_argcount, py_code_o_code_adaptive, py_code_o_filename,
  py_code_o_firstlineno, py_code_o_lnotab, py_code_o_name, py_code_o_varnames, py_dict_o_ma_keys,
  py_dict_o_ma_values, py_dictkeys_o_dk_indices, py_dictkeys_o_dk_kind, py_dictkeys_o_dk_nentries,
  py_dictkeys_o_dk_size, py_dictvalues_o_values, py_float_o_ob_fval, py_frame_o_back,
  py_frame_o_code, py_frame_o_localsplus, py_frame_o_owner, py_frame_o_prev_instr,
  py_gc_o_collecting, py_is_o_builtins, py_is_o_gc, py_is_o_gil_runtime_state, py_is_o_modules,
  py_is_o_next, py_is_o_sysdict, py_is_o_tstate_head, py_list_o_ob_item, py_list_o_ob_size,
  py_long_o_ob_digit, py_long_o_ob_size, py_object_o_ob_type, py_runtime_o_finalizing,
  py_runtime_o_interp_head, py_thread_o_frame, py_thread_o_interp, py_thread_o_native_thread_id,
  py_thread_o_next, py_thread_o_prev, py_thread_o_thread_id, py_tuple_o_ob_item, py_tuple_o_ob_size,
  py_type_o_tp_flags, py_type_o_tp_name, py_type_o_tp_repr, py_unicode_o_ascii, py_unicode_o_length,
  py_unicode_o_state,
}

-- The macro `check_size`: the size, read as a signed number, is at most 1 MB.
unfoldable pub check_size : PythonV → Struct → Bool
check_size v s = not (ltb (v.size s) (2 ^ 63) && ltb (1024 * 1024) (v.size s))

-- The macro `check_field_bounds`.
unfoldable pub check_field_bounds : PythonV → Struct → Field → Bool
check_field_bounds v s f = not (
    leb (2 ^ 63) (v.size s)
    || ltb (v.size s) (v.offset f)
    || ltb (sub64 (v.size s) (v.offset f)) (sizeof f))

-- The fields that `validateDebugOffsets` checks, structure by structure.
unfoldable pub validated_fields : Struct → List Field
validated_fields py_runtime = py_runtime_o_finalizing ∷ py_runtime_o_interp_head ∷ []
validated_fields py_is =
    py_is_o_next ∷ py_is_o_tstate_head ∷ py_is_o_gc ∷ py_is_o_modules ∷ py_is_o_sysdict
    ∷ py_is_o_builtins ∷ py_is_o_gil_runtime_state ∷ []
validated_fields py_thread =
    py_thread_o_prev ∷ py_thread_o_next ∷ py_thread_o_interp ∷ py_thread_o_frame
    ∷ py_thread_o_thread_id ∷ py_thread_o_native_thread_id ∷ []
validated_fields py_frame =
    py_frame_o_back ∷ py_frame_o_code ∷ py_frame_o_prev_instr ∷ py_frame_o_localsplus
    ∷ py_frame_o_owner ∷ []
validated_fields py_code =
    py_code_o_filename ∷ py_code_o_name ∷ py_code_o_lnotab ∷ py_code_o_firstlineno
    ∷ py_code_o_argcount ∷ py_code_o_varnames ∷ py_code_o_code_adaptive ∷ []
validated_fields py_object = py_object_o_ob_type ∷ []
validated_fields py_type = py_type_o_tp_name ∷ py_type_o_tp_repr ∷ py_type_o_tp_flags ∷ []
validated_fields py_tuple = py_tuple_o_ob_size ∷ py_tuple_o_ob_item ∷ []
validated_fields py_unicode = py_unicode_o_state ∷ py_unicode_o_length ∷ py_unicode_o_ascii ∷ []
validated_fields py_gc = py_gc_o_collecting ∷ []
validated_fields py_list = py_list_o_ob_size ∷ py_list_o_ob_item ∷ []
validated_fields py_dictkeys =
    py_dictkeys_o_dk_size ∷ py_dictkeys_o_dk_kind ∷ py_dictkeys_o_dk_nentries
    ∷ py_dictkeys_o_dk_indices ∷ []
validated_fields py_dictvalues = py_dictvalues_o_values ∷ []
validated_fields py_dict = py_dict_o_ma_keys ∷ py_dict_o_ma_values ∷ []
validated_fields py_float = py_float_o_ob_fval ∷ []
validated_fields py_long = py_long_o_ob_size ∷ py_long_o_ob_digit ∷ []
validated_fields py_bytes = py_bytes_o_ob_size ∷ py_bytes_o_ob_sval ∷ []
validated_fields py_cframe = py_cframe_current_frame ∷ []
validated_fields py_gilruntimestate = []

-- The structures whose size it checks.
unfoldable pub sized : Struct → Bool
sized py_runtime = true
sized py_is = true
sized py_thread = true
sized py_frame = true
sized py_code = true
sized py_object = true
sized py_type = true
sized py_tuple = true
sized py_unicode = true
sized py_gc = true
sized _ = false

-- The structures in the order of the checks.
abbrev pub checked_structs : List Struct
checked_structs =
    py_runtime ∷ py_is ∷ py_thread ∷ py_frame ∷ py_code ∷ py_object ∷ py_type ∷ py_tuple
    ∷ py_unicode ∷ py_gc ∷ py_list ∷ py_dictkeys ∷ py_dictvalues ∷ py_dict ∷ py_float ∷ py_long
    ∷ py_bytes ∷ py_cframe ∷ []

unfoldable pub check_fields : PythonV → Struct → List Field → Bool
check_fields v s [] = true
check_fields v s (f ∷ fs) = check_field_bounds v s f && check_fields v s fs

unfoldable pub check_structs : PythonV → List Struct → Bool
unfolding check_size check_fields sized
check_structs v [] = true
check_structs v (s ∷ ss) =
    (not (sized s) || check_size v s) && check_fields v s (validated_fields s) && check_structs v ss

unfoldable pub validate_debug_offsets : PythonV → Bool
unfolding check_structs
validate_debug_offsets v = check_structs v checked_structs

-- The fields that `clampSizes` keeps room for.
unfoldable pub clamp_fields : Struct → List Field
clamp_fields py_runtime = py_runtime_o_finalizing ∷ py_runtime_o_interp_head ∷ []
clamp_fields py_is =
    py_is_o_next ∷ py_is_o_tstate_head ∷ py_is_o_gc ∷ py_is_o_modules ∷ py_is_o_sysdict
    ∷ py_is_o_builtins ∷ py_is_o_gil_runtime_state ∷ []
clamp_fields py_thread =
    py_thread_o_prev ∷ py_thread_o_next ∷ py_thread_o_interp ∷ py_thread_o_frame
    ∷ py_thread_o_thread_id ∷ py_thread_o_native_thread_id ∷ []
clamp_fields py_frame =
    py_frame_o_back ∷ py_frame_o_code ∷ py_frame_o_prev_instr ∷ py_frame_o_localsplus
    ∷ py_frame_o_owner ∷ []
clamp_fields py_code =
    py_code_o_filename ∷ py_code_o_name ∷ py_code_o_lnotab ∷ py_code_o_firstlineno
    ∷ py_code_o_argcount ∷ py_code_o_varnames ∷ py_code_o_code_adaptive ∷ []
clamp_fields py_object = py_object_o_ob_type ∷ []
clamp_fields py_type = py_type_o_tp_name ∷ py_type_o_tp_repr ∷ py_type_o_tp_flags ∷ []
clamp_fields py_tuple = py_tuple_o_ob_size ∷ py_tuple_o_ob_item ∷ []
clamp_fields py_unicode = py_unicode_o_state ∷ py_unicode_o_length ∷ py_unicode_o_ascii ∷ []
clamp_fields py_gc = py_gc_o_collecting ∷ []
clamp_fields py_list = py_list_o_ob_size ∷ py_list_o_ob_item ∷ []
clamp_fields py_dictkeys =
    py_dictkeys_o_dk_size ∷ py_dictkeys_o_dk_kind ∷ py_dictkeys_o_dk_nentries
    ∷ py_dictkeys_o_dk_indices ∷ []
clamp_fields py_dictvalues = py_dictvalues_o_values ∷ []
clamp_fields py_dict = py_dict_o_ma_keys ∷ py_dict_o_ma_values ∷ []
clamp_fields py_float = py_float_o_ob_fval ∷ []
clamp_fields py_long = py_long_o_ob_size ∷ py_long_o_ob_digit ∷ []
clamp_fields py_bytes = py_bytes_o_ob_size ∷ py_bytes_o_ob_sval ∷ []
clamp_fields py_cframe = py_cframe_current_frame ∷ []
clamp_fields py_gilruntimestate = []

-- The macro `update_size`, field after field.
unfoldable pub update_sizes : PythonV → ℕ → List Field → ℕ
update_sizes v size [] = size
update_sizes v size (f ∷ fs) = update_sizes v (max size (add64 (v.offset f) (sizeof f))) fs

-- The state of the GIL is not clamped.
unfoldable pub clamped_size : PythonV → Struct → ℕ
clamped_size v py_gilruntimestate = v.size py_gilruntimestate
clamped_size v s = update_sizes v 0 (clamp_fields s)

unfoldable pub clamp_sizes : PythonV → PythonV
unfolding clamped_size
clamp_sizes v = record v { size = clamped_size v }

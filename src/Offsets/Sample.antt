-- ===== src/Offsets/Sample.antt =====
-- Debug offsets of a made-up Python 3.13, as test data for process.cpp.
use pystack.Prelude.{same_bytes, ℕ, ◌≡◌, refl, some, add64, sub64}
use pystack.Offsets.Layout
use pystack.Offsets.Layout.{
  DebugOffset, PythonV, sizeof, py_is, py_is_o_tstate_head, py_is_o_id, py_version_hex,
  runtime_state_struct_size, interpreter_state_struct_size, interpreter_state_threads_head,
}
use pystack.Offsets.Copy.{RemoteRuntime, copy_debug_offsets}
use pystack.Offsets.Checks.{
  check_field_bounds, validated_fields, validate_debug_offsets, clamp_sizes,
}
use pystack.Offsets.Load.{load_debug_offsets, debug_cookie}

-- Every structure has 64 bytes and every field stands at its start, but the list of threads.
unfoldable pub offset_values : DebugOffset → ℕ
offset_values py_version_hex = 0x030d_00f0
offset_values interpreter_state_threads_head = 16
offset_values Layout.runtime_state_struct_size = 64
offset_values Layout.interpreter_state_struct_size = 64
offset_values Layout.thread_state_struct_size = 64
offset_values Layout.interpreter_frame_struct_size = 64
offset_values Layout.code_object_struct_size = 64
offset_values Layout.pyobject_struct_size = 64
offset_values Layout.type_object_struct_size = 64
offset_values Layout.tuple_object_struct_size = 64
offset_values Layout.list_object_struct_size = 64
offset_values Layout.dict_object_struct_size = 64
offset_values Layout.float_object_struct_size = 64
offset_values Layout.long_object_struct_size = 64
offset_values Layout.bytes_object_struct_size = 64
offset_values Layout.unicode_object_struct_size = 64
offset_values Layout.gc_struct_size = 64
offset_values _ = 0

abbrev pub runtime : RemoteRuntime
runtime = record { cookie = debug_cookie; value = offset_values }

abbrev pub fixed : PythonV
fixed = record { size = λ _. 64; offset = λ _. 0 }

abbrev pub loaded : PythonV
loaded = clamp_sizes (copy_debug_offsets runtime fixed)

pub loads : load_debug_offsets (3, 13) runtime fixed ≡ some loaded
unfolding load_debug_offsets validate_debug_offsets check_field_bounds validated_fields
    copy_debug_offsets offset_values same_bytes sub64 add64
loads = refl

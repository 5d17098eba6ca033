-- ===== src/Offsets/Tests.antt =====
-- Runs of `loadDebugOffsets` and `getField` on the offsets of Offsets/Sample.
use pystack.Prelude.{same_bytes, ℕ, ◌+◌, ◌≤◌, ◌≡◌, refl, inl, inr, some, none, arith, add64}
use pystack.Memory.Exec.{ok}
use pystack.Memory.Process.Window.{window}
use pystack.Offsets.Layout.{PythonV, py_is, py_is_o_tstate_head, py_is_o_id}
use pystack.Offsets.Copy.{copy_debug_offsets}
use pystack.Offsets.Checks.{clamp_fields, validated_fields, clamp_sizes, update_sizes}
use pystack.Offsets.Load.{load_debug_offsets}
use pystack.Offsets.Structure.{value, aborted, get_field}
use pystack.Offsets.Bounds.{Fits, load-Fits, get_field-load}
use pystack.Offsets.Sample.{offset_values, runtime, fixed, loaded, loads}
use pystack.Offsets.Unchecked.{with_id, id_unchecked}

wrong_version : load_debug_offsets (3, 14) runtime fixed ≡ none
unfolding load_debug_offsets offset_values same_bytes
wrong_version = refl

clamped_interpreter : loaded.size py_is ≡ 24
unfolding clamp_sizes copy_debug_offsets clamp_fields update_sizes offset_values add64
clamped_interpreter = refl

load-Fits_example :
    Fits loaded py_is py_is_o_tstate_head
    × (loaded.size py_is ≤ (copy_debug_offsets runtime fixed).size py_is)
unfolding validated_fields
load-Fits_example =
    load-Fits (3, 13) runtime fixed loaded loads py_is py_is_o_tstate_head (inr (inl refl))
      (inr (inl refl))

abbrev mem : ℕ → ℕ
mem a = a

get_field-load_example :
    get_field (λ a n. ok (window mem a n)) loaded py_is 1000 py_is_o_tstate_head
    ≡ value (window mem (1000 + loaded.offset py_is_o_tstate_head) 8)
unfolding validated_fields
get_field-load_example =
    get_field-load (3, 13) runtime fixed loaded loads py_is py_is_o_tstate_head (inr (inl refl))
      (inr (inl refl)) mem (λ a n. ok (window mem a n)) 1000 refl

id_unchecked_example :
    (v : PythonV) × (load_debug_offsets (3, 13) (with_id runtime 56) fixed ≡ some v)
    × (get_field (λ a n. ok (window mem a n)) v py_is 1000 py_is_o_id ≡ aborted)
id_unchecked_example =
    id_unchecked (3, 13) runtime fixed loaded 56 1000 (λ a n. ok (window mem a n))
      (window mem 1000 (loaded.size py_is)) loads (rw clamped_interpreter (omega arith)) refl

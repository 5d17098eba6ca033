-- ===== src/Offsets/Unchecked.antt =====
-- The one field that `copyDebugOffsets` takes from the other process and no check looks at: the
-- identifier of an interpreter, which `getInterpreterId` reads.
use pystack.Prelude.{ℕ, ◌≤◌, ◌≡◌, refl, sym, ap, ◌∙◌, true, some, arith, sub64_exact}
use pystack.Offsets.Bounds.{load-validated}
use pystack.Memory.Exec.{Result, ok}
use pystack.Memory.Maps.{Bytes}
use pystack.Offsets.Layout.{PythonV, DebugOffset, interpreter_state_id, py_is, py_is_o_id}
use pystack.Offsets.Copy.{RemoteRuntime, copy_debug_offsets}
use pystack.Offsets.Checks.{
  validate_debug_offsets, check_field_bounds, validated_fields, clamp_fields, clamp_sizes,
  update_sizes,
}
use pystack.Offsets.Load.{Version, load_debug_offsets}
use pystack.Offsets.Structure.{aborted, get_field, field_outside}

abbrev with_value : (DebugOffset → ℕ) → ℕ → DebugOffset → ℕ
with_value value x interpreter_state_id = x
with_value value x d = value d

-- The same runtime, with another offset of the identifier.
abbrev pub with_id : RemoteRuntime → ℕ → RemoteRuntime
with_id r x = record r { value = with_value r.value x }

validate-with_id :
    (r : RemoteRuntime) (fixed : PythonV) (x : ℕ)
    → validate_debug_offsets (copy_debug_offsets (with_id r x) fixed)
      ≡ validate_debug_offsets (copy_debug_offsets r fixed)
unfolding validate_debug_offsets copy_debug_offsets check_field_bounds validated_fields
validate-with_id r fixed x = refl

clamped-with_id :
    (r : RemoteRuntime) (fixed : PythonV) (x : ℕ)
    → (clamp_sizes (copy_debug_offsets (with_id r x) fixed)).size py_is
      ≡ (clamp_sizes (copy_debug_offsets r fixed)).size py_is
unfolding clamp_sizes copy_debug_offsets update_sizes clamp_fields
clamped-with_id r fixed x = refl

load-with_id :
    (version : Version) (r : RemoteRuntime) (fixed v : PythonV) (x : ℕ)
    → load_debug_offsets version r fixed ≡ some v
    → load_debug_offsets version (with_id r x) fixed
      ≡ some (clamp_sizes (copy_debug_offsets (with_id r x) fixed))
unfolding load_debug_offsets
load-with_id version r fixed v x h = ground (arith, validate-with_id r fixed x)

outside :
    (v : PythonV) (x : ℕ)
    → v.offset py_is_o_id ≡ x
    → v.size py_is ≤ x
    → field_outside v py_is py_is_o_id ≡ true
unfolding field_outside
outside v x e far = ground (arith, sub64_exact (v.size py_is) 8)

offset-with_id :
    (r : RemoteRuntime) (fixed : PythonV) (x : ℕ)
    → (clamp_sizes (copy_debug_offsets (with_id r x) fixed)).offset py_is_o_id ≡ x
unfolding clamp_sizes copy_debug_offsets
offset-with_id r fixed x = refl

-- Debug offsets that are loaded are loaded as well with another offset of the interpreter's identifier
-- that is at or past the size to which the structure is clamped, and then reading the identifier,
-- where the structure can be copied, ends the program by `abort`.
pub id_unchecked :
    (version : Version) (r : RemoteRuntime) (fixed v : PythonV) (x addr : ℕ)
    (copy : ℕ → ℕ → Result Bytes) (buf : Bytes)
    → load_debug_offsets version r fixed ≡ some v
    → v.size py_is ≤ x
    → copy addr (v.size py_is) ≡ ok buf
    → (v' : PythonV) × (load_debug_offsets version (with_id r x) fixed ≡ some v')
      × (get_field copy v' py_is addr py_is_o_id ≡ aborted)
unfolding get_field
id_unchecked version r fixed v x addr copy buf h far copied =
    let v' = clamp_sizes (copy_debug_offsets (with_id r x) fixed) in
    let (_, e) = load-validated version r fixed v h in
    let size : v'.size py_is ≡ v.size py_is =
      clamped-with_id r fixed x ∙ ap (λ (w : PythonV). w.size py_is) (sym e) in
    (
      v',
      load-with_id version r fixed v x h,
      rw (
        size,
        copied,
        get_field,
        outside v' x (offset-with_id r fixed x) (omega (arith, size, far)),
      ),
    )

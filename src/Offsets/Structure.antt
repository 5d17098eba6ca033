-- ===== src/Offsets/Structure.antt =====
-- `Structure<T>` of structure.h: a structure of the other process, copied whole when a field is read.
use pystack.Prelude.{ℕ, ◌^◌, Bool, ◌||◌, leb, ltb, take, drop, if◌then◌else◌, add64, sub64}
use pystack.Memory.Exec.{Failure, Result, ok, throw}
use pystack.Memory.Maps.{Bytes}
use pystack.Offsets.Layout.{Struct, Field, PythonV, sizeof}

-- The bytes of a field, the exception of the copy, or the end of the program by `abort`.
pub data FieldRead : Type 0 where
  value : Bytes → FieldRead
  thrown : Failure → FieldRead
  aborted : FieldRead

unfoldable pub get_field_remote_address : PythonV → ℕ → Field → ℕ
get_field_remote_address v addr f = add64 addr (v.offset f)

-- The test before `abort`.
unfoldable pub field_outside : PythonV → Struct → Field → Bool
field_outside v s f =
    leb (2 ^ 63) (v.size s)
    || ltb (v.size s) (sizeof f)
    || ltb (sub64 (v.size s) (sizeof f)) (v.offset f)

-- `copy` is `copyMemoryFromProcess`.
unfoldable pub get_field : (ℕ → ℕ → Result Bytes) → PythonV → Struct → ℕ → Field → FieldRead
unfolding field_outside
get_field copy v s addr f = elim (copy addr (v.size s)) [
  | throw e ↦ thrown e
  | ok buf ↦
      if field_outside v s f then aborted else value (take (sizeof f) (drop (v.offset f) buf))
]

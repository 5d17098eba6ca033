-- ===== src/Process/Frame.antt =====
-- `FrameObject` of pyframe.cpp, `getStackAnchor` of pythread.cpp and `buildFrameStack` of thread_builder.cpp,
-- without the local variables.
pub mod Locals
mod Variables
pub mod Chain
pub mod Sample
mod Stack
mod Anchor
mod Ends
mod Tests
use pystack.Prelude.{
  ℕ, zero, suc, ◌+◌, ◌-◌, ◌%◌, ◌^◌, Bool, true, false, not, ◌&&◌, ◌||◌, Option, none, some, List,
  [], ◌∷◌, ◌==◌, if◌then◌else◌, add64, same_bytes, leb,
}
use pystack.Memory.Maps.{Bytes}
use pystack.Offsets.Layout.{
  py_frame, py_frame_o_back, py_frame_o_code, py_frame_o_owner, py_frame_o_prev_instr,
  py_frame_o_lasti, py_frame_o_is_entry,
}
use pystack.Code.LineTable.{LocationInfo}
use pystack.Code.LineNumbers.{unfilled}
use pystack.Version.{little_endian}
use pystack.Process.{
  Process, Run, done, stop, out_of_fuel, pure, ◌>>=◌, catch_remote, is_at_least, read, read_field,
  field_address,
}
use pystack.Process.CodeObject.{CodeObject, make_code}
use pystack.Process.ObjectType.{unknown_name}

pub record Frame : Type 0 where
  pub addr : ℕ
  pub frame_no : ℕ
  pub is_shim : Bool
  pub code : Option CodeObject
  pub is_entry : Bool

unfoldable pub get_is_shim : Process → ℕ → Run Bool
unfolding is_at_least read_field
get_is_shim p addr =
    if is_at_least p 3 12
    then (do
      owner ← read_field p py_frame addr py_frame_o_owner
      pure (if is_at_least p 3 14 then owner == 4 || owner == 3 else owner == 3))
    else done false

-- The code object that stands for one that cannot be read.
abbrev unknown_code : CodeObject
unknown_code = record {
  filename = unknown_name;
  scope = unknown_name;
  location_info = unfilled;
  narguments = 0;
  varnames = [];
}

-- The index of the thread's own instructions, -1 where there are none.
unfoldable pub get_tlbc_index : Process → ℕ → Run ℕ
unfolding is_at_least read field_address little_endian
get_tlbc_index p addr =
    if is_at_least p 3 14 && p.free_threaded
    then (do
      index ← read p (add64 (field_address p addr py_frame_o_prev_instr) 16) 4
      pure (little_endian index))
    else done (2 ^ 32 - 1)

-- An `int` as a `uintptr_t`.
unfoldable pub extended : ℕ → ℕ
extended i = if leb (2 ^ 31) i then i + 2 ^ 64 - 2 ^ 32 else i

-- `f_lasti` is an `int`.
unfoldable pub get_last_instruction : Process → ℕ → Run ℕ
unfolding is_at_least read_field extended
get_last_instruction p addr =
    if is_at_least p 3 11
    then read_field p py_frame addr py_frame_o_prev_instr
    else (do lasti ← read_field p py_frame addr py_frame_o_lasti; pure (extended lasti))

unfoldable pub get_code : LocationInfo → Process → ℕ → Run (Option CodeObject)
unfolding is_at_least read_field get_last_instruction get_tlbc_index make_code catch_remote
get_code uninitialised p addr = do
  code_addr ← read_field p py_frame addr py_frame_o_code
  let py_code_addr = if is_at_least p 3 14 then code_addr - code_addr % 4 else code_addr
  if py_code_addr == 0 then done none else (do
    last_instruction ← get_last_instruction p addr
    tlbc_index ← get_tlbc_index p addr
    catch_remote
        (make_code uninitialised p py_code_addr last_instruction tlbc_index >>= λ code.
          done (some code))
        (done (some unknown_code)))

abbrev pub starts_with_shim : List Frame → Bool
starts_with_shim [] = false
starts_with_shim (frame ∷ frames) = frame.is_shim

-- `prev` has the previous frame first.
unfoldable pub get_is_entry : Process → ℕ → ℕ → Bool → List Frame → Run Bool
unfolding is_at_least read_field
get_is_entry p addr frame_no is_shim prev =
    if is_at_least p 3 12
    then done (starts_with_shim prev || (frame_no == 0 && is_shim))
    else if is_at_least p 3 11
    then (do flag ← read_field p py_frame addr py_frame_o_is_entry; pure (not (flag == 0)))
    else done true

-- The constructor, with the frame and those before it as a list.
unfoldable pub make_frame : LocationInfo → Process → ℕ → ℕ → ℕ → Run (List Frame)
unfolding get_is_shim get_code get_is_entry read_field catch_remote
make_frame uninitialised p zero addr frame_no = stop out_of_fuel
make_frame uninitialised p (suc fuel) addr frame_no = do
  is_shim ← get_is_shim p addr
  code ← if is_shim then done none else get_code uninitialised p addr
  prev_addr ← read_field p py_frame addr py_frame_o_back
  let next_frame_no = if is_shim then frame_no else frame_no + 1
  let previous = make_frame uninitialised p fuel prev_addr next_frame_no
  prev ← if prev_addr == 0 then done [] else catch_remote previous (done [])
  is_entry ← get_is_entry p addr frame_no is_shim prev
  pure (
      record {
        addr = addr;
        frame_no = frame_no;
        is_shim = is_shim;
        code = code;
        is_entry = is_entry;
      }
      ∷ prev)

-- Frames without code, or with code that cannot be read, are left out.
abbrev is_shown : Frame → Bool
is_shown frame = elim frame.code [
  | none ↦ false
  | some code ↦ not (same_bytes code.filename unknown_name)
]

unfoldable pub build_frame_stack : List Frame → List Frame
unfolding same_bytes
build_frame_stack [] = []
build_frame_stack (frame ∷ frames) =
    if is_shown frame then frame ∷ build_frame_stack frames else build_frame_stack frames

-- The test for the frame at which the stack of C code ends.
unfoldable pub is_anchor : Process → ℕ → Run Bool
unfolding is_at_least read_field
is_anchor p addr =
    if is_at_least p 3 14
    then (do owner ← read_field p py_frame addr py_frame_o_owner; pure (owner == 3 || owner == 4))
    else if is_at_least p 3 12
    then (do owner ← read_field p py_frame addr py_frame_o_owner; pure (owner == 3))
    else (do flag ← read_field p py_frame addr py_frame_o_is_entry; pure (not (flag == 0)))

-- The loop, with the steps that are left.
unfoldable pub find_anchor : Process → ℕ → ℕ → ℕ → Run ℕ
unfolding is_anchor read_field
find_anchor p zero frame_addr current_addr = done frame_addr
find_anchor p (suc steps) frame_addr current_addr =
    if current_addr == 0 then done frame_addr else (do
      found ← is_anchor p current_addr
      if found then done current_addr else (do
        next_addr ← read_field p py_frame current_addr py_frame_o_back
        let later = find_anchor p steps frame_addr next_addr
        if next_addr == current_addr then done frame_addr else later))

unfoldable pub get_stack_anchor : Process → ℕ → Run ℕ
unfolding find_anchor is_at_least
get_stack_anchor p frame_addr =
    if frame_addr == 0
    then done 0
    else if not (is_at_least p 3 11)
    then done frame_addr
    else find_anchor p 4096 frame_addr frame_addr

-- ===== src/Process/Frame/Tests.antt =====
-- The theorems about frames, on small processes.
use pystack.Prelude.{ℕ, ◌≡◌, refl, true, add64, sub64, ◌≤◌, ◌^◌, [], ◌∷◌, some, false}
use pystack.Offsets.Layout.{py_frame, py_frame_o_back}
use pystack.Code.LineNumbers.{unfilled}
use pystack.Version.{little_endian}
use pystack.Process.{Process, read, field_address, done, read_field}
use pystack.Process.Sample.{process_of, threaded, circular}
use pystack.Memory.Maps.{Bytes}
use pystack.Offsets.Layout.{py_frame_o_localsplus}
use pystack.Process.Interpreter.{words_of}
use pystack.Process.CodeObject.{CodeObject}
use pystack.Process.Frame.Locals.{LocalVariables, print_local, resolve_local_variables}
use pystack.Process.Frame.Variables.{AreVariables, resolve_local_variables-AreVariables}
use pystack.Process.Frame.{Frame, get_is_shim, make_frame, build_frame_stack, get_stack_anchor}
use pystack.Process.Frame.Sample.{frames}
use pystack.Process.Frame.Chain.{StartsAt, IsChain, make_frame-IsChain}
use pystack.Process.Frame.Stack.{IsStack, build_frame_stack-IsStack}

made : make_frame unfilled threaded 2 4096 0 ≡ done frames
unfolding make_frame add64 sub64 little_endian
made = refl

make_frame-IsChain_example : StartsAt 4096 frames × IsChain threaded 0 frames
make_frame-IsChain_example = make_frame-IsChain unfilled threaded 2 4096 0 frames made

build_frame_stack-IsStack_example : IsStack 0 (build_frame_stack frames)
build_frame_stack-IsStack_example = build_frame_stack-IsStack unfilled threaded 2 4096 0 frames made

is_shim : get_is_shim circular 4096 ≡ done true
unfolding get_is_shim sub64 little_endian
is_shim = refl

points_to_itself : read_field circular py_frame 4096 py_frame_o_back ≡ done 4096
unfolding read_field sub64 little_endian
points_to_itself = refl

anchored : get_stack_anchor threaded 4096 ≡ done 4136
unfolding get_stack_anchor sub64 little_endian
anchored = refl

-- An empty list at 4096, its type at 4136, and the words of a frame's three variables from 4176 on.
abbrev with_variables : Process
with_variables =
    process_of (4136 ∷ 0 ∷ 0 ∷ 0 ∷ 0 ∷ (2 ^ 25) ∷ 4184 ∷ 0 ∷ 0 ∷ 0 ∷ 4096 ∷ 0 ∷ 4096 ∷ 0 ∷ 0 ∷ [])

abbrev code_of_variables : CodeObject
code_of_variables = record {
  filename = [];
  scope = [];
  location_info = unfilled;
  narguments = 1;
  varnames = (b'a' ∷ []) ∷ ((b'b' ∷ []) ∷ ((b'c' ∷ []) ∷ []));
}

abbrev frame_of_variables : Frame
frame_of_variables = record {
  addr = 4176;
  frame_no = 0;
  is_shim = false;
  code = some code_of_variables;
  is_entry = true;
}

abbrev print_double : ℕ → Bytes
print_double bits = []

-- The argument and the last local variable are "[]"; the other has no value.
abbrev variables : LocalVariables
variables = record {
  arguments = (b'a' ∷ [], b'[' ∷ b']' ∷ []) ∷ [];
  locals = (b'c' ∷ [], b'[' ∷ b']' ∷ []) ∷ [];
}

resolved :
    resolve_local_variables print_double 1 2 with_variables frame_of_variables
      (record { arguments = []; locals = [] })
    ≡ done variables
unfolding resolve_local_variables add64 sub64 little_endian words_of
resolved = refl

resolve_local_variables-AreVariables_example :
    (1 ≤ 3)
    × ((buffer : Bytes) × (read with_variables
            (field_address with_variables 4176 py_frame_o_localsplus)
            24
          ≡ done buffer)
        × AreVariables with_variables
            (print_local print_double 1 2 with_variables)
            code_of_variables
            buffer
            variables)
resolve_local_variables-AreVariables_example =
    resolve_local_variables-AreVariables print_double 1 2 with_variables frame_of_variables
      code_of_variables variables refl resolved

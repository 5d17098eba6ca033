-- ===== src/Process/Frame/Locals.antt =====
-- `FrameObject::resolveLocalVariables` of pyframe.cpp.
use pystack.Prelude.{
  ℕ, ◌+◌, ◌*◌, ◌/◌, Bool, false, ◌||◌, none, some, List, [], ◌∷◌, length, ltb, ◌==◌, if◌then◌else◌,
  same_bytes,
}
use pystack.Memory.Maps.{Bytes}
use pystack.Offsets.Layout.{py_frame_o_localsplus}
use pystack.Process.{
  Process, Run, done, stop, runtime_error, open_behaviour, ◌>>=◌, is_at_least, read, field_address,
}
use pystack.Process.Interpreter.{words_of}
use pystack.Process.Text.{to_string}
use pystack.Process.Frame.{Frame}

-- The values of variables by their names, as `std::unordered_map`.
abbrev pub Variables : Type 0
Variables = List (Bytes × Bytes)

pub record LocalVariables : Type 0 where
  pub arguments : Variables
  pub locals : Variables

unfoldable pub has_key : Bytes → Variables → Bool
has_key key [] = false
has_key key ((name, text) ∷ map') = same_bytes key name || has_key key map'

-- `map.insert` leaves a key that is there as it is.
unfoldable pub insert_variable : Bytes → Bytes → Variables → Variables
unfolding has_key
insert_variable key text map' = if has_key key map' then map' else (key, text) ∷ map'

-- `addr & ~3` from Python 3.14 on.
unfoldable pub untagged : Process → ℕ → ℕ
unfolding is_at_least
untagged p addr = if is_at_least p 3 14 then addr / 4 * 4 else addr

-- In these, `printer` prints the object at an address.
unfoldable pub add_local : Process → (ℕ → Run Bytes) → Bytes → ℕ → Variables → Run Variables
unfolding untagged insert_variable
add_local p printer key addr map' =
    if addr == 0
    then done map'
    else printer (untagged p addr) >>= λ text. done (insert_variable key text map')

-- The loop, from an index on.
unfoldable pub add_locals :
    Process → (ℕ → Run Bytes) → ℕ → ℕ → List Bytes → List ℕ → LocalVariables → Run LocalVariables
unfolding add_local
add_locals p printer n_arguments index names [] variables = done variables
add_locals p printer n_arguments index [] (addr ∷ tuple_buffer) variables = stop open_behaviour
add_locals p printer n_arguments index (key ∷ names) (addr ∷ tuple_buffer) variables =
    (if ltb index n_arguments
      then (add_local p printer key addr variables.arguments >>= λ map'.
          done (record variables { arguments = map' }))
      else (add_local p printer key addr variables.locals >>= λ map'.
          done (record variables { locals = map' })))
    >>= add_locals p printer n_arguments (index + 1) names tuple_buffer

abbrev max_local_str_size : ℕ
max_local_str_size = 80

module _ (print_double : ℕ → Bytes) (name_fuel fuel : ℕ) (p : Process) where
  -- `Object(d_manager, addr).toString()`
  abbrev pub print_local : ℕ → Run Bytes
  print_local addr = to_string print_double name_fuel p fuel max_local_str_size addr

  unfoldable pub resolve_local_variables : Frame → LocalVariables → Run LocalVariables
  unfolding add_locals read field_address to_string
  resolve_local_variables frame variables = elim frame.code [
    | none ↦ done variables
    | some code ↦
        let n_locals = length code.varnames in
        if ltb n_locals code.narguments
        then stop runtime_error
        else read p (field_address p frame.addr py_frame_o_localsplus) (n_locals * 8) >>= λ buffer.
            add_locals p print_local code.narguments 0 code.varnames (words_of n_locals buffer)
              variables
  ]

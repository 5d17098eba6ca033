-- ===== src/Process/ObjectType.antt =====
-- `Object` of pytypes.cpp, as far as its type: the constructor, `guessClassName` and `objectType`.
use pystack.Prelude.{ℕ, ◌/◌, ◌%◌, ◌^◌, none, some, [], ◌∷◌, ◌==◌, if◌then◌else◌, same_bytes}
use pystack.Memory.Maps.{Bytes}
use pystack.Offsets.Layout.{
  py_object, py_object_o_ob_type, py_type, py_type_o_tp_flags, py_type_o_tp_name, py_type_o_tp_repr,
}
use pystack.Process.{
  Process, Run, done, pure, ◌>>=◌, catch_remote, attempt, is_at_least, copy_from_remote, read_field,
}
use pystack.Process.Strings.{get_c_string_from_address}

pub data ObjectType : Type 0 where
  bytes string none_type int_bool long_bool int long float tuple list dict code other : ObjectType

pub record Object : Type 0 where
  pub addr : ℕ
  pub type_addr : ℕ
  pub classname : Bytes
  pub flags : ℕ

-- "invalid object"
abbrev invalid_name : Bytes
invalid_name =
    b'i' ∷ b'n' ∷ b'v' ∷ b'a' ∷ b'l' ∷ b'i' ∷ b'd' ∷ b' ' ∷ b'o' ∷ b'b' ∷ b'j' ∷ b'e' ∷ b'c' ∷ b't'
    ∷ []

abbrev pub bool_name : Bytes
bool_name = b'b' ∷ b'o' ∷ b'o' ∷ b'l' ∷ []

abbrev pub float_name : Bytes
float_name = b'f' ∷ b'l' ∷ b'o' ∷ b'a' ∷ b't' ∷ []

abbrev pub none_name : Bytes
none_name = b'N' ∷ b'o' ∷ b'n' ∷ b'e' ∷ b'T' ∷ b'y' ∷ b'p' ∷ b'e' ∷ []

abbrev pub code_name : Bytes
code_name = b'c' ∷ b'o' ∷ b'd' ∷ b'e' ∷ []

-- "PyCodeObject"
abbrev guessed_code_name : Bytes
guessed_code_name =
    b'P' ∷ b'y' ∷ b'C' ∷ b'o' ∷ b'd' ∷ b'e' ∷ b'O' ∷ b'b' ∷ b'j' ∷ b'e' ∷ b'c' ∷ b't' ∷ []

-- The suffix "_repr" of the four symbols.
abbrev repr_suffix : Bytes
repr_suffix = b'_' ∷ b'r' ∷ b'e' ∷ b'p' ∷ b'r' ∷ []

abbrev float_repr : Bytes
float_repr = b'f' ∷ b'l' ∷ b'o' ∷ b'a' ∷ b't' ∷ repr_suffix

abbrev none_repr : Bytes
none_repr = b'n' ∷ b'o' ∷ b'n' ∷ b'e' ∷ repr_suffix

abbrev bool_repr : Bytes
bool_repr = b'b' ∷ b'o' ∷ b'o' ∷ b'l' ∷ repr_suffix

abbrev code_repr : Bytes
code_repr = b'c' ∷ b'o' ∷ b'd' ∷ b'e' ∷ repr_suffix

-- "???"
abbrev pub unknown_name : Bytes
unknown_name = b'?' ∷ b'?' ∷ b'?' ∷ []

unfoldable pub guess_class_name : Process → ℕ → Run Bytes
unfolding read_field
guess_class_name p type_addr = do
  tp_repr ← read_field p py_type type_addr py_type_o_tp_repr
  if tp_repr == p.find_symbol float_repr
      then done float_name
      else if tp_repr == p.find_symbol none_repr
      then done none_name
      else if tp_repr == p.find_symbol bool_repr
      then done bool_name
      else if tp_repr == p.find_symbol code_repr
      then done guessed_code_name
      else done unknown_name

abbrev invalid_object : ℕ → ℕ → Object
invalid_object addr type_addr = record {
  addr = addr;
  type_addr = type_addr;
  classname = invalid_name;
  flags = 0;
}

-- After the flags are read.
unfoldable pub named_object : ℕ → Process → ℕ → ℕ → ℕ → Run Object
unfolding get_c_string_from_address guess_class_name catch_remote read_field
named_object fuel p addr type_addr flags = do
  name_addr ← read_field p py_type type_addr py_type_o_tp_name
  classname ←
      catch_remote (get_c_string_from_address fuel p name_addr) (guess_class_name p type_addr)
  pure (record { addr = addr; type_addr = type_addr; classname = classname; flags = flags })

-- The constructor. `fuel` bounds the length of the name of a class.
unfoldable pub make_object : ℕ → Process → ℕ → Run Object
unfolding named_object copy_from_remote read_field attempt
make_object fuel p addr = do
  obj ← attempt (copy_from_remote p py_object addr)
  elim obj [
    | none ↦ done (invalid_object addr 0)
    | some buffer ↦ do
      type_addr ← read_field p py_object addr py_object_o_ob_type
      read_flags ← attempt (read_field p py_type type_addr py_type_o_tp_flags)
      elim read_flags [
        | none ↦ done (invalid_object addr type_addr)
        | some flags ↦ named_object fuel p addr type_addr flags
      ]
  ]

-- The bits 23 to 31 of the flags, which tell the subclasses of the built-in types.
unfoldable pub subclass_bits : ℕ → ℕ
subclass_bits flags = flags / 2 ^ 23 % 2 ^ 9

unfoldable pub object_type : Process → Object → ObjectType
unfolding subclass_bits is_at_least same_bytes
object_type p o =
    let bits = subclass_bits o.flags in
    if bits == 2 ^ 4
    then (if is_at_least p 3 0 then bytes else string)
    else if bits == 2 ^ 5
    then string
    else if bits == 2 ^ 0
    then (if same_bytes o.classname bool_name then int_bool else int)
    else if bits == 2 ^ 1
    then (if same_bytes o.classname bool_name then long_bool else long)
    else if bits == 2 ^ 3
    then tuple
    else if bits == 2 ^ 2
    then list
    else if bits == 2 ^ 6
    then dict
    else if same_bytes o.classname float_name
    then float
    else if same_bytes o.classname none_name
    then none_type
    else if same_bytes o.classname code_name
    then code
    else other

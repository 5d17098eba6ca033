-- ===== src/Process/Printing.antt =====
-- The values of the other process and the small functions that print them, of pytypes.cpp:
-- `toConcreteObject`, `limitOutput` and `normalizeBytesObjectRepresentation`.
use pystack.Prelude.{
  ℕ, zero, suc, ◌+◌, ◌-◌, ◌/◌, ◌%◌, ◌^◌, Bool, true, false, not, ◌&&◌, Option, List, [], ◌∷◌, ◌++◌,
  drop, length, leb, ltb, ◌==◌, if◌then◌else◌, sub64,
}
use pystack.Memory.Maps.{Bytes}
use pystack.Offsets.Layout.{py_float, py_float_o_ob_fval}
use pystack.Version.{little_endian}
use pystack.Process.{
  Process, Run, done, stop, invalid_remote_object, pure, ◌>>=◌, is_at_least, read, read_field,
}
use pystack.Process.Strings.{get_string_from_address, get_bytes_from_address}
use pystack.Process.ObjectType.{ObjectType, Object, object_type}
use pystack.Process.CodeObject.{tuple_items, list_items}
use pystack.Process.LongObject.{LongObject, make_long}
use pystack.Process.DictObject.{make_dict}

-- "..."
abbrev pub ellipsis : Bytes
ellipsis = b'.' ∷ b'.' ∷ b'.' ∷ []

unfoldable pub join : List Bytes → Bytes
join [] = []
join (element ∷ []) = element
join (element ∷ (next ∷ elements)) = element ++ (b',' ∷ b' ' ∷ join (next ∷ elements))

-- The comparison is one of unsigned numbers.
unfoldable pub limit_output : Bytes → ℕ → Bytes
limit_output arg max_size = if sub64 max_size (length arg) == 0 then ellipsis else arg

unfoldable pub contains_only_ascii : Bytes → Bool
contains_only_ascii [] = true
contains_only_ascii (c ∷ val) = ltb c 127 && contains_only_ascii val

abbrev pub quoted : Bytes → Bytes
quoted val = b'"' ∷ (val ++ (b'"' ∷ []))

-- "<BINARY>"
abbrev binary : Bytes
binary = b'<' ∷ b'B' ∷ b'I' ∷ b'N' ∷ b'A' ∷ b'R' ∷ b'Y' ∷ b'>' ∷ []

unfoldable pub normalize_bytes_object_representation : Bytes → Bytes → Bytes
unfolding contains_only_ascii
normalize_bytes_object_representation val prefix =
    if contains_only_ascii val then prefix ++ quoted val else binary

abbrev digit_of : ℕ → ℕ
digit_of d = if ltb d 10 then b'0' + d else b'a' + d - 10

-- The digits of a number below the base's power of the fuel.
unfoldable pub print_digits : ℕ → ℕ → ℕ → Bytes
print_digits base zero n = []
print_digits base (suc fuel) n =
    let rest = print_digits base fuel (n / base) in
    if ltb n base then digit_of n ∷ [] else rest ++ (digit_of (n % base) ∷ [])

-- A 64-bit number has twenty decimal and sixteen hexadecimal digits at most.
abbrev pub decimal : ℕ → Bytes
decimal n = print_digits 10 20 n

abbrev pub hexadecimal : ℕ → Bytes
hexadecimal n = print_digits 16 16 n

-- A sign and a magnitude.
abbrev pub signed_text : Bool → ℕ → Bytes
signed_text negative n = if negative && not (n == 0) then b'-' ∷ decimal n else decimal n

-- A `long` by its 64 bits.
abbrev pub long_text : ℕ → Bytes
long_text n = if leb (2 ^ 63) n then signed_text true (2 ^ 64 - n) else signed_text false n

-- The alternatives of the variant.
pub data PythonObject : Type 0 where
  text : Bytes → PythonObject
  truth : Bool → PythonObject
  integer floating : ℕ → PythonObject
  long : Bool → LongObject → PythonObject
  tuple list : List ℕ → PythonObject
  dict : Option (List ℕ × List ℕ) → PythonObject
  nothing : PythonObject
  generic : ℕ → Bytes → PythonObject

-- `toInteger`, of a `_PyIntObject` of 24 bytes.
unfoldable pub to_integer : Process → ℕ → Run ℕ
unfolding read little_endian
to_integer p addr = do the_int ← read p addr 24; pure (little_endian (drop 16 the_int))

unfoldable pub to_bool : Process → ℕ → Run Bool
unfolding to_integer
to_bool p addr = do n ← to_integer p addr; pure (not (n == 0) && ltb n (2 ^ 63))

-- `catch (InvalidRemoteObject&)`
unfoldable pub catch_invalid_object : {A : Type 0} → Run A → Run A → Run A
catch_invalid_object (done a) handler = done a
catch_invalid_object (stop invalid_remote_object) handler = handler
catch_invalid_object (stop e) handler = stop e

-- The switch over the types.
unfoldable pub concrete_value : Process → ObjectType → Object → Run PythonObject
unfolding get_string_from_address get_bytes_from_address is_at_least to_integer to_bool make_long
    tuple_items list_items make_dict read_field normalize_bytes_object_representation
concrete_value p ObjectType.string o = do
  s ← get_string_from_address p o.addr
  pure (text (if is_at_least p 3 0 then quoted s else normalize_bytes_object_representation s []))
concrete_value p ObjectType.bytes o = do
  s ← get_bytes_from_address p o.addr
  pure (text (normalize_bytes_object_representation s (b'b' ∷ [])))
concrete_value p ObjectType.none_type o = done nothing
concrete_value p ObjectType.int o = to_integer p o.addr >>= λ n. done (integer n)
concrete_value p ObjectType.int_bool o = to_bool p o.addr >>= λ b. done (truth b)
concrete_value p ObjectType.long o = make_long p o.addr >>= λ l. done (long false l)
concrete_value p ObjectType.long_bool o = make_long p o.addr >>= λ l. done (long true l)
concrete_value p ObjectType.float o =
    read_field p py_float o.addr py_float_o_ob_fval >>= λ bits. done (floating bits)
concrete_value p ObjectType.tuple o = tuple_items p o.addr >>= λ items. done (tuple items)
concrete_value p ObjectType.list o = list_items p o.addr >>= λ items. done (list items)
concrete_value p ObjectType.dict o = make_dict p o.addr >>= λ d. done (dict d)
concrete_value p ObjectType.code o = done (generic o.addr o.classname)
concrete_value p ObjectType.other o = done (generic o.addr o.classname)

unfoldable pub to_concrete_object : Process → Object → Run PythonObject
unfolding concrete_value object_type catch_invalid_object
to_concrete_object p o =
    catch_invalid_object (concrete_value p (object_type p o) o) (done (generic o.addr o.classname))

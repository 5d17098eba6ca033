-- ===== src/Process/Text.antt =====
-- `Object::toString` of pytypes.cpp, with the functions `toString` of the values and `formatSequence`. How
-- the library prints a floating-point number is a parameter.
mod Fits
mod Ends
mod Nesting
mod Tests
use pystack.Prelude.{
  ℕ, zero, suc, ◌+◌, ◌-◌, Bool, true, false, not, ◌&&◌, Option, none, some, List, [], ◌∷◌, ◌++◌,
  take, length, leb, ltb, ◌==◌, if◌then◌else◌,
}
use pystack.Memory.Maps.{Bytes}
use pystack.Process.{
  Process, Run, done, stop, out_of_fuel, open_behaviour, pure, ◌>>=◌, catch_remote,
}
use pystack.Process.ObjectType.{Object, make_object}
use pystack.Process.LongObject.{LongObject}
use pystack.Process.Printing.{
  ellipsis, join, limit_output, decimal, hexadecimal, signed_text, long_text, PythonObject, text,
  truth, integer, floating, long, tuple, list, dict, nothing, generic, to_concrete_object,
}

-- "None"
abbrev none_text : Bytes
none_text = b'N' ∷ b'o' ∷ b'n' ∷ b'e' ∷ []

abbrev true_text : Bytes
true_text = b'T' ∷ b'r' ∷ b'u' ∷ b'e' ∷ []

abbrev false_text : Bytes
false_text = b'F' ∷ b'a' ∷ b'l' ∷ b's' ∷ b'e' ∷ []

-- "<UNRESOLVED BIG INT>"
abbrev big_int_text : Bytes
big_int_text =
    b'<' ∷ b'U' ∷ b'N' ∷ b'R' ∷ b'E' ∷ b'S' ∷ b'O' ∷ b'L' ∷ b'V' ∷ b'E' ∷ b'D' ∷ b' ' ∷ b'B' ∷ b'I'
    ∷ b'G' ∷ b' ' ∷ b'I' ∷ b'N' ∷ b'T' ∷ b'>' ∷ []

-- "<UNRESOLVED DICT OBJECT>"
abbrev dict_text : Bytes
dict_text =
    b'<' ∷ b'U' ∷ b'N' ∷ b'R' ∷ b'E' ∷ b'S' ∷ b'O' ∷ b'L' ∷ b'V' ∷ b'E' ∷ b'D' ∷ b' ' ∷ b'D' ∷ b'I'
    ∷ b'C' ∷ b'T' ∷ b' ' ∷ b'O' ∷ b'B' ∷ b'J' ∷ b'E' ∷ b'C' ∷ b'T' ∷ b'>' ∷ []

-- `<name at 0xaddr>`, and `<name object at 0xaddr>` with `showbase`, which writes no 0x before 0.
unfoldable pub generic_text : ℕ → Bytes → Bytes
generic_text addr classname =
    b'<'
    ∷ (classname ++ (b' ' ∷ b'a' ∷ b't' ∷ b' ' ∷ b'0' ∷ b'x' ∷ (hexadecimal addr ++ (b'>' ∷ []))))

unfoldable pub object_text : Object → Bytes
object_text o =
    b'<'
    ∷ (o.classname
        ++ (b' '
            ∷ b'o'
            ∷ b'b'
            ∷ b'j'
            ∷ b'e'
            ∷ b'c'
            ∷ b't'
            ∷ b' '
            ∷ b'a'
            ∷ b't'
            ∷ b' '
            ∷ ((if o.addr == 0 then [] else b'0' ∷ b'x' ∷ [])
                ++ (hexadecimal o.addr ++ (b'>' ∷ [])))))

unfoldable pub long_object_text : Bool → LongObject → ℕ → Bytes
unfolding limit_output
long_object_text true l max_size =
    if not l.negative && not (l.magnitude == 0) then true_text else false_text
long_object_text false l max_size =
    if l.is_overflowed
    then big_int_text
    else limit_output (signed_text l.negative l.magnitude) max_size

-- A string is cut off when it is too long.
unfoldable pub truncated : Bytes → ℕ → Bytes
truncated arg max_size =
    if ltb max_size (length arg) then take (max_size - 3) arg ++ ellipsis else arg

-- After an element: the rest of the elements, or an ellipsis in its place that ends them.
unfoldable pub add_element : ℕ → Bytes → (ℕ → Run (List Bytes)) → Run (List Bytes)
add_element remaining item_str elements =
    if ltb remaining (length item_str + 7)
    then done (ellipsis ∷ [])
    else (do rest ← elements (remaining - (length item_str + 2)); pure (item_str ∷ rest))

-- In these, `printer` prints the object at an address in a size.
unfoldable pub format_elements : (ℕ → ℕ → Run Bytes) → List ℕ → ℕ → Run (List Bytes)
unfolding add_element
format_elements printer [] remaining = done []
format_elements printer (item ∷ items) remaining = printer remaining item >>= λ item_str.
    add_element remaining item_str (format_elements printer items)

unfoldable pub format_sequence : (ℕ → ℕ → Run Bytes) → List ℕ → ℕ → Run Bytes
unfolding format_elements join
format_sequence printer items max_size = do
  elements ← format_elements printer items max_size
  pure (join elements)

-- The loop over the keys, each with the value of its index.
unfoldable pub format_entries : (ℕ → ℕ → Run Bytes) → List ℕ → List ℕ → ℕ → Run (List Bytes)
unfolding add_element
format_entries printer [] values remaining = done []
format_entries printer (key ∷ keys) [] remaining = stop open_behaviour
format_entries printer (key ∷ keys) (item ∷ values) remaining = printer remaining key >>= λ key_str.
    printer remaining item >>= λ value_str.
    add_element remaining (key_str ++ (b':' ∷ b' ' ∷ value_str))
      (format_entries printer keys values)

abbrev pub enclosed : ℕ → ℕ → Bytes → Bytes
enclosed left right inner = left ∷ (inner ++ (right ∷ []))

module _ (print_double : ℕ → Bytes) where
  -- The visitor of the variant.
  unfoldable pub print_value : (ℕ → ℕ → Run Bytes) → ℕ → PythonObject → Run Bytes
  unfolding truncated long_object_text format_sequence format_entries join generic_text limit_output
  print_value printer max_size (text s) = done (truncated s max_size)
  print_value printer max_size (truth b) = done (if b then b'1' ∷ [] else b'0' ∷ [])
  print_value printer max_size (integer n) = done (long_text n)
  print_value printer max_size (floating bits) = done (print_double bits)
  print_value printer max_size (long is_bool l) = done (long_object_text is_bool l max_size)
  print_value printer max_size (tuple items) = do
    inner ← format_sequence printer items (max_size - 2)
    pure (enclosed b'(' b')' inner)
  print_value printer max_size (list items) = do
    inner ← format_sequence printer items (max_size - 2)
    pure (enclosed b'[' b']' inner)
  print_value printer max_size (dict none) = done dict_text
  print_value printer max_size (dict (some (keys, values))) = do
    elements ← format_entries printer keys values (max_size - 2)
    pure (enclosed b'{' b'}' (join elements))
  print_value printer max_size nothing = done none_text
  print_value printer max_size (generic addr classname) =
      done (limit_output (generic_text addr classname) max_size)

  -- `Object(manager, addr).toString(max_size)`; `name_fuel` bounds the names of classes, and the fuel
  -- the nesting.
  unfoldable pub to_string : ℕ → Process → ℕ → ℕ → ℕ → Run Bytes
  unfolding make_object to_concrete_object print_value catch_remote object_text
  to_string name_fuel p zero max_size addr = stop out_of_fuel
  to_string name_fuel p (suc fuel) max_size addr =
      let printer = to_string name_fuel p fuel in
      make_object name_fuel p addr >>= λ o.
      if leb max_size 5
      then done ellipsis
      else catch_remote (to_concrete_object p o >>= print_value printer max_size)
          (done (object_text o))

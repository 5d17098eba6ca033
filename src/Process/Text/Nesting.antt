-- ===== src/Process/Text/Nesting.antt =====
-- `toString` of pytypes.cpp comes to an end, also on values that hold themselves.
use pystack.Prelude.{
  ℕ, zero, suc, ◌+◌, ◌-◌, ◌<◌, arith, List, [], ◌∷◌, Option, some, none, length, leb, if◌then◌else◌,
  Bool-cases, inl, inr,
}
use pystack.Memory.Maps.{Bytes}
use pystack.Process.{Process, Run, done, stop, attempt, invalid_remote_object, copy_from_remote}
use pystack.Offsets.Layout.{Struct, py_object, py_object_o_ob_type, py_type, py_type_o_tp_flags}
use pystack.Process.Ends.{
  HasEnded, given, stopped, ends, bind-HasEnded, if-HasEnded, catch_remote-HasEnded, read-HasEnded,
  read_field-HasEnded,
}
use pystack.Process.ObjectType.{Object, guess_class_name, named_object, make_object, object_type}
use pystack.Process.Printing.{
  PythonObject, text, truth, integer, floating, long, tuple, list, dict, nothing, generic,
  catch_invalid_object, to_concrete_object,
}
use pystack.Process.Text.{
  add_element, format_elements, format_sequence, format_entries, print_value, to_string,
}
use pystack.Process.Text.Ends.{MemoryEnds, c_string-HasEnded, concrete-HasEnded}

attempt-HasEnded : {A : Type 0} (r : Run A) → HasEnded r → HasEnded (attempt r)
unfolding attempt
attempt-HasEnded r h = search (ends)

catch_invalid-HasEnded :
    {A : Type 0} (r s : Run A) → HasEnded r → HasEnded s → HasEnded (catch_invalid_object r s)
unfolding catch_invalid_object
catch_invalid-HasEnded (done a) s h k = h
catch_invalid-HasEnded (stop invalid_remote_object) s h k = k
catch_invalid-HasEnded (stop e) s h k = h

option-HasEnded :
    {A B : Type 0} (o : Option A) (r : Run B) (k : A → Run B)
    → HasEnded r
    → ((a : A) → HasEnded (k a))
    → HasEnded (elim o [ none ↦ r | some a ↦ k a ])
option-HasEnded none r k h j = h
option-HasEnded (some a) r k h j = j a

module _ (p : Process) where
  guess-HasEnded : (addr : ℕ) → HasEnded (guess_class_name p addr)
  unfolding guess_class_name
  guess-HasEnded addr = search (ends, read_field-HasEnded) depth 12

  copy-HasEnded : (s : Struct) (addr : ℕ) → HasEnded (copy_from_remote p s addr)
  unfolding copy_from_remote
  copy-HasEnded s addr = search (ends, read-HasEnded)

  named-HasEnded :
      (limit addr type_addr flags : ℕ)
      → MemoryEnds p limit
      → HasEnded (named_object (suc limit) p addr type_addr flags)
  unfolding named_object
  named-HasEnded limit addr type_addr flags m =
      let name = λ (a : ℕ). c_string-HasEnded p limit m limit a (omega arith) in
      search (ends, read_field-HasEnded, guess-HasEnded, name)

  object-HasEnded :
      (limit addr : ℕ) → MemoryEnds p limit → HasEnded (make_object (suc limit) p addr)
  unfolding make_object
  object-HasEnded limit addr m =
      bind-HasEnded _ _ (attempt-HasEnded _ (copy-HasEnded py_object addr)) (λ obj.
        option-HasEnded obj _ _ (given _) (λ buffer.
          bind-HasEnded _ _ (read_field-HasEnded p py_object addr py_object_o_ob_type) (λ type_addr.
            bind-HasEnded _ _
              (attempt-HasEnded _ (read_field-HasEnded p py_type type_addr py_type_o_tp_flags))
              (λ read_flags.
                option-HasEnded read_flags _ _ (given _)
                  (λ flags. named-HasEnded limit addr type_addr flags m)))))

  value-HasEnded : (o : Object) → HasEnded (to_concrete_object p o)
  unfolding to_concrete_object
  value-HasEnded o = catch_invalid-HasEnded _ _ (concrete-HasEnded p (object_type p o) o) (given _)

-- What the printer of a list prints in at most a size ends.
abbrev EndsBelow : ℕ → (ℕ → ℕ → Run Bytes) → Type 0
EndsBelow bound printer = (max_size addr : ℕ) → max_size < bound → HasEnded (printer max_size addr)

add_element-HasEnded :
    (bound remaining : ℕ) (item_str : Bytes) (elements : ℕ → Run (List Bytes))
    → remaining < bound
    → ((smaller : ℕ) → smaller < bound → HasEnded (elements smaller))
    → HasEnded (add_element remaining item_str elements)
unfolding add_element
add_element-HasEnded bound remaining item_str elements h ih =
    if-HasEnded _ _ _ (given _)
      (bind-HasEnded _ _ (ih (remaining - (length item_str + 2)) (omega arith)) (λ rest. given _))

module _ (bound : ℕ) (printer : ℕ → ℕ → Run Bytes) (below : EndsBelow bound printer) where
  elements-HasEnded :
      (items : List ℕ) (remaining : ℕ)
      → remaining < bound
      → HasEnded (format_elements printer items remaining)
  unfolding format_elements
  elements-HasEnded [] remaining h = given _
  elements-HasEnded (item ∷ items) remaining h =
      bind-HasEnded _ _ (below remaining item h) (λ item_str.
        add_element-HasEnded bound remaining item_str (format_elements printer items) h
          (elements-HasEnded items))

  entries-HasEnded :
      (keys values : List ℕ) (remaining : ℕ)
      → remaining < bound
      → HasEnded (format_entries printer keys values remaining)
  unfolding format_entries
  entries-HasEnded [] values remaining h = given _
  entries-HasEnded (key ∷ keys) [] remaining h = stopped _ tt
  entries-HasEnded (key ∷ keys) (item ∷ values) remaining h =
      bind-HasEnded _ _ (below remaining key h) (λ key_str.
        bind-HasEnded _ _ (below remaining item h) (λ value_str.
          add_element-HasEnded bound remaining _ (format_entries printer keys values) h
            (entries-HasEnded keys values)))

  sequence-HasEnded :
      (items : List ℕ) (max_size : ℕ)
      → max_size < bound
      → HasEnded (format_sequence printer items max_size)
  unfolding format_sequence
  sequence-HasEnded items max_size h =
      bind-HasEnded _ _ (elements-HasEnded items max_size h) (λ elements. given _)

  print_value-HasEnded :
      (print_double : ℕ → Bytes) (max_size : ℕ) (v : PythonObject)
      → max_size - 2 < bound
      → HasEnded (print_value print_double printer max_size v)
  unfolding print_value
  print_value-HasEnded d max_size (text s) h = given _
  print_value-HasEnded d max_size (truth b) h = given _
  print_value-HasEnded d max_size (integer n) h = given _
  print_value-HasEnded d max_size (floating bits) h = given _
  print_value-HasEnded d max_size (long b n) h = given _
  print_value-HasEnded d max_size (tuple items) h =
      bind-HasEnded _ _ (sequence-HasEnded items (max_size - 2) h) (λ inner. given _)
  print_value-HasEnded d max_size (list items) h =
      bind-HasEnded _ _ (sequence-HasEnded items (max_size - 2) h) (λ inner. given _)
  print_value-HasEnded d max_size (dict none) h = given _
  print_value-HasEnded d max_size (dict (some (keys, values))) h =
      bind-HasEnded _ _ (entries-HasEnded keys values (max_size - 2) h) (λ elements. given _)
  print_value-HasEnded d max_size nothing h = given _
  print_value-HasEnded d max_size (generic addr classname) h = given _

-- Where the memory ends at an address, printing an object, even one that contains itself, with more
-- fuel than the size that is asked for, ends with a text, an exception of the program, an abort, or
-- behaviour that C++ leaves open (such as the shift in a dictionary from Python 3.11 on), and never for
-- want of fuel.
pub to_string-HasEnded :
    (print_double : ℕ → Bytes) (p : Process) (limit : ℕ)
    → MemoryEnds p limit
    → (fuel max_size addr : ℕ) → max_size < fuel
    → HasEnded (to_string print_double (suc limit) p fuel max_size addr)
unfolding to_string
to_string-HasEnded d p limit m zero max_size addr h = absurd (omega arith)
to_string-HasEnded d p limit m (suc fuel) max_size addr h =
    bind-HasEnded _ _ (object-HasEnded p limit addr m) (λ o. short max_size _ _ (given _) (λ large.
      catch_remote-HasEnded _ _
        (bind-HasEnded _ _ (value-HasEnded p o) (λ v.
          print_value-HasEnded fuel (to_string d (suc limit) p fuel)
            (to_string-HasEnded d p limit m fuel) d max_size v (omega (arith, large))))
        (given _)))
  where
    short :
        (n : ℕ) (r s : Run Bytes)
        → HasEnded r
        → (5 < n → HasEnded s)
        → HasEnded (if leb n 5 then r else s)
    short n r s h k = elim (Bool-cases (leb n 5)) [
      | inl e ↦ rw e h
      | inr e ↦ rw e (k (ground (arith, e)))
    ]

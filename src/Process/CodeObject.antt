-- ===== src/Process/CodeObject.antt =====
-- `TupleObject` and `ListObject` of pytypes.cpp, as far as their items, and `CodeObject` of pycode.cpp with
-- `getLocationInfo`, as far as it reads the process.
use pystack.Prelude.{
  ℕ, ◌*◌, ◌^◌, ◌&&◌, Option, none, some, List, [], ◌∷◌, get_elem?, leb, ◌==◌, if◌then◌else◌, add64,
  sub64,
}
use pystack.Memory.Maps.{Bytes}
use pystack.Offsets.Layout.{
  py_tuple, py_tuple_o_ob_size, py_tuple_o_ob_item, py_list, py_list_o_ob_size, py_list_o_ob_item,
  py_code, py_code_o_filename, py_code_o_name, py_code_o_firstlineno, py_code_o_lnotab,
  py_code_o_argcount, py_code_o_varnames, py_code_o_code_adaptive,
}
use pystack.Code.Scan.{Outcome}
use pystack.Code.LineTable.{LocationInfo}
use pystack.Code.LineNumbers.{get_location_info}
use pystack.Process.{
  Process, Run, done, stop, runtime_error, open_behaviour, pure, ◌>>=◌, is_at_least, read,
  read_word, read_field, field_address,
}
use pystack.Process.Interpreter.{words_of}
use pystack.Process.Strings.{get_string_from_address, get_bytes_from_address}

-- A vector of `n` words, which cannot have 2 ^ 60 or more.
unfoldable pub read_words : Process → ℕ → ℕ → Run (List ℕ)
unfolding words_of read
read_words p addr n =
    if leb (2 ^ 60) n
    then stop runtime_error
    else (do buffer ← read p addr (n * 8); pure (words_of n buffer))

unfoldable pub tuple_items : Process → ℕ → Run (List ℕ)
unfolding read_words read_field field_address
tuple_items p addr = do
  num_items ← read_field p py_tuple addr py_tuple_o_ob_size
  if num_items == 0
      then done []
      else read_words p (field_address p addr py_tuple_o_ob_item) num_items

unfoldable pub list_items : Process → ℕ → Run (List ℕ)
unfolding read_words read_field field_address
list_items p addr = do
  num_items ← read_field p py_list addr py_list_o_ob_size
  if num_items == 0 then done [] else (do
    ob_item ← read_field p py_list addr py_list_o_ob_item
    read_words p ob_item num_items)

abbrev pub of_outcome : {A : Type 0} → Outcome A → Run A
of_outcome (Outcome.done a) = done a
of_outcome (Outcome.fault e) = stop open_behaviour

-- An element of a vector, by an `int` that nothing checks.
abbrev pub of_option : Option ℕ → Run ℕ
of_option (some a) = done a
of_option none = stop open_behaviour

-- Where the instructions start: those of the thread, in free-threaded Python 3.14.
unfoldable pub code_start : Process → ℕ → ℕ → Run ℕ
unfolding field_address read_word read_words is_at_least
code_start p code_addr tlbc_index =
    let code_adaptive = field_address p code_addr py_code_o_code_adaptive in
    if is_at_least p 3 14 && p.free_threaded
    then (do
      tlbc_entries ← read_word p (sub64 code_adaptive 8)
      tlbc_size ← read_word p tlbc_entries
      vec ← read_words p (add64 tlbc_entries 8) tlbc_size
      of_option (get_elem? vec tlbc_index))
    else done code_adaptive

-- `uninitialised` is the structure that `parse_linetable` fills.
unfoldable pub read_location_info : LocationInfo → Process → ℕ → ℕ → ℕ → Run LocationInfo
unfolding code_start read_field get_bytes_from_address get_location_info
read_location_info uninitialised p code_addr last_instruction_index tlbc_index = do
  code_lineno ← read_field p py_code code_addr py_code_o_firstlineno
  lnotab_addr ← read_field p py_code code_addr py_code_o_lnotab
  lnotab ← get_bytes_from_address p lnotab_addr
  start ← code_start p code_addr tlbc_index
  of_outcome
      (get_location_info p.version code_lineno lnotab last_instruction_index start uninitialised)

pub record CodeObject : Type 0 where
  pub filename : Bytes
  pub scope : Bytes
  pub location_info : LocationInfo
  pub narguments : ℕ
  pub varnames : List Bytes

unfoldable pub get_strings : Process → List ℕ → Run (List Bytes)
unfolding get_string_from_address
get_strings p [] = done []
get_strings p (addr ∷ addrs) =
    let later = get_strings p addrs in
    get_string_from_address p addr >>= λ varname. later >>= λ varnames. done (varname ∷ varnames)

unfoldable pub make_code : LocationInfo → Process → ℕ → ℕ → ℕ → Run CodeObject
unfolding read_location_info read_field get_string_from_address tuple_items get_strings
make_code uninitialised p addr lasti tlbc_index = do
  filename_addr ← read_field p py_code addr py_code_o_filename
  filename ← get_string_from_address p filename_addr
  name_addr ← read_field p py_code addr py_code_o_name
  scope ← get_string_from_address p name_addr
  location_info ← read_location_info uninitialised p addr lasti tlbc_index
  narguments ← read_field p py_code addr py_code_o_argcount
  varnames_addr ← read_field p py_code addr py_code_o_varnames
  items ← tuple_items p varnames_addr
  varnames ← get_strings p items
  pure (record {
    filename = filename;
    scope = scope;
    location_info = location_info;
    narguments = narguments;
    varnames = varnames;
  })

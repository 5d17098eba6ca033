-- ===== src/Process/DictObject.antt =====
-- `DictObject` of pytypes.cpp: its constructor, `getDictEntries`, `loadFromPython3` and `loadFromPython2`.
mod Lengths
mod Tests
use pystack.Prelude.{
  ℕ, Option, none, some, take, drop, ◌+◌, ◌*◌, ◌/◌, ◌^◌, Bool, true, false, not, ◌||◌, List, [],
  ◌∷◌, map, leb, ltb, ◌==◌, if◌then◌else◌, add64,
}
use pystack.Memory.Maps.{Bytes}
use pystack.Version.{little_endian}
use pystack.Offsets.Layout.{
  py_dict, py_dict_o_ma_keys, py_dict_o_ma_values, py_dictkeys, py_dictkeys_o_dk_size,
  py_dictkeys_o_dk_kind, py_dictkeys_o_dk_nentries, py_dictkeys_o_dk_indices,
  py_dictvalues_o_values,
}
use pystack.Process.{
  Process, Run, done, stop, runtime_error, open_behaviour, pure, ◌>>=◌, is_at_least, read,
  read_field, field_address,
}
use pystack.Process.Interpreter.{words_of}
use pystack.Process.CodeObject.{read_words}

pub record Entry : Type 0 where
  pub me_key : ℕ
  pub me_value : ℕ

-- Entries of a key and a value, and entries with a hash before them.
unfoldable pub unicode_entries : List ℕ → List Entry
unicode_entries (key ∷ item ∷ words) =
    (record { me_key = key; me_value = item }) ∷ unicode_entries words
unicode_entries _ = []

unfoldable pub hashed_entries : List ℕ → List Entry
hashed_entries (hash ∷ key ∷ item ∷ words) =
    (record { me_key = key; me_value = item }) ∷ hashed_entries words
hashed_entries _ = []

-- The size of the indices before the entries.
unfoldable pub index_size : ℕ → ℕ
index_size dk_size =
    if leb dk_size 0xff || leb (2 ^ 63) dk_size
    then dk_size
    else if leb dk_size 0xffff
    then 2 * dk_size
    else if leb dk_size 0xffff_ffff
    then 4 * dk_size
    else 8 * dk_size

-- From Python 3.11 on the field is a logarithm, and a shift by 63 or more is left open.
unfoldable pub key_table_size : Bool → ℕ → Run ℕ
key_table_size true dk_size = if leb 63 dk_size then stop open_behaviour else done (2 ^ dk_size)
key_table_size false dk_size = done dk_size

unfoldable pub valid_entries : List Entry → List Entry
valid_entries [] = []
valid_entries (entry ∷ entries) =
    if entry.me_key == 0 then valid_entries entries else entry ∷ valid_entries entries

-- `width` is the size of an entry in words, and the vector cannot have more than 2 ^ 63 bytes.
unfoldable pub read_entries : Process → ℕ → ℕ → ℕ → Run (List ℕ)
unfolding read words_of
read_entries p width addr n =
    if leb (2 ^ 63) (8 * (width * n))
    then stop runtime_error
    else (do buffer ← read p addr (8 * (width * n)); pure (words_of (width * n) buffer))

unfoldable pub read_kind : Process → ℕ → Run ℕ
unfolding is_at_least read_field
read_kind p keys_addr =
    if is_at_least p 3 11 then read_field p py_dictkeys keys_addr py_dictkeys_o_dk_kind else done 0

-- The number of items, and the entries with a key.
unfoldable pub get_dict_entries : Process → ℕ → Run (ℕ × List Entry)
unfolding read_field is_at_least field_address key_table_size index_size read_kind read_entries
    valid_entries unicode_entries hashed_entries
get_dict_entries p addr = do
  keys_addr ← read_field p py_dict addr py_dict_o_ma_keys
  num_items ← read_field p py_dictkeys keys_addr py_dictkeys_o_dk_nentries
  size_field ← read_field p py_dictkeys keys_addr py_dictkeys_o_dk_size
  dk_size ← key_table_size (is_at_least p 3 11) size_field
  dk_kind ← read_kind p keys_addr
  let entries_addr = add64 (field_address p keys_addr py_dictkeys_o_dk_indices) (index_size dk_size)
  if num_items == 0
      then done (0, [])
      else if not (dk_kind == 0)
      then (do
        words ← read_entries p 2 entries_addr num_items
        pure (num_items, valid_entries (unicode_entries words)))
      else (do
        words ← read_entries p 3 entries_addr num_items
        pure (num_items, valid_entries (hashed_entries words)))

abbrev pub key_of : Entry → ℕ
key_of entry = entry.me_key

abbrev pub value_of : Entry → ℕ
value_of entry = entry.me_value

-- The keys and the values.
unfoldable pub load_from_python3 : Process → ℕ → Run (List ℕ × List ℕ)
unfolding get_dict_entries read_field read_words field_address
load_from_python3 p addr = do
  found ← get_dict_entries p addr
  dictvalues_addr ← read_field p py_dict addr py_dict_o_ma_values
  values ←
      if not (dictvalues_addr == 0)
      then read_words p (field_address p dictvalues_addr py_dictvalues_o_values) found.0
      else done (map value_of found.1)
  pure (map key_of found.1, values)

-- The entries of Python 2 have the layout of the entries with a hash; empty is one without a value.
unfoldable pub used_entries : List Entry → List Entry
used_entries [] = []
used_entries (entry ∷ entries) =
    if entry.me_value == 0 then used_entries entries else entry ∷ used_entries entries

-- `ma_mask` and `ma_table` of a `Python2::PyDictObject`, which has 48 bytes.
unfoldable pub load_from_python2 : Process → ℕ → Run (List ℕ × List ℕ)
unfolding read read_entries hashed_entries used_entries little_endian
load_from_python2 p addr = do
  header ← read p addr 48
  let num_items = add64 (little_endian (take 8 (drop 32 header))) 1
  words ← read_entries p 3 (little_endian (take 8 (drop 40 header))) num_items
  let entries = used_entries (hashed_entries words)
  pure (map key_of entries, map value_of entries)

-- The constructor; `none` stands for `d_invalid`.
unfoldable pub make_dict : Process → ℕ → Run (Option (List ℕ × List ℕ))
unfolding is_at_least load_from_python3 load_from_python2
make_dict p addr =
    if is_at_least p 3 6
    then (do dict ← load_from_python3 p addr; pure (some dict))
    else if is_at_least p 3 0
    then done none
    else (do dict ← load_from_python2 p addr; pure (some dict))

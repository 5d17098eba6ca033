-- ===== src/Process/DictObject/Lengths.antt =====
-- How many keys and values `DictObject` of pytypes.cpp has, and where its loading is left open.
use pystack.Prelude.{
  ℕ, suc, ◌*◌, ◌≤◌, ◌≡◌, refl, sym, ap, ◌∙◌, arith, add64, Bool, true, false, not, List, [], ◌∷◌,
  map, length, leb, ◌==◌, if◌then◌else◌, Bool-cases, inl, inr,
}
use pystack.Offsets.Layout.{
  py_dict, py_dict_o_ma_keys, py_dict_o_ma_values, py_dictkeys, py_dictkeys_o_dk_size,
  py_dictkeys_o_dk_nentries, py_dictkeys_o_dk_indices, py_dictvalues_o_values,
}
use pystack.Process.{
  Process, Run, done, stop, runtime_error, open_behaviour, ◌>>=◌, is_at_least, read, read_field,
  field_address,
}
use pystack.Process.CodeObject.{read_words}
use pystack.Process.Runs.{bind-done, same_done, length-words_of}
use pystack.Process.DictObject.{
  Entry, unicode_entries, hashed_entries, index_size, key_table_size, valid_entries, read_entries,
  read_kind, get_dict_entries, key_of, value_of, load_from_python3,
}

length-unicode_entries : (words : List ℕ) → 2 * length (unicode_entries words) ≤ length words
unfolding unicode_entries
length-unicode_entries [] = omega arith
length-unicode_entries (key ∷ []) = omega arith
length-unicode_entries (key ∷ item ∷ words) = omega (arith, length-unicode_entries words)

length-hashed_entries : (words : List ℕ) → 3 * length (hashed_entries words) ≤ length words
unfolding hashed_entries
length-hashed_entries [] = omega arith
length-hashed_entries (hash ∷ []) = omega arith
length-hashed_entries (hash ∷ key ∷ []) = omega arith
length-hashed_entries (hash ∷ key ∷ item ∷ words) = omega (arith, length-hashed_entries words)

length-valid_entries : (entries : List Entry) → length (valid_entries entries) ≤ length entries
unfolding valid_entries
length-valid_entries [] = omega arith
length-valid_entries (entry ∷ entries) = elim (Bool-cases (entry.me_key == 0)) [
  | inl e ↦ rw e (omega (arith, length-valid_entries entries))
  | inr e ↦ rw e (omega (arith, length-valid_entries entries))
]

length-map : {A : Type 0} (f : A → ℕ) (xs : List A) → length (map f xs) ≡ length xs
length-map f [] = refl
length-map f (x ∷ xs) = ap suc (length-map f xs)

unless-stopped :
    {A : Type 0} (b : Bool) (r : Run A) (a : A)
    → (if b then stop runtime_error else r) ≡ done a
    → r ≡ done a
unless-stopped true r a h = absurd (cc)
unless-stopped false r a h = h

module _ (p : Process) where
  length-read_entries :
      (width addr n : ℕ) (words : List ℕ)
      → read_entries p width addr n ≡ done words
      → length words ≡ width * n
  unfolding read_entries
  length-read_entries width addr n words h =
      let (buffer, _, k) =
        bind-done (read p addr (8 * (width * n))) _ words (unless-stopped _ _ words h) in
      ap length (sym (same_done k)) ∙ length-words_of (width * n) buffer

  length-read_words :
      (addr n : ℕ) (words : List ℕ) → read_words p addr n ≡ done words → length words ≡ n
  unfolding read_words
  length-read_words addr n words h =
      let (buffer, _, k) = bind-done (read p addr (n * 8)) _ words (unless-stopped _ _ words h) in
      ap length (sym (same_done k)) ∙ length-words_of n buffer

-- The number that is found covers the entries that are.
abbrev Covers : (ℕ × List Entry) → Type 0
Covers found = length found.1 ≤ found.0

found-Covers :
    (b c : Bool) (n : ℕ) (r s : Run (List ℕ)) (found : ℕ × List Entry)
    → ((words : List ℕ) → r ≡ done words → length words ≡ 2 * n)
    → ((words : List ℕ) → s ≡ done words → length words ≡ 3 * n)
    → if◌then◌else◌ {A = Run (ℕ × List Entry)} b (done (0, [])) (
        if c
        then (r >>= λ words. done (n, valid_entries (unicode_entries words)))
        else (s >>= λ words. done (n, valid_entries (hashed_entries words))))
      ≡ done found
    → Covers found
found-Covers true c n r s found h k e = rw (sym (same_done e)) (omega arith)
found-Covers false true n r s found h k e =
    let (words, is, e) = bind-done r _ found e in
    let count = h words is in
    let shorter = length-valid_entries (unicode_entries words) in
    let half = length-unicode_entries words in
    let fits : length (valid_entries (unicode_entries words)) ≤ n =
      omega (arith, count, shorter, half) in
    rw (sym (same_done e)) fits
found-Covers false false n r s found h k e =
    let (words, is, e) = bind-done s _ found e in
    let count = k words is in
    let shorter = length-valid_entries (hashed_entries words) in
    let third = length-hashed_entries words in
    let fits : length (valid_entries (hashed_entries words)) ≤ n =
      omega (arith, count, shorter, third) in
    rw (sym (same_done e)) fits

values-length :
    (b : Bool) (r : Run (List ℕ)) (n : ℕ) (entries : List Entry) (values : List ℕ)
    → length entries ≤ n
    → ((words : List ℕ) → r ≡ done words → length words ≡ n)
    → (if b then r else done (map value_of entries)) ≡ done values
    → length entries ≤ length values
values-length true r n entries values h k e = let same = k values e in omega (arith, h, same)
values-length false r n entries values h k e =
    let same = ap length (same_done e) in
    let m = length-map value_of entries in omega (arith, same, m)

get_dict_entries-Covers :
    (p : Process) (addr : ℕ) (found : ℕ × List Entry)
    → get_dict_entries p addr ≡ done found
    → Covers found
unfolding get_dict_entries
get_dict_entries-Covers p addr found h =
    let (keys_addr, _, h) = bind-done (read_field p py_dict addr py_dict_o_ma_keys) _ found h in
    let (n, _, h) =
      bind-done (read_field p py_dictkeys keys_addr py_dictkeys_o_dk_nentries) _ found h in
    let (field, _, h) =
      bind-done (read_field p py_dictkeys keys_addr py_dictkeys_o_dk_size) _ found h in
    let (dk_size, _, h) = bind-done (key_table_size (is_at_least p 3 11) field) _ found h in
    let (dk_kind, _, h) = bind-done (read_kind p keys_addr) _ found h in
    let start = add64 (field_address p keys_addr py_dictkeys_o_dk_indices) (index_size dk_size) in
    found-Covers (n == 0) (not (dk_kind == 0)) n (read_entries p 2 start n)
      (read_entries p 3 start n) found (length-read_entries p 2 start n)
      (length-read_entries p 3 start n) h

-- A dictionary of Python 3 that is loaded has no more keys than values, so each key's index
-- has a value.
pub load_from_python3-length :
    (p : Process) (addr : ℕ) (keys values : List ℕ)
    → load_from_python3 p addr ≡ done (keys, values)
    → length keys ≤ length values
unfolding load_from_python3
load_from_python3-length p addr keys values h =
    let (found, is, h) = bind-done (get_dict_entries p addr) _ (keys, values) h in
    let (table, _, h) =
      bind-done (read_field p py_dict addr py_dict_o_ma_values) _ (keys, values) h in
    let start = field_address p table py_dictvalues_o_values in
    let (read, values_read, h) =
      bind-done
        (if not (table == 0) then read_words p start found.0 else done (map value_of found.1)) _
        (keys, values) h in
    let covers = get_dict_entries-Covers p addr found is in
    let fits =
      values-length (not (table == 0)) (read_words p start found.0) found.0 found.1 read covers
        (length-read_words p start found.0) values_read in
    let same = same_done h in
    let first = ap (λ (r : List ℕ × List ℕ). length r.0) same in
    let second = ap (λ (r : List ℕ × List ℕ). length r.1) same in
    let count = length-map key_of found.1 in omega (arith, fits, first, second, count)

-- From Python 3.11 on, where the eight bytes at the logarithm of the size make 63 or more (as they
-- do when the byte behind the logarithm is not 0), loading the dictionary shifts too far.
pub load_from_python3_undefined :
    (p : Process) (addr keys_addr n size_field : ℕ)
    → is_at_least p 3 11 ≡ true
    → read_field p py_dict addr py_dict_o_ma_keys ≡ done keys_addr
    → read_field p py_dictkeys keys_addr py_dictkeys_o_dk_nentries ≡ done n
    → read_field p py_dictkeys keys_addr py_dictkeys_o_dk_size ≡ done size_field
    → 63 ≤ size_field
    → load_from_python3 p addr ≡ stop open_behaviour
unfolding load_from_python3 get_dict_entries key_table_size
load_from_python3_undefined p addr keys_addr n size_field new keys count size big =
    let e : leb 63 size_field ≡ true = too_large size_field big in
    rw (keys, count, size, new, e) refl
  where
    too_large : (m : ℕ) → 63 ≤ m → leb 63 m ≡ true
    too_large m h = ground arith

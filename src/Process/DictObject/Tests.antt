-- ===== src/Process/DictObject/Tests.antt =====
-- The theorems about dictionaries, on small ones.
use pystack.Prelude.{ℕ, ◌≡◌, ◌≤◌, refl, [], ◌∷◌, length, add64, sub64}
use pystack.Offsets.Layout.{
  py_dict, py_dict_o_ma_keys, py_dictkeys, py_dictkeys_o_dk_size, py_dictkeys_o_dk_nentries,
}
use pystack.Version.{little_endian}
use pystack.Process.{done, read_field}
use pystack.Process.Sample.{keyed, keyed_wide}
use pystack.Process.DictObject.{load_from_python3}
use pystack.Process.DictObject.Lengths.{load_from_python3-length}

loaded : load_from_python3 keyed 4096 ≡ done (5 ∷ [], 6 ∷ [])
unfolding load_from_python3 add64 sub64 little_endian
loaded = refl

load_from_python3-length_example : length {A = ℕ} (5 ∷ []) ≤ length {A = ℕ} (6 ∷ [])
load_from_python3-length_example = load_from_python3-length keyed 4096 (5 ∷ []) (6 ∷ []) loaded

table : read_field keyed_wide py_dict 4096 py_dict_o_ma_keys ≡ done 4136
unfolding read_field sub64 little_endian
table = refl

count : read_field keyed_wide py_dictkeys 4136 py_dictkeys_o_dk_nentries ≡ done 1
unfolding read_field sub64 little_endian
count = refl

logarithm : read_field keyed_wide py_dictkeys 4136 py_dictkeys_o_dk_size ≡ done 771
unfolding read_field sub64 little_endian
logarithm = refl

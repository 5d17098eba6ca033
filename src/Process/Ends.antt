-- ===== src/Process/Ends.antt =====
-- The functions that read the process and come to an end without fuel.
use pystack.Prelude.{
  ℕ, Bool, true, false, Option, none, some, List, [], ◌∷◌, if◌then◌else◌, refl, ◌≡◌,
}
use pystack.Memory.Exec.{Result, ok, throw, invalid_remote_address}
use pystack.Memory.Maps.{Bytes}
use pystack.Offsets.Layout.{Struct, Field}
use pystack.Offsets.Structure.{FieldRead, value, thrown, aborted, get_field}
use pystack.Code.Scan.{Outcome}
use pystack.Code.LineTable.{LocationInfo}
use pystack.Process.{
  Process, Run, done, stop, Stop, copy_failed, invalid_remote_object, out_of_fuel, ◌>>=◌,
  catch_remote, copied, field_value, read, read_word, read_field,
}
use pystack.Process.Strings.{
  get_string_from_address, copy_text, get_bytes_from_address, without_last,
}
use pystack.Process.CodeObject.{
  read_words, tuple_items, of_outcome, of_option, code_start, read_location_info, get_strings,
  make_code,
}

abbrev pub IsEnd : Stop → Type 0
IsEnd out_of_fuel = ⊥
IsEnd _ = Unit

-- A result, or an end that is not for want of fuel.
pub data HasEnded {A : Type 0} : Run A → Type 0 where
  given : (a : A) → HasEnded (done a)
  stopped : (e : Stop) → IsEnd e → HasEnded (stop e)

pub bind-HasEnded :
    {A B : Type 0} (r : Run A) (f : A → Run B)
    → HasEnded r
    → ((a : A) → HasEnded (f a))
    → HasEnded (r >>= f)
bind-HasEnded (done a) f h k = k a
bind-HasEnded (stop e) f (stopped _ h) k = stopped e h

-- The rest of the function knows what was read.
pub bind-HasEnded_known :
    {A B : Type 0} (r : Run A) (f : A → Run B)
    → HasEnded r
    → ((a : A) → r ≡ done a → HasEnded (f a))
    → HasEnded (r >>= f)
bind-HasEnded_known (done a) f h k = k a refl
bind-HasEnded_known (stop e) f (stopped _ h) k = stopped e h

pub if-HasEnded :
    {A : Type 0} (b : Bool) (r s : Run A) → HasEnded r → HasEnded s → HasEnded (if b then r else s)
if-HasEnded true r s h k = h
if-HasEnded false r s h k = k

pub catch_remote-HasEnded :
    {A : Type 0} (r s : Run A) → HasEnded r → HasEnded s → HasEnded (catch_remote r s)
unfolding catch_remote
catch_remote-HasEnded (done b) s h k = h
catch_remote-HasEnded (stop (copy_failed invalid_remote_address)) s h k = k
catch_remote-HasEnded (stop invalid_remote_object) s h k = k
catch_remote-HasEnded (stop e) s h k = h

copied-HasEnded : (r : Result Bytes) → HasEnded (copied r)
copied-HasEnded (ok b) = given b
copied-HasEnded (throw e) = stopped _ tt

field-HasEnded : (r : FieldRead) → HasEnded (field_value r)
field-HasEnded (value b) = given _
field-HasEnded (thrown e) = stopped _ tt
field-HasEnded aborted = stopped _ tt

pub ruleset ends = (bind-HasEnded, if-HasEnded, catch_remote-HasEnded, given, stopped)

module _ (p : Process) where
  pub read-HasEnded : (addr n : ℕ) → HasEnded (read p addr n)
  unfolding read
  read-HasEnded addr n = copied-HasEnded (p.copy addr n)

  pub read_word-HasEnded : (addr : ℕ) → HasEnded (read_word p addr)
  unfolding read_word
  read_word-HasEnded addr = search (ends, read-HasEnded)

  pub read_field-HasEnded : (s : Struct) (addr : ℕ) (f : Field) → HasEnded (read_field p s addr f)
  unfolding read_field
  read_field-HasEnded s addr f = field-HasEnded (get_field p.copy p.offsets s addr f)

  copy_text-HasEnded : (addr n : ℕ) → HasEnded (copy_text p addr n)
  unfolding copy_text
  copy_text-HasEnded addr n = search (ends, read-HasEnded)

  pub get_string-HasEnded : (addr : ℕ) → HasEnded (get_string_from_address p addr)
  unfolding get_string_from_address
  get_string-HasEnded addr = search (ends, read-HasEnded, read_field-HasEnded, copy_text-HasEnded)

  without_last-HasEnded : (n : ℕ) (b : Bytes) → HasEnded (without_last n b)
  unfolding without_last
  without_last-HasEnded n b = search (ends)

  pub get_bytes-HasEnded : (addr : ℕ) → HasEnded (get_bytes_from_address p addr)
  unfolding get_bytes_from_address
  get_bytes-HasEnded addr =
      search (ends, read-HasEnded, read_field-HasEnded, copy_text-HasEnded, without_last-HasEnded)

  pub read_words-HasEnded : (addr n : ℕ) → HasEnded (read_words p addr n)
  unfolding read_words
  read_words-HasEnded addr n = search (ends, read-HasEnded)

  pub tuple_items-HasEnded : (addr : ℕ) → HasEnded (tuple_items p addr)
  unfolding tuple_items
  tuple_items-HasEnded addr = search (ends, read_field-HasEnded, read_words-HasEnded)

  outcome-HasEnded : {A : Type 0} (o : Outcome A) → HasEnded (of_outcome o)
  outcome-HasEnded (Outcome.done a) = given a
  outcome-HasEnded (Outcome.fault e) = stopped _ tt

  option-HasEnded : (o : Option ℕ) → HasEnded (of_option o)
  option-HasEnded none = stopped _ tt
  option-HasEnded (some a) = given a

  code_start-HasEnded : (addr i : ℕ) → HasEnded (code_start p addr i)
  unfolding code_start
  code_start-HasEnded addr i =
      search (ends, read_word-HasEnded, read_words-HasEnded, option-HasEnded)

  location-HasEnded : (u : LocationInfo) (a b c : ℕ) → HasEnded (read_location_info u p a b c)
  unfolding read_location_info
  location-HasEnded u a b c =
      search (ends, read_field-HasEnded, get_bytes-HasEnded, code_start-HasEnded, outcome-HasEnded)

  get_strings-HasEnded : (addrs : List ℕ) → HasEnded (get_strings p addrs)
  unfolding get_strings
  get_strings-HasEnded [] = given []
  get_strings-HasEnded (addr ∷ addrs) =
      search (ends, get_string-HasEnded, get_strings-HasEnded addrs)

  pub make_code-HasEnded :
      (u : LocationInfo) (addr lasti index : ℕ) → HasEnded (make_code u p addr lasti index)
  unfolding make_code
  make_code-HasEnded u addr lasti index =
      search
        (
          ends, read_field-HasEnded, get_string-HasEnded, location-HasEnded, tuple_items-HasEnded,
          get_strings-HasEnded,
        )
        depth 12

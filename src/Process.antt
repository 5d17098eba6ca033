-- ===== src/Process.antt =====
-- What the other classes of the program use of `AbstractProcessManager` (process.h, process.cpp) to read
-- the stopped process: its memory, its maps, its symbols and the offsets of its version.
pub mod Runs
pub mod Sample
pub mod Strings
pub mod ObjectType
pub mod Interpreter
pub mod Search
pub mod CodeObject
pub mod Ends
pub mod Frame
pub mod Thread
pub mod LongObject
pub mod DictObject
pub mod Printing
pub mod Text
use pystack.Prelude.{
  ℕ, ◌+◌, Bool, true, false, ◌||◌, Option, none, some, List, [], ◌∷◌, leb, ◌==◌, if◌then◌else◌,
  add64,
}
use pystack.Memory.Exec.{Failure, invalid_remote_address, Result, ok, throw}
use pystack.Memory.Maps.{Bytes, VirtualMap}
use pystack.Memory.Process.{is_address_valid}
use pystack.Offsets.Layout.{Struct, Field, PythonV}
use pystack.Offsets.Load.{Version, version_is_at_least}
use pystack.Offsets.Structure.{
  FieldRead, value, thrown, aborted, get_field, get_field_remote_address,
}
use pystack.Version.{little_endian}

pub record Process : Type 0 where
  pub pid : ℕ
  pub tids : List ℕ
  pub version : Version
  pub free_threaded : Bool
  pub offsets : PythonV
  pub memory_maps : List VirtualMap
  pub bss : Option VirtualMap
  pub heap : Option VirtualMap
  -- `copyMemoryFromProcess`
  pub copy : ℕ → ℕ → Result Bytes
  -- `findSymbol`, 0 for none
  pub find_symbol : Bytes → ℕ
  -- `d_debug_offsets_addr`
  pub debug_offsets_addr : ℕ
  -- `getSectionInfo` of the main map for ".PyRuntime", and `getLoadPointOfModule`
  pub section_addr : Option ℕ
  pub load_addr : ℕ

-- How a function ends without a result: an exception of a copy, `InvalidRemoteObject`,
-- `std::runtime_error`, `abort`, or what C++ leaves open. `out_of_fuel` stands for no end at all.
pub data Stop : Type 0 where
  copy_failed : Failure → Stop
  invalid_remote_object runtime_error abort open_behaviour out_of_fuel : Stop

pub data Run (A : Type 0) : Type 0 where
  done : A → Run A
  stop : Stop → Run A

abbrev pub pure : {A : Type 0} → A → Run A
pure = done

infixl 5 ◌>>=◌
abbrev pub ◌>>=◌ : {A B : Type 0} → Run A → (A → Run B) → Run B
done a >>= f = f a
stop e >>= f = stop e

-- `catch (RemoteMemCopyError&)`: the exception of a copy, or `InvalidRemoteObject`, which derives from it.
unfoldable pub catch_remote : {A : Type 0} → Run A → Run A → Run A
catch_remote (done a) handler = done a
catch_remote (stop (copy_failed invalid_remote_address)) handler = handler
catch_remote (stop invalid_remote_object) handler = handler
catch_remote (stop e) handler = stop e

-- `catch (...)` and `catch (const std::exception&)`
unfoldable pub catch_all : {A : Type 0} → Run A → Run A → Run A
catch_all (done a) handler = done a
catch_all (stop (copy_failed Failure.undefined)) handler = stop (copy_failed Failure.undefined)
catch_all (stop (copy_failed Failure.out_of_fuel)) handler = stop (copy_failed Failure.out_of_fuel)
catch_all (stop (copy_failed e)) handler = handler
catch_all (stop invalid_remote_object) handler = handler
catch_all (stop runtime_error) handler = handler
catch_all (stop e) handler = stop e

-- A `try` block whose handler sets another value.
unfoldable pub attempt : {A : Type 0} → Run A → Run (Option A)
unfolding catch_remote
attempt r = catch_remote (r >>= λ a. done (some a)) (done none)

abbrev pub copied : Result Bytes → Run Bytes
copied (ok bytes) = done bytes
copied (throw e) = stop (copy_failed e)

abbrev pub field_value : FieldRead → Run ℕ
field_value (value bytes) = done (little_endian bytes)
field_value (thrown e) = stop (copy_failed e)
field_value aborted = stop abort

unfoldable pub any_valid : ℕ → List VirtualMap → Bool
unfolding is_address_valid
any_valid addr [] = false
any_valid addr (v ∷ vs) = is_address_valid addr v || any_valid addr vs

module _ (p : Process) where
  unfoldable pub is_at_least : ℕ → ℕ → Bool
  unfolding version_is_at_least
  is_at_least = version_is_at_least p.version

  unfoldable pub read : ℕ → ℕ → Run Bytes
  read addr n = copied (p.copy addr n)

  -- A number of eight bytes at an address.
  unfoldable pub read_word : ℕ → Run ℕ
  read_word addr = do bytes ← read addr 8; pure (little_endian bytes)

  -- `getField` of a structure at an address, as a number.
  unfoldable pub read_field : Struct → ℕ → Field → Run ℕ
  unfolding get_field
  read_field s addr f = field_value (get_field p.copy p.offsets s addr f)

  -- `copyFromRemote`
  unfoldable pub copy_from_remote : Struct → ℕ → Run Bytes
  copy_from_remote s addr = read addr (p.offsets.size s)

  unfoldable pub field_address : ℕ → Field → ℕ
  unfolding get_field_remote_address
  field_address addr f = get_field_remote_address p.offsets addr f

  -- `isAddressValid`, as the manager of a live process tests a map
  unfoldable pub is_valid : ℕ → Bool
  unfolding any_valid
  is_valid addr = any_valid addr p.memory_maps

-- ===== src/Version/Tests.antt =====
-- Python 3.11.4, and numbers that are no version.
use pystack.Prelude.{
  true, false, same_bytes, add64, ℕ, ◌≡◌, refl, inr, none, some, arith, ◌==◌, ◌&&◌, if◌then◌else◌,
}
use pystack.Memory.Exec.{Result, ok, throw, invalid_remote_address}
use pystack.Memory.Maps.{Bytes}
use pystack.Offsets.Layout.{PythonV}
use pystack.Version.{
  parse_py_version_hex, VersionState, copied_version, little_endian, find_python_version,
}
use pystack.Offsets.Load.{debug_cookie}
use pystack.Offsets.Sample.{runtime, fixed, loaded, loads}
use pystack.Version.Debug.{
  DebugState, Remote, load_offsets, runtime_address, try_debug_offsets, identify,
  set_python_version_from_debug_offsets,
}
use pystack.Version.Debug.Settled.{Settled, set_python_version_from_debug_offsets-Settled}
use pystack.Version.Hex.{PyVersion, IsVersion, hex, to_bytes, find_python_version-hex}

abbrev release : PyVersion
release = record { major = 3; minor = 11; patch = 4; level = 15; serial = 0 }

release-IsVersion : IsVersion release
release-IsVersion = record {
  major = inr refl;
  minor = omega arith;
  patch = omega arith;
  level = inr (refl, refl);
  serial = omega arith;
}

release_number : hex release ≡ 0x030b_04f0
release_number = refl

abbrev odd_level : PyVersion
odd_level = record { major = 3; minor = 11; patch = 4; level = 1; serial = 0 }

abbrev unset : VersionState
unset = record { py_v = none; major = 0; minor = 0 }

-- A memory that holds the version at 4096 and nothing else.
abbrev copy : ℕ → ℕ → Result Bytes
copy addr n =
    if addr == 4096 && n == 8 then ok (to_bytes 8 (hex release)) else throw invalid_remote_address

find_python_version-hex_example : find_python_version 4096 copy unset ≡ ok (some (3, 11))
find_python_version-hex_example =
    find_python_version-hex 4096 copy unset release refl release-IsVersion (omega arith) refl

unreadable : find_python_version 8192 copy unset ≡ ok none
unfolding find_python_version copied_version
unreadable = refl

abbrev table : PythonV
table = record { size = λ _. 8; offset = λ _. 0 }

-- A process whose runtime is at 4096, with its cookie and its version.
abbrev process : Remote
process = record {
  symbol = 0;
  elf_data = 4096;
  maps = 0;
  copy = λ addr n. if addr == 4096 then ok debug_cookie else ok (to_bytes 8 0x030d_00f0);
  tables = λ major minor. some fixed;
  runtime = λ v addr. ok (runtime, true);
}

abbrev nothing : DebugState
nothing = record {
  py_v = none;
  major = 0;
  minor = 0;
  debug_offsets = none;
  debug_offsets_addr = 0;
  is_free_threaded = false;
}

abbrev found : DebugState
found = record {
  py_v = some fixed;
  major = 3;
  minor = 13;
  debug_offsets = some loaded;
  debug_offsets_addr = 4096;
  is_free_threaded = true;
}

offsets_loaded : load_offsets process 4096 3 13 fixed nothing ≡ some found
unfolding load_offsets
offsets_loaded = rw (loads, load_offsets) refl

offsets_found : set_python_version_from_debug_offsets process nothing ≡ some found
unfolding set_python_version_from_debug_offsets runtime_address try_debug_offsets same_bytes
    identify parse_py_version_hex little_endian add64
offsets_found = offsets_loaded

set_python_version_from_debug_offsets-Settled_example : Settled process nothing found
set_python_version_from_debug_offsets-Settled_example =
    set_python_version_from_debug_offsets-Settled process nothing found offsets_found

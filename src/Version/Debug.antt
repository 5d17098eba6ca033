-- ===== src/Version/Debug.antt =====
-- `setPythonVersionFromDebugOffsets` of process.cpp. The three searches for the runtime, the tables of
-- version.cpp and the fields of the runtime, as `getField` reads them, are parameters.
pub mod Settled
use pystack.Prelude.{
  ℕ, Bool, true, false, not, ◌&&◌, Option, none, some, leb, ◌==◌, if◌then◌else◌, add64, same_bytes,
}
use pystack.Memory.Exec.{Failure, invalid_remote_address, Result, ok, throw}
use pystack.Memory.Maps.{Bytes}
use pystack.Offsets.Layout.{PythonV}
use pystack.Offsets.Copy.{RemoteRuntime}
use pystack.Offsets.Load.{debug_cookie, load_debug_offsets}
use pystack.Version.{ParsedPyVersion, little_endian, parse_py_version_hex}

-- The members of `AbstractProcessManager` that the function sets.
pub record DebugState : Type 0 where
  pub py_v : Option PythonV
  pub major : ℕ
  pub minor : ℕ
  pub debug_offsets : Option PythonV
  pub debug_offsets_addr : ℕ
  pub is_free_threaded : Bool

pub record Remote : Type 0 where
  -- `findSymbol("_PyRuntime")`, `findPyRuntimeFromElfData` and `findDebugOffsetsFromMaps`
  pub symbol : ℕ
  pub elf_data : ℕ
  pub maps : ℕ
  -- `copyMemoryFromProcess`
  pub copy : ℕ → ℕ → Result Bytes
  -- `getCPythonOffsets`, which may throw
  pub tables : ℕ → ℕ → Option PythonV
  -- the runtime at an address, and whether it is free-threaded
  pub runtime : PythonV → ℕ → Result (RemoteRuntime × Bool)

-- The last statements.
abbrev pub cleared : DebugState → DebugState
cleared s = record s {
  major = 0;
  minor = 0;
  py_v = none;
  debug_offsets_addr = 0;
  debug_offsets = none;
}

-- The `catch` clause; `none` is an exception that leaves the function.
unfoldable pub caught : Failure → DebugState → Option DebugState
caught invalid_remote_address s = some (cleared s)
caught e s = none

unfoldable pub runtime_address : Remote → ℕ
runtime_address r =
    if not (r.symbol == 0) then r.symbol else if not (r.elf_data == 0) then r.elf_data else r.maps

-- `setPythonVersion`
abbrev pub with_version : ℕ → ℕ → PythonV → DebugState → DebugState
with_version major minor v s = record s { py_v = some v; major = major; minor = minor }

-- From `setPythonVersion` on.
unfoldable pub load_offsets : Remote → ℕ → ℕ → ℕ → PythonV → DebugState → Option DebugState
unfolding caught
load_offsets r addr major minor v s =
    let set = with_version major minor v s in
    (elim (r.runtime v addr) [
      | throw e ↦ caught e set
      | ok (runtime, free_threaded) ↦ elim (load_debug_offsets (major, minor) runtime v) [
        | none ↦ some (cleared set)
        | some offsets ↦ some (record set {
          debug_offsets = some offsets;
          debug_offsets_addr = addr;
          is_free_threaded = free_threaded;
        })
      ]
    ])

-- From `parsePyVersionHex` on.
unfoldable pub identify : Remote → ℕ → ℕ → DebugState → Option DebugState
unfolding load_offsets
identify r addr version s = elim (parse_py_version_hex version) [
  | none ↦ some (cleared s)
  | some p ↦
      if p.major == 3 && leb 13 p.minor
      then (elim (r.tables p.major p.minor) [
        | none ↦ none
        | some v ↦ load_offsets r addr p.major p.minor v s
      ])
      else some (cleared s)
]

-- The `try` block.
unfoldable pub try_debug_offsets : Remote → ℕ → DebugState → Option DebugState
unfolding identify caught
try_debug_offsets r addr s = elim (r.copy addr 8) [
  | throw e ↦ caught e s
  | ok cookie ↦
      if not (same_bytes cookie debug_cookie) then some s else (elim (r.copy (add64 addr 8) 8) [
        | throw e ↦ caught e s
        | ok bytes ↦ identify r addr (little_endian bytes) s
      ])
]

unfoldable pub set_python_version_from_debug_offsets : Remote → DebugState → Option DebugState
unfolding runtime_address try_debug_offsets
set_python_version_from_debug_offsets r s =
    if runtime_address r == 0 then some s else try_debug_offsets r (runtime_address r) s

-- ===== src/Version.antt =====
-- The version of the interpreter, in process.cpp: `parsePyVersionHex`, `findPythonVersion`
-- and `setPythonVersion`. The tables of version.cpp and the search for a symbol are parameters.
pub mod Hex
pub mod Debug
pub mod Tables
mod Tests
use pystack.Prelude.{
  ℕ, ◌+◌, ◌*◌, ◌/◌, ◌%◌, ◌^◌, Bool, true, false, not, ◌&&◌, ◌||◌, Option, none, some, List, [], ◌∷◌,
  ltb, leb, ◌==◌, if◌then◌else◌,
}
use pystack.Memory.Exec.{Failure, invalid_remote_address, Result, ok, throw}
use pystack.Memory.Maps.{Bytes}
use pystack.Offsets.Layout.{PythonV}

pub record ParsedPyVersion : Type 0 where
  pub major : ℕ
  pub minor : ℕ
  pub patch : ℕ
  pub release_level : Bytes
  pub serial : ℕ

abbrev pub unknown_level : Bytes
unknown_level =
    b'(' ∷ b'u' ∷ b'n' ∷ b'k' ∷ b'n' ∷ b'o' ∷ b'w' ∷ b'n' ∷ b' ' ∷ b'r' ∷ b'e' ∷ b'l' ∷ b'e' ∷ b'a'
    ∷ b's' ∷ b'e' ∷ b' ' ∷ b'l' ∷ b'e' ∷ b'v' ∷ b'e' ∷ b'l' ∷ b')' ∷ []

unfoldable pub level_string : ℕ → Bytes
level_string level =
    if level == 10
    then b'a' ∷ []
    else if level == 11
    then b'b' ∷ []
    else if level == 12
    then b'r' ∷ b'c' ∷ []
    else if level == 15
    then []
    else unknown_level

-- `none` is the result false. The test of the level against a null pointer never holds.
unfoldable pub parse_py_version_hex : ℕ → Option ParsedPyVersion
unfolding level_string
parse_py_version_hex version =
    let major = version / 2 ^ 24 % 256 in
    let level = version / 2 ^ 4 % 16 in
    let count = version % 16 in
    if (ltb major 2 || ltb 3 major) || (level == 15 && not (count == 0))
    then none
    else some (record {
      major = major;
      minor = version / 2 ^ 16 % 256;
      patch = version / 2 ^ 8 % 256;
      release_level = level_string level;
      serial = count;
    })

-- The members of `AbstractProcessManager` that are about the version.
pub record VersionState : Type 0 where
  pub py_v : Option PythonV
  pub major : ℕ
  pub minor : ℕ

-- The bytes of a number in memory, the lowest first.
unfoldable pub little_endian : Bytes → ℕ
little_endian [] = 0
little_endian (b ∷ bytes) = b + 256 * little_endian bytes

-- The checks of `findPythonVersion` on the value of the symbol; `none` is the pair of -1.
unfoldable pub version_of : ℕ → Option (ℕ × ℕ)
version_of version =
    let major = version / 2 ^ 24 % 256 in
    let minor = version / 2 ^ 16 % 256 in
    let level = version / 2 ^ 4 % 16 in
    if major == 0 && minor == 0
    then none
    else if not (major == 2) && not (major == 3)
    then none
    else if not (level == 10) && not (level == 11) && not (level == 12) && not (level == 15)
    then none
    else some (major, minor)

-- The `catch` clause.
unfoldable pub copied_version : Result Bytes → Result (Option (ℕ × ℕ))
unfolding version_of little_endian
copied_version (ok bytes) = ok (version_of (little_endian bytes))
copied_version (throw invalid_remote_address) = ok none
copied_version (throw e) = throw e

-- `symbol` is `findSymbol("Py_Version")`, 0 if there is none; `copy` is `copyMemoryFromProcess`.
unfoldable pub find_python_version :
    ℕ → (ℕ → ℕ → Result Bytes) → VersionState → Result (Option (ℕ × ℕ))
unfolding copied_version
find_python_version symbol copy s = elim s.py_v [
  | some v ↦ ok (some (s.major, s.minor))
  | none ↦ if symbol == 0 then ok none else copied_version (copy symbol 8)
]

-- `offsets` is `getCPythonOffsets`, which may throw; then nothing is set.
unfoldable pub set_python_version :
    (ℕ → ℕ → Option PythonV) → ℕ × ℕ → VersionState → Option VersionState
set_python_version offsets (major, minor) s = elim (offsets major minor) [
  | none ↦ none
  | some v ↦ some (record { py_v = some v; major = major; minor = minor })
]

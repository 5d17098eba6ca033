-- ===== src/Offsets/Load.antt =====
-- `loadDebugOffsets` and `versionIsAtLeast` of process.cpp.
use pystack.Prelude.{
  same_bytes, ℕ, ◌/◌, ◌%◌, ◌^◌, Bool, not, ◌&&◌, ◌||◌, Option, none, some, [], ◌∷◌, ltb, leb, ◌==◌,
  if◌then◌else◌,
}
use pystack.Memory.Maps.{Bytes}
use pystack.Offsets.Layout.{PythonV, py_version_hex}
use pystack.Offsets.Copy.{RemoteRuntime, copy_debug_offsets}
use pystack.Offsets.Checks.{validate_debug_offsets, clamp_sizes}

abbrev pub Version : Type 0
Version = ℕ × ℕ

unfoldable pub version_is_at_least : Version → ℕ → ℕ → Bool
version_is_at_least (major, minor) required_major required_minor =
    ltb required_major major || (major == required_major && leb required_minor minor)

-- "xdebugpy"
abbrev pub debug_cookie : Bytes
debug_cookie = b'x' ∷ b'd' ∷ b'e' ∷ b'b' ∷ b'u' ∷ b'g' ∷ b'p' ∷ b'y' ∷ []

-- `(version >> shift) & 0xff`
abbrev pub version_byte : ℕ → ℕ → ℕ
version_byte shift version = version / 2 ^ shift % 256

unfoldable pub load_debug_offsets : Version → RemoteRuntime → PythonV → Option PythonV
unfolding version_is_at_least
load_debug_offsets (major, minor) r fixed =
    let version = r.value py_version_hex in
    let offsets = copy_debug_offsets r fixed in
    if not (version_is_at_least (major, minor) 3 13)
    then none
    else if not (same_bytes r.cookie debug_cookie)
    then none
    else if not (version_byte 24 version == major) || not (version_byte 16 version == minor)
    then none
    else if not (validate_debug_offsets offsets)
    then none
    else some (clamp_sizes offsets)

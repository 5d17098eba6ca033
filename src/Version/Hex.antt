-- ===== src/Version/Hex.antt =====
-- `PY_VERSION_HEX`, the number in which CPython packs its version, unpacked by process.cpp.
use pystack.Prelude.{
  ℕ, zero, suc, ◌+◌, ◌*◌, ◌/◌, ◌%◌, ◌^◌, ◌≤◌, ◌<◌, ◌≡◌, ◌⊎◌, refl, ap, ◌∙◌, inl, inr, false, not,
  ◌&&◌, Option, none, some, [], ◌∷◌, arith, ltb, ◌==◌, Option-cases,
}
use native.Mathlib.Nat.{pow-suc}
use pystack.Memory.Exec.{Result, ok}
use pystack.Memory.Maps.{Bytes}
use pystack.Offsets.Layout.{PythonV}
use pystack.Version.{
  ParsedPyVersion, level_string, unknown_level, parse_py_version_hex, VersionState, little_endian,
  version_of, copied_version, find_python_version, set_python_version,
}

pub record PyVersion : Type 0 where
  pub major : ℕ
  pub minor : ℕ
  pub patch : ℕ
  pub level : ℕ
  pub serial : ℕ

-- The level is alpha, beta, candidate or final, and a final version has no serial number.
pub record IsVersion (v : PyVersion) : Type 0 where
  pub major : (v.major ≡ 2) ⊎ (v.major ≡ 3)
  pub minor : v.minor < 256
  pub patch : v.patch < 256
  pub level : ((10 ≤ v.level) × (v.level ≤ 12)) ⊎ ((v.level ≡ 15) × (v.serial ≡ 0))
  pub serial : v.serial < 16

abbrev pub hex : PyVersion → ℕ
hex v = v.major * 2 ^ 24 + v.minor * 2 ^ 16 + v.patch * 2 ^ 8 + v.level * 2 ^ 4 + v.serial

abbrev pub parsed : PyVersion → ParsedPyVersion
parsed v = record {
  major = v.major;
  minor = v.minor;
  patch = v.patch;
  release_level = level_string v.level;
  serial = v.serial;
}

-- The digits of the number are the parts of the version.
pub record Unpacks (v : PyVersion) : Type 0 where
  pub major : hex v / 2 ^ 24 % 256 ≡ v.major
  pub minor : hex v / 2 ^ 16 % 256 ≡ v.minor
  pub patch : hex v / 2 ^ 8 % 256 ≡ v.patch
  pub level : hex v / 2 ^ 4 % 16 ≡ v.level
  pub serial : hex v % 16 ≡ v.serial

hex-Unpacks :
    (v : PyVersion)
    → v.major < 256
    → v.minor < 256
    → v.patch < 256
    → v.level < 16
    → v.serial < 16
    → Unpacks v
hex-Unpacks v a b c d e = record {
  major = omega arith;
  minor = omega arith;
  patch = omega arith;
  level = omega arith;
  serial = omega arith;
}

IsVersion-Unpacks : (v : PyVersion) → IsVersion v → Unpacks v
IsVersion-Unpacks v is =
    hex-Unpacks v (omega (arith, is.major)) is.minor is.patch (omega (arith, is.level)) is.serial

-- A version packed by CPython is unpacked into its parts.
pub parse_py_version_hex-hex :
    (v : PyVersion) → IsVersion v → parse_py_version_hex (hex v) ≡ some (parsed v)
unfolding parse_py_version_hex
parse_py_version_hex-hex v is =
    let u = IsVersion-Unpacks v is in
    rw
      (
        u.major,
        u.minor,
        u.patch,
        u.level,
        u.serial,
        let e : ltb v.major 2 ≡ false = ground (arith, is.major) in e,
        let e : ltb 3 v.major ≡ false = ground (arith, is.major) in e,
        let e : (v.level == 15 && not (v.serial == 0)) ≡ false = ground (arith, is.level) in e,
      )
      refl

-- A number whose release level CPython does not have is unpacked as well.
pub parse_py_version_hex-unknown_level :
    (v : PyVersion)
    → (v.major ≡ 2) ⊎ (v.major ≡ 3)
    → v.minor < 256
    → v.patch < 256
    → (v.level < 10) ⊎ ((v.level ≡ 13) ⊎ (v.level ≡ 14))
    → v.serial < 16
    → (p : ParsedPyVersion) × (parse_py_version_hex (hex v) ≡ some p)
      × (p.release_level ≡ unknown_level)
unfolding parse_py_version_hex level_string
parse_py_version_hex-unknown_level v major minor patch level serial =
    let u = hex-Unpacks v (omega (arith, major)) minor patch (omega (arith, level)) serial in
    (
      parsed v,
      rw
          (
            u.major,
            u.minor,
            u.patch,
            u.level,
            u.serial,
            let e : ltb v.major 2 ≡ false = ground (arith, major) in e,
            let e : ltb 3 v.major ≡ false = ground (arith, major) in e,
            let e : (v.level == 15) ≡ false = ground (arith, level) in e,
          )
          refl,
      rw
          (
            let e : (v.level == 10) ≡ false = ground (arith, level) in e,
            let e : (v.level == 11) ≡ false = ground (arith, level) in e,
            let e : (v.level == 12) ≡ false = ground (arith, level) in e,
            let e : (v.level == 15) ≡ false = ground (arith, level) in e,
          )
          refl,
    )

-- The bytes of a number in a memory of so many bytes.
abbrev pub to_bytes : ℕ → ℕ → Bytes
to_bytes zero n = []
to_bytes (suc size) n = n % 256 ∷ to_bytes size (n / 256)

pub little_endian-to_bytes : (size n : ℕ) → n < 256 ^ size → little_endian (to_bytes size n) ≡ n
unfolding little_endian
little_endian-to_bytes zero n h = omega arith
little_endian-to_bytes (suc size) n h =
    omega (arith, little_endian-to_bytes size (n / 256) (omega (arith, pow-suc 256 size)))

version_of-hex : (v : PyVersion) → IsVersion v → version_of (hex v) ≡ some (v.major, v.minor)
unfolding version_of
version_of-hex v is =
    let u = IsVersion-Unpacks v is in
    rw
      (
        u.major,
        u.minor,
        u.level,
        let e : (v.major == 0) ≡ false = ground (arith, is.major) in e,
        let e : (not (v.major == 2) && not (v.major == 3)) ≡ false = ground (arith, is.major) in e,
        let e : (not (v.level == 10)
                  && not (v.level == 11)
                  && not (v.level == 12)
                  && not (v.level == 15))
                ≡ false =
              ground (arith, is.level) in
            e,
      )
      refl

-- While no version is set, the version that the process holds under the symbol, in eight bytes with the
-- lowest first, is found.
pub find_python_version-hex :
    (symbol : ℕ) (copy : ℕ → ℕ → Result Bytes) (s : VersionState) (v : PyVersion)
    → s.py_v ≡ none
    → IsVersion v
    → 0 < symbol
    → copy symbol 8 ≡ ok (to_bytes 8 (hex v))
    → find_python_version symbol copy s ≡ ok (some (v.major, v.minor))
unfolding find_python_version copied_version
find_python_version-hex symbol copy s v unset is there copied =
    rw (unset, find_python_version, let e : (symbol == 0) ≡ false = ground arith in e, copied)
      (ap ok (
        ap version_of (
          little_endian-to_bytes 8 (hex v)
            (omega (arith, is.major, is.minor, is.patch, is.level, is.serial)))
        ∙ version_of-hex v is))

-- A version that is set is found, whatever the memory holds.
pub set_python_version-find :
    (offsets : ℕ → ℕ → Option PythonV) (version : ℕ × ℕ) (s s' : VersionState) (symbol : ℕ)
    (copy : ℕ → ℕ → Result Bytes)
    → set_python_version offsets version s ≡ some s'
    → (find_python_version symbol copy s' ≡ ok (some version))
      × (s'.py_v ≡ offsets version.0 version.1)
unfolding set_python_version find_python_version
set_python_version-find offsets (major, minor) s s' symbol copy h =
    elim (Option-cases (offsets major minor)) [
      | inl e ↦ absurd (ground arith)
      | inr (t, e) ↦
          let set : s' ≡ record { py_v = some t; major = major; minor = minor } = ground arith in
          rw (set, e) (refl, refl)
    ]

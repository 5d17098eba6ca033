-- ===== src/Version/Debug/Settled.antt =====
-- What `setPythonVersionFromDebugOffsets` of process.cpp leaves behind.
use pystack.Prelude.{
  ℕ, ◌≤◌, ◌≡◌, refl, sym, ◌∙◌, ◌⊎◌, inl, inr, ◌&&◌, none, some, arith, leb, ◌==◌, add64, same_bytes,
  Option-cases, Bool-cases,
}
use pystack.Memory.Exec.{
  Failure, invalid_remote_address, permission_denied, system_error, open_failed, range_error,
  undefined, out_of_fuel, Result, ok, throw,
}
use pystack.Offsets.Layout.{PythonV}
use pystack.Offsets.Copy.{RemoteRuntime}
use pystack.Offsets.Load.{debug_cookie, load_debug_offsets}
use pystack.Version.{little_endian, parse_py_version_hex}
use pystack.Version.Debug.{
  DebugState, Remote, cleared, caught, runtime_address, with_version, load_offsets, identify,
  try_debug_offsets, set_python_version_from_debug_offsets,
}

-- A version is set from 3.13 on, with its table, and offsets that the runtime at the address gave and
-- that passed the checks.
pub record IsComplete (r : Remote) (s : DebugState) : Type 0 where
  pub table : PythonV
  pub runtime : RemoteRuntime
  pub offsets : PythonV
  pub py_v : s.py_v ≡ some table
  pub tabled : r.tables s.major s.minor ≡ some table
  pub major : s.major ≡ 3
  pub minor : 13 ≤ s.minor
  pub read : r.runtime table s.debug_offsets_addr ≡ ok (runtime, s.is_free_threaded)
  pub loaded : load_debug_offsets (s.major, s.minor) runtime table ≡ some offsets
  pub debug_offsets : s.debug_offsets ≡ some offsets

-- There is no version, no table and no offsets; the mark of a free-threaded build is as before.
pub record IsReset (s s' : DebugState) : Type 0 where
  pub major : s'.major ≡ 0
  pub minor : s'.minor ≡ 0
  pub py_v : s'.py_v ≡ none
  pub debug_offsets : s'.debug_offsets ≡ none
  pub debug_offsets_addr : s'.debug_offsets_addr ≡ 0
  pub is_free_threaded : s'.is_free_threaded ≡ s.is_free_threaded

-- Nothing was done, everything was reset, or everything was set.
abbrev pub Settled : Remote → DebugState → DebugState → Type 0
Settled r s s' = (s' ≡ s) ⊎ (IsReset s s' ⊎ IsComplete r s')

-- `t` is the state that the function has reached from `s` when it resets it.
cleared-IsReset :
    (s t s' : DebugState)
    → t.is_free_threaded ≡ s.is_free_threaded
    → some (cleared t) ≡ some s'
    → IsReset s s'
cleared-IsReset s t s' kept h =
    let e : s' ≡ cleared t = cc in
    rw e (record {
      major = refl;
      minor = refl;
      py_v = refl;
      debug_offsets = refl;
      debug_offsets_addr = refl;
      is_free_threaded = kept;
    })

caught-Settled :
    (r : Remote) (e : Failure) (s t s' : DebugState)
    → t.is_free_threaded ≡ s.is_free_threaded
    → caught e t ≡ some s'
    → Settled r s s'
unfolding caught
caught-Settled r invalid_remote_address s t s' kept h = inr (inl (cleared-IsReset s t s' kept h))
caught-Settled r permission_denied s t s' kept h = absurd cc
caught-Settled r system_error s t s' kept h = absurd cc
caught-Settled r open_failed s t s' kept h = absurd cc
caught-Settled r range_error s t s' kept h = absurd cc
caught-Settled r undefined s t s' kept h = absurd cc
caught-Settled r out_of_fuel s t s' kept h = absurd cc

Result-cases :
    {A : Type 0} (x : Result A) → ((e : Failure) × (x ≡ throw e)) ⊎ ((a : A) × (x ≡ ok a))
Result-cases (ok a) = inr (a, refl)
Result-cases (throw e) = inl (e, refl)

module _ (r : Remote) (addr : ℕ) (s s' : DebugState) where
  cleared-Settled : some (cleared s) ≡ some s' → Settled r s s'
  cleared-Settled h = inr (inl (cleared-IsReset s s s' refl h))

  load_offsets-Settled :
      (major minor : ℕ) (v : PythonV)
      → r.tables major minor ≡ some v
      → major ≡ 3
      → 13 ≤ minor
      → load_offsets r addr major minor v s ≡ some s'
      → Settled r s s'
  unfolding load_offsets
  load_offsets-Settled major minor v tabled three recent h =
      elim (Result-cases (r.runtime v addr)) [
        | inl (e, failed) ↦
            let step : load_offsets r addr major minor v s
                ≡ caught e (with_version major minor v s) =
              rw (failed, load_offsets) refl in
            caught-Settled r e s (with_version major minor v s) s' refl (sym step ∙ h)
        | inr ((runtime, free_threaded), read) ↦
            elim (Option-cases (load_debug_offsets (major, minor) runtime v)) [
              | inl refused ↦
                  let step : load_offsets r addr major minor v s
                      ≡ some (cleared (with_version major minor v s)) =
                    rw (read, load_offsets, refused) refl in
                  inr
                    (inl (cleared-IsReset s (with_version major minor v s) s' refl (sym step ∙ h)))
              | inr (offsets, loaded) ↦
                  let t : DebugState = record {
                    py_v = some v;
                    major = major;
                    minor = minor;
                    debug_offsets = some offsets;
                    debug_offsets_addr = addr;
                    is_free_threaded = free_threaded;
                  } in
                  let step : load_offsets r addr major minor v s ≡ some t =
                    rw (read, load_offsets, loaded) refl in
                  let same : some t ≡ some s' = sym step ∙ h in
                  let e : s' ≡ t = cc in
                  rw e (
                    inr (
                      inr (record {
                        table = v;
                        runtime = runtime;
                        offsets = offsets;
                        py_v = refl;
                        tabled = tabled;
                        major = three;
                        minor = recent;
                        read = read;
                        loaded = loaded;
                        debug_offsets = refl;
                      })))
            ]
      ]

  identify-Settled : (version : ℕ) → identify r addr version s ≡ some s' → Settled r s s'
  unfolding identify
  identify-Settled version h = elim (Option-cases (parse_py_version_hex version)) [
    | inl e ↦
        let step : identify r addr version s ≡ some (cleared s) = rw (e, identify) refl in
        cleared-Settled (sym step ∙ h)
    | inr (p, e) ↦ elim (Bool-cases (p.major == 3 && leb 13 p.minor)) [
      | inr old ↦
          let step : identify r addr version s ≡ some (cleared s) = rw (e, identify, old) refl in
          cleared-Settled (sym step ∙ h)
      | inl recent ↦ elim (Option-cases (r.tables p.major p.minor)) [
        | inl unknown ↦
            let step : identify r addr version s ≡ none = rw (e, identify, recent, unknown) refl in
            let same : none ≡ some s' = sym step ∙ h in absurd cc
        | inr (v, tabled) ↦
            let step : identify r addr version s ≡ load_offsets r addr p.major p.minor v s =
              rw (e, identify, recent, tabled) refl in
            load_offsets-Settled p.major p.minor v tabled (ground arith) (ground arith)
              (sym step ∙ h)
      ]
    ]
  ]

  try_debug_offsets-Settled : try_debug_offsets r addr s ≡ some s' → Settled r s s'
  unfolding try_debug_offsets
  try_debug_offsets-Settled h = elim (Result-cases (r.copy addr 8)) [
    | inl (e, failed) ↦
        let step : try_debug_offsets r addr s ≡ caught e s = rw (failed, try_debug_offsets) refl in
        caught-Settled r e s s s' refl (sym step ∙ h)
    | inr (cookie, read) ↦ elim (Bool-cases (same_bytes cookie debug_cookie)) [
      | inr other ↦
          let step : try_debug_offsets r addr s ≡ some s =
            rw (read, try_debug_offsets, other) refl in
          let same : some s ≡ some s' = sym step ∙ h in inl cc
      | inl right ↦ elim (Result-cases (r.copy (add64 addr 8) 8)) [
        | inl (e, failed) ↦
            let step : try_debug_offsets r addr s ≡ caught e s =
              rw (read, try_debug_offsets, right, failed) refl in
            caught-Settled r e s s s' refl (sym step ∙ h)
        | inr (bytes, read') ↦
            let step : try_debug_offsets r addr s ≡ identify r addr (little_endian bytes) s =
              rw (read, try_debug_offsets, right, read') refl in
            identify-Settled (little_endian bytes) (sym step ∙ h)
      ]
    ]
  ]

-- When the function returns, it did nothing, reset the version and the offsets, or set all of them: a
-- version from 3.13 on, its table, and offsets that the checks accepted. It never returns with the version of a
-- failed attempt, though it sets that before it loads the offsets.
pub set_python_version_from_debug_offsets-Settled :
    (r : Remote) (s s' : DebugState)
    → set_python_version_from_debug_offsets r s ≡ some s'
    → Settled r s s'
unfolding set_python_version_from_debug_offsets
set_python_version_from_debug_offsets-Settled r s s' h =
    elim (Bool-cases (runtime_address r == 0)) [
      | inl nowhere ↦
          let step : set_python_version_from_debug_offsets r s ≡ some s =
            rw (nowhere, set_python_version_from_debug_offsets) refl in
          let same : some s ≡ some s' = sym step ∙ h in inl cc
      | inr found ↦
          let step : set_python_version_from_debug_offsets r s
              ≡ try_debug_offsets r (runtime_address r) s =
            rw (found, set_python_version_from_debug_offsets) refl in
          try_debug_offsets-Settled r (runtime_address r) s s' (sym step ∙ h)
    ]

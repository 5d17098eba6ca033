-- ===== src/Offsets/Bounds.antt =====
-- What the checks of the debug offsets are for: no field that the program may read lies outside the
-- memory that it copies.
use Prim.Native.Nat.{max}
use pystack.Prelude.{
  ℕ, ◌+◌, ◌*◌, ◌^◌, ◌≤◌, ◌<◌, ◌≡◌, refl, ap, ◌∙◌, inl, inr, true, false, some, List, [], ◌∷◌,
  Member, arith, add64, add64_exact, sub64_exact,
}
use pystack.Memory.Exec.{Result, ok}
use pystack.Memory.Maps.{Bytes}
use pystack.Memory.Process.Window.{window, slice-window}
use pystack.Offsets.Layout
use pystack.Offsets.Layout.{Struct, Field, PythonV, sizeof}
use pystack.Offsets.Copy.{RemoteRuntime, copy_debug_offsets}
use pystack.Offsets.Checks.{
  check_field_bounds, check_fields, check_structs, sized, validated_fields, checked_structs,
  validate_debug_offsets, clamp_fields, update_sizes, clamped_size, clamp_sizes,
}
use pystack.Offsets.Load.{Version, load_debug_offsets}
use pystack.Offsets.Structure.{value, field_outside, get_field}

-- What `check_field_bounds` finds out.
abbrev pub Fits : PythonV → Struct → Field → Type 0
Fits v s f = (v.size s < 2 ^ 63) × (v.offset f + sizeof f ≤ v.size s)

check_field_bounds-Fits :
    (v : PythonV) (s : Struct) (f : Field) → check_field_bounds v s f ≡ true → Fits v s f
unfolding check_field_bounds
check_field_bounds-Fits v s f h = ground (arith, sub64_exact (v.size s) (v.offset f))

same_fields : (s : Struct) → clamp_fields s ≡ validated_fields s
unfolding clamp_fields validated_fields
same_fields Layout.py_tuple = refl
same_fields _ = refl

clamped :
    (v : PythonV) (s : Struct)
    → Member s checked_structs
    → clamped_size v s ≡ update_sizes v 0 (clamp_fields s)
unfolding clamped_size
clamped v Layout.py_gilruntimestate m = ground arith
clamped v _ m = refl

module _ (v : PythonV) where
  update_sizes-grows : (acc : ℕ) (fs : List Field) → acc ≤ update_sizes v acc fs
  unfolding update_sizes
  update_sizes-grows acc [] = omega arith
  update_sizes-grows acc (f ∷ fs) =
      omega (arith, update_sizes-grows (max acc (add64 (v.offset f) (sizeof f))) fs)

  update_sizes-covers :
      (acc : ℕ) (fs : List Field) (f : Field)
      → Member f fs
      → add64 (v.offset f) (sizeof f) ≤ update_sizes v acc fs
  unfolding update_sizes
  update_sizes-covers acc [] f m = absurd m
  update_sizes-covers acc (g ∷ fs) f (inl e) =
      rw e (omega (arith, update_sizes-grows (max acc (add64 (v.offset g) (sizeof g))) fs))
  update_sizes-covers acc (g ∷ fs) f (inr m) =
      update_sizes-covers (max acc (add64 (v.offset g) (sizeof g))) fs f m

  update_sizes-le :
      (acc bound : ℕ) (fs : List Field)
      → acc ≤ bound
      → ((f : Field) → Member f fs → add64 (v.offset f) (sizeof f) ≤ bound)
      → update_sizes v acc fs ≤ bound
  unfolding update_sizes
  update_sizes-le acc bound [] h all = h
  update_sizes-le acc bound (f ∷ fs) h all =
      update_sizes-le (max acc (add64 (v.offset f) (sizeof f))) bound fs
        (omega (arith, all f (inl refl))) (λ g m. all g (inr m))

  check_fields-Member :
      (s : Struct) (fs : List Field) (f : Field)
      → check_fields v s fs ≡ true
      → Member f fs
      → Fits v s f
  unfolding check_fields
  check_fields-Member s [] f h m = absurd m
  check_fields-Member s (g ∷ fs) f h (inl e) = rw e (check_field_bounds-Fits v s g (ground arith))
  check_fields-Member s (g ∷ fs) f h (inr m) = check_fields-Member s fs f (ground arith) m

  -- What the checks of one structure find out.
  pub record Checked (s : Struct) : Type 0 where
    pub plausible : sized s ≡ true → v.size s < 2 ^ 63 → v.size s ≤ 1024 * 1024
    pub fields : (f : Field) → Member f (validated_fields s) → Fits v s f

  check_structs-Member :
      (ss : List Struct) (s : Struct) → check_structs v ss ≡ true → Member s ss → Checked s
  unfolding check_structs
  check_structs-Member [] s h m = absurd m
  check_structs-Member (t ∷ ss) s h (inl e) = rw e (record {
    plausible = λ is_sized small. ground arith;
    fields = λ f m. check_fields-Member t (validated_fields t) f (ground arith) m;
  })
  check_structs-Member (t ∷ ss) s h (inr m) = check_structs-Member ss s (ground arith) m

  validate-Checked :
      (s : Struct) → validate_debug_offsets v ≡ true → Member s checked_structs → Checked s
  unfolding validate_debug_offsets
  validate-Checked s h m = check_structs-Member checked_structs s h m

  -- A field after the clamping: its structure is no larger than before, and still holds it.
  clamp-Fits :
      (s : Struct) (f : Field)
      → Checked s
      → Member s checked_structs
      → Member f (validated_fields s)
      → (clamped_size v s ≤ v.size s) × Fits (clamp_sizes v) s f
  unfolding clamp_sizes
  clamp-Fits s f c m member =
      let fits = c.fields f member in
      let exact = add64_exact (v.offset f) (sizeof f) (omega (arith, fits)) in
      let below =
        update_sizes-le 0 (v.size s) (validated_fields s) (omega arith)
          (λ g mg. omega (arith, c.fields g mg, add64_exact (v.offset g) (sizeof g))) in
      let covers = update_sizes-covers 0 (validated_fields s) f member in
      let e : clamped_size v s ≡ update_sizes v 0 (validated_fields s) =
        clamped v s m ∙ ap (update_sizes v 0) (same_fields s) in
      omega (arith, fits, exact, below, covers, e)

-- What is loaded: validated, and clamped.
pub load-validated :
    (version : Version) (r : RemoteRuntime) (fixed v : PythonV)
    → load_debug_offsets version r fixed ≡ some v
    → (validate_debug_offsets (copy_debug_offsets r fixed) ≡ true)
      × (v ≡ clamp_sizes (copy_debug_offsets r fixed))
unfolding load_debug_offsets
load-validated version r fixed v h = ground arith

module _ (version : Version) (r : RemoteRuntime) (fixed v : PythonV)
    (loaded : load_debug_offsets version r fixed ≡ some v) (s : Struct) (f : Field)
    (checked : Member s checked_structs) (member : Member f (validated_fields s)) where
  -- In debug offsets that are loaded, every field that `validateDebugOffsets` checks lies within the size
  -- of its structure, and that size is at most the one that was checked: the one that the other process
  -- reported, or the built-in one where it reports none.
  pub load-Fits : Fits v s f × (v.size s ≤ (copy_debug_offsets r fixed).size s)
  unfolding clamp_sizes
  load-Fits =
      let d = copy_debug_offsets r fixed in
      let (valid, e) = load-validated version r fixed v loaded in
      let (le, fits) = clamp-Fits d s f (validate-Checked d s valid checked) checked member in
      rw e (fits, le)

  inside : field_outside v s f ≡ false
  unfolding field_outside
  inside = ground (arith, load-Fits, sub64_exact (v.size s) (sizeof f))

  -- So reading a field that `validateDebugOffsets` checks does not abort, and gives its bytes at its
  -- address in the other process, if the copy of the structure gives the bytes of the memory.
  pub get_field-load :
      (mem : ℕ → ℕ) (copy : ℕ → ℕ → Result Bytes) (addr : ℕ)
      → copy addr (v.size s) ≡ ok (window mem addr (v.size s))
      → get_field copy v s addr f ≡ value (window mem (addr + v.offset f) (sizeof f))
  unfolding get_field
  get_field-load mem copy addr copied =
      rw (copied, get_field, inside)
        (ap value (slice-window mem (v.offset f) (sizeof f) (v.size s) addr load-Fits.0.1))

-- ===== src/Process/Frame/Ends.antt =====
-- The end of the constructor of `FrameObject`, which follows the frames as far as they go.
use pystack.Prelude.{
  ℕ, zero, suc, ◌≤◌, ◌≡◌, ◌≢◌, refl, arith, Bool, false, Option, none, List, [], ◌==◌,
  if◌then◌else◌, inl, inr, ◌⊎◌, ==_iff,
}
use pystack.Offsets.Layout.{py_frame, py_frame_o_back}
use pystack.Code.LineTable.{LocationInfo}
use pystack.Process.{Process, done, stop, out_of_fuel, catch_remote, read_field}
use pystack.Process.CodeObject.{CodeObject}
use pystack.Process.Ends.{
  HasEnded, given, ends, bind-HasEnded, bind-HasEnded_known, if-HasEnded, catch_remote-HasEnded,
  read-HasEnded, read_field-HasEnded, make_code-HasEnded,
}
use pystack.Process.Frame.{
  Frame, get_is_shim, get_last_instruction, get_tlbc_index, get_code, get_is_entry, make_frame,
}
use pystack.Process.Frame.Chain.{next_no}

-- From an address, the pointers back come to 0, or to memory that cannot be read, within so many frames.
abbrev pub EndsWithin : Process → ℕ → ℕ → Type 0
EndsWithin p zero addr = ⊥
EndsWithin p (suc count) addr =
    (back : ℕ)
    → read_field p py_frame addr py_frame_o_back ≡ done back
    → (back ≡ 0) ⊎ EndsWithin p count back

module _ (u : LocationInfo) (p : Process) where
  is_shim-HasEnded : (addr : ℕ) → HasEnded (get_is_shim p addr)
  unfolding get_is_shim
  is_shim-HasEnded addr = search (ends, read_field-HasEnded)

  last_instruction-HasEnded : (addr : ℕ) → HasEnded (get_last_instruction p addr)
  unfolding get_last_instruction
  last_instruction-HasEnded addr = search (ends, read_field-HasEnded)

  tlbc_index-HasEnded : (addr : ℕ) → HasEnded (get_tlbc_index p addr)
  unfolding get_tlbc_index
  tlbc_index-HasEnded addr = search (ends, read-HasEnded)

  code-HasEnded : (addr : ℕ) → HasEnded (get_code u p addr)
  unfolding get_code
  code-HasEnded addr =
      search
        (
          ends, read_field-HasEnded, last_instruction-HasEnded, tlbc_index-HasEnded,
          make_code-HasEnded,
        )
        depth 12

  is_entry-HasEnded :
      (addr n : ℕ) (shim : Bool) (prev : List Frame) → HasEnded (get_is_entry p addr n shim prev)
  unfolding get_is_entry
  is_entry-HasEnded addr n shim prev = search (ends, read_field-HasEnded)

  previous-HasEnded :
      (count fuel back n : ℕ)
      → (back ≡ 0) ⊎ EndsWithin p count back
      → (EndsWithin p count back → HasEnded (make_frame u p fuel back n))
      → HasEnded
          (if back == 0 then done [] else catch_remote (make_frame u p fuel back n) (done []))
  previous-HasEnded count fuel back n (inr e) ih =
      if-HasEnded _ _ _ (given []) (catch_remote-HasEnded _ _ (ih e) (given []))
  previous-HasEnded count fuel back n (inl e) ih = rw ((==_iff back 0).1 e) (given [])

-- Where the pointers back end within so many frames, the constructor needs no more fuel than that: it
-- comes to the frames, an exception, an abort or behaviour that C++ leaves open.
make_frame-HasEnded :
    (uninitialised : LocationInfo) (p : Process) (count fuel addr n : ℕ)
    → EndsWithin p count addr
    → count ≤ fuel
    → HasEnded (make_frame uninitialised p fuel addr n)
unfolding make_frame
make_frame-HasEnded u p zero fuel addr n h k = absurd h
make_frame-HasEnded u p (suc count) zero addr n h k = absurd (omega arith)
make_frame-HasEnded u p (suc count) (suc fuel) addr n h k =
    bind-HasEnded _ _ (is_shim-HasEnded u p addr) (λ shim.
      bind-HasEnded _ _ (if-HasEnded shim _ _ (given none) (code-HasEnded u p addr)) (λ code.
        bind-HasEnded_known _ _ (read_field-HasEnded p py_frame addr py_frame_o_back) (λ back read.
          bind-HasEnded _ _
            (previous-HasEnded u p count fuel back (next_no shim n) (h back read)
              (λ e. make_frame-HasEnded u p count fuel back (next_no shim n) e (omega arith)))
            (λ prev.
              bind-HasEnded _ _ (is_entry-HasEnded u p addr n shim prev) (λ entry. given _)))))

-- A frame that can be read and points back to itself is followed for ever.
pub make_frame_endless :
    (uninitialised : LocationInfo) (p : Process) (addr : ℕ) (shim : Bool) (code : Option CodeObject)
    → addr ≢ 0
    → get_is_shim p addr ≡ done shim
    → (if shim then done none else get_code uninitialised p addr) ≡ done code
    → read_field p py_frame addr py_frame_o_back ≡ done addr
    → (fuel n : ℕ) → make_frame uninitialised p fuel addr n ≡ stop out_of_fuel
unfolding make_frame catch_remote
make_frame_endless u p addr shim code ne is_shim is_code back zero n = refl
make_frame_endless u p addr shim code ne is_shim is_code back (suc fuel) n =
    let e : (addr == 0) ≡ false = ground (arith, ne) in
    let ih = make_frame_endless u p addr shim code ne is_shim is_code back fuel (next_no shim n) in
    rw (is_shim, is_code, back, e, ih) refl

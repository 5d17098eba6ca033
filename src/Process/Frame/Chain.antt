-- ===== src/Process/Frame/Chain.antt =====
-- What the constructor of `FrameObject` builds: the chain, its numbers, shims and entries, and its end.
use pystack.Prelude.{
  ℕ, zero, suc, ◌+◌, ◌≡◌, refl, sym, Bool, true, false, ◌&&◌, ◌||◌, Option, none, List, [], ◌∷◌,
  ◌==◌, if◌then◌else◌, inl, inr, Bool-cases,
}
use pystack.Offsets.Layout.{py_frame, py_frame_o_back}
use pystack.Code.LineTable.{LocationInfo}
use pystack.Process.{Process, Run, done, catch_remote, is_at_least, read_field}
use pystack.Process.CodeObject.{CodeObject}
use pystack.Process.Frame.{Frame, get_is_shim, get_code, get_is_entry, starts_with_shim, make_frame}
use pystack.Process.Runs.{bind-done, same_done, catch_remote-cases}

-- The first of the frames is where the frame before them points.
abbrev pub Follows : Process → ℕ → List Frame → Type 0
Follows p addr [] = Unit
Follows p addr (frame ∷ frames) = read_field p py_frame addr py_frame_o_back ≡ done frame.addr

abbrev pub next_no : Bool → ℕ → ℕ
next_no is_shim n = if is_shim then n else n + 1

-- What holds of a frame before others: its number, its code, and whether it is an entry.
pub record IsFrame (p : Process) (n : ℕ) (frame : Frame) (prev : List Frame) : Type 0 where
  pub number : frame.frame_no ≡ n
  pub shim : get_is_shim p frame.addr ≡ done frame.is_shim
  pub no_code : frame.is_shim ≡ true → frame.code ≡ none
  pub entry :
      is_at_least p 3 12 ≡ true
      → frame.is_entry ≡ (starts_with_shim prev || (frame.frame_no == 0 && frame.is_shim))
  pub follows : Follows p frame.addr prev

-- The frames number from `n`, the shims not counted.
abbrev pub IsChain : Process → ℕ → List Frame → Type 0
IsChain p n [] = Unit
IsChain p n (frame ∷ prev) = IsFrame p n frame prev × IsChain p (next_no frame.is_shim n) prev

-- The frames start at an address.
abbrev pub StartsAt : ℕ → List Frame → Type 0
StartsAt addr [] = ⊥
StartsAt addr (frame ∷ frames) = frame.addr ≡ addr

module _ (uninitialised : LocationInfo) (p : Process) where
  abbrev Made : ℕ → ℕ → ℕ → Type 0
  Made fuel addr n =
      (frames : List Frame)
      → make_frame uninitialised p fuel addr n ≡ done frames
      → StartsAt addr frames × IsChain p n frames

  shim-no_code :
      (shim : Bool) (addr : ℕ) (code : Option CodeObject)
      → (if shim then done none else get_code uninitialised p addr) ≡ done code
      → shim ≡ true
      → code ≡ none
  shim-no_code true addr code h e = sym (same_done h)
  shim-no_code false addr code h e = absurd (cc)

  entry_lem :
      (addr n : ℕ) (shim : Bool) (prev : List Frame) (entry : Bool)
      → get_is_entry p addr n shim prev ≡ done entry
      → is_at_least p 3 12 ≡ true
      → entry ≡ (starts_with_shim prev || (n == 0 && shim))
  unfolding get_is_entry
  entry_lem addr n shim prev entry h new = sym (same_done (rw new at h))

  starts-Follows :
      (addr back : ℕ) (frames : List Frame)
      → read_field p py_frame addr py_frame_o_back ≡ done back
      → StartsAt back frames
      → Follows p addr frames
  starts-Follows addr back [] h s = absurd s
  starts-Follows addr back (frame ∷ frames) h s = rw s h

  -- The frames before one, read or not.
  previous-IsChain :
      (back n : ℕ) (addr : ℕ) (made : Run (List Frame)) (prev : List Frame)
      → read_field p py_frame addr py_frame_o_back ≡ done back
      → ((frames : List Frame) → made ≡ done frames → StartsAt back frames × IsChain p n frames)
      → (if back == 0 then done [] else catch_remote made (done [])) ≡ done prev
      → Follows p addr prev × IsChain p n prev
  previous-IsChain back n addr made prev h ih e = elim (Bool-cases (back == 0)) [
    | inl z ↦ none_before prev (same_done (rw z at e))
    | inr z ↦ elim (catch_remote-cases made (done []) prev (rw z at e)) [
      | inr k ↦ none_before prev (same_done k)
      | inl k ↦ let (starts, chain) = ih prev k in (starts-Follows addr back prev h starts, chain)
    ]
  ]
    where
      none_before : (frames : List Frame) → [] ≡ frames → Follows p addr frames × IsChain p n frames
      none_before frames e = rw (sym e) (tt, tt)

-- Every frame of the chain is where the frame after it points; the numbers count the frames
-- that are no shims; a shim has no code; and from Python 3.12 on a frame is an entry exactly if the frame
-- before it is a shim, or it is a shim with the number 0.
pub make_frame-IsChain :
    (uninitialised : LocationInfo) (p : Process) (fuel addr n : ℕ) (frames : List Frame)
    → make_frame uninitialised p fuel addr n ≡ done frames
    → StartsAt addr frames × IsChain p n frames
unfolding make_frame
make_frame-IsChain uninitialised p zero addr n frames h = absurd (cc)
make_frame-IsChain uninitialised p (suc fuel) addr n frames h =
    let (shim, shim_read, h) = bind-done (get_is_shim p addr) _ frames h in
    let (code, code_read, h) =
      bind-done (if shim then done none else get_code uninitialised p addr) _ frames h in
    let (back, back_read, h) = bind-done (read_field p py_frame addr py_frame_o_back) _ frames h in
    let (prev, prev_read, h) =
      bind-done
        (if back == 0
          then done []
          else catch_remote (make_frame uninitialised p fuel back (next_no shim n)) (done []))
        _ frames h in
    let (entry, entry_read, h) = bind-done (get_is_entry p addr n shim prev) _ frames h in
    let (follows, chain) =
      previous-IsChain uninitialised p back (next_no shim n) addr
        (make_frame uninitialised p fuel back (next_no shim n)) prev back_read
        (make_frame-IsChain uninitialised p fuel back (next_no shim n)) prev_read in
    rw (sym (same_done h)) (
      refl,
      (
        record {
          number = refl;
          shim = shim_read;
          no_code = shim-no_code uninitialised p shim addr code code_read;
          entry = entry_lem uninitialised p addr n shim prev entry entry_read;
          follows = follows;
        },
        chain,
      ),
    )

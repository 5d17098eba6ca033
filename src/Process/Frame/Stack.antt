-- ===== src/Process/Frame/Stack.antt =====
-- The stack that `buildFrameStack` of thread_builder.cpp shows of a chain of frames.
use pystack.Prelude.{
  ℕ, suc, ◌≤◌, ◌≡◌, refl, sym, ◌∙◌, arith, Bool, true, false, not, none, some, List, [], ◌∷◌, inl,
  inr, Bool-cases, Option-cases, same_bytes,
}
use pystack.Code.LineTable.{LocationInfo}
use pystack.Process.{Process, done}
use pystack.Process.CodeObject.{CodeObject}
use pystack.Process.ObjectType.{unknown_name}
use pystack.Process.Frame.{Frame, is_shown, make_frame, build_frame_stack}
use pystack.Process.Frame.Chain.{IsChain, IsFrame, next_no, make_frame-IsChain}

-- A frame with code that could be read.
pub record HasCode (frame : Frame) : Type 0 where
  pub code : CodeObject
  pub is_code : frame.code ≡ some code
  pub known : same_bytes code.filename unknown_name ≡ false

-- Frames that are no shims, have code, and are numbered upwards, the first from `n` on.
abbrev pub IsStack : ℕ → List Frame → Type 0
IsStack n [] = Unit
IsStack n (frame ∷ frames) =
    (n ≤ frame.frame_no)
    × (frame.is_shim ≡ false)
    × HasCode frame
    × IsStack (suc frame.frame_no) frames

IsStack-lower : (m n : ℕ) (frames : List Frame) → m ≤ n → IsStack n frames → IsStack m frames
IsStack-lower m n [] h k = tt
IsStack-lower m n (frame ∷ frames) h (a, b, c, d) = (omega arith, b, c, d)

not-true : (b : Bool) → not b ≡ true → b ≡ false
not-true false h = refl
not-true true h = absurd (cc)

shown-HasCode : (frame : Frame) → is_shown frame ≡ true → HasCode frame
shown-HasCode frame h = elim (Option-cases frame.code) [
  | inl e ↦ absurd (let k : false ≡ true = rw e at h in cc)
  | inr (code, e) ↦ record {
    code = code;
    is_code = e;
    known = not-true (same_bytes code.filename unknown_name) (rw e at h);
  }
]

next_no-le : (shim : Bool) (n : ℕ) → n ≤ next_no shim n
next_no-le true n = omega arith
next_no-le false n = omega arith

-- A frame with code is no shim, so the next number is one more.
code-no_shim :
    (p : Process) (n : ℕ) (frame : Frame) (prev : List Frame)
    → IsFrame p n frame prev
    → HasCode frame
    → frame.is_shim ≡ false
code-no_shim p n frame prev h c = elim (Bool-cases frame.is_shim) [
  | inr e ↦ e
  | inl e ↦ let k : none ≡ some c.code = sym (h.no_code e) ∙ c.is_code in absurd (cc)
]

chain-IsStack :
    (p : Process) (frames : List Frame) (n : ℕ)
    → IsChain p n frames
    → IsStack n (build_frame_stack frames)
unfolding build_frame_stack
chain-IsStack p [] n h = tt
chain-IsStack p (frame ∷ frames) n (h, later) =
    let ih = chain-IsStack p frames (next_no frame.is_shim n) later in
    elim (Bool-cases (is_shown frame)) [
      | inr e ↦ rw e (
          IsStack-lower n (next_no frame.is_shim n) (build_frame_stack frames)
            (next_no-le frame.is_shim n) ih)
      | inl e ↦
          let c = shown-HasCode frame e in
          let no_shim = code-no_shim p n frame frames h c in
          let m = h.number in
          let next : next_no frame.is_shim n ≡ suc frame.frame_no = rw no_shim (omega (arith, m)) in
          rw e ((omega (arith, m)), no_shim, c, rw next at ih)
    ]

-- Of the frames that the constructor reads, the stack has frames with code that could be read and no shims,
-- from the most recent on, each under a larger number than the one before it.
pub build_frame_stack-IsStack :
    (uninitialised : LocationInfo) (p : Process) (fuel addr n : ℕ) (frames : List Frame)
    → make_frame uninitialised p fuel addr n ≡ done frames
    → IsStack n (build_frame_stack frames)
build_frame_stack-IsStack uninitialised p fuel addr n frames h =
    let (starts, chain) = make_frame-IsChain uninitialised p fuel addr n frames h in
    chain-IsStack p frames n chain

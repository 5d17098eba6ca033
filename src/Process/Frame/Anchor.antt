-- ===== src/Process/Frame/Anchor.antt =====
-- The frame that `getStackAnchor` of pythread.cpp finds.
use pystack.Prelude.{
  ℕ, zero, suc, ◌≡◌, ◌≢◌, sym, Bool, true, false, not, ◌⊎◌, inl, inr, ◌==◌, if◌then◌else◌,
  Bool-cases, ==_false,
}
use pystack.Offsets.Layout.{py_frame, py_frame_o_back}
use pystack.Process.{Process, Run, done, is_at_least, read_field}
use pystack.Process.Runs.{bind-done, same_done}
use pystack.Process.Frame.{is_anchor, find_anchor, get_stack_anchor}

-- The pointers back lead from one frame to another.
pub data Reaches (p : Process) : ℕ → ℕ → Type 0 where
  here : (addr : ℕ) → Reaches p addr addr
  back :
      (addr next last : ℕ)
      → read_field p py_frame addr py_frame_o_back ≡ done next
      → Reaches p next last
      → Reaches p addr last

-- A frame that is reached from the first, and has the mark of an anchor.
abbrev pub IsAnchor : Process → ℕ → ℕ → Type 0
IsAnchor p frame_addr anchor = Reaches p frame_addr anchor × (is_anchor p anchor ≡ done true)

module _ (p : Process) where
  find_anchor-IsAnchor :
      (steps frame_addr addr anchor : ℕ)
      → find_anchor p steps frame_addr addr ≡ done anchor
      → (anchor ≡ frame_addr) ⊎ IsAnchor p addr anchor
  unfolding find_anchor
  find_anchor-IsAnchor zero frame_addr addr anchor h = inl (sym (same_done h))
  find_anchor-IsAnchor (suc steps) frame_addr addr anchor h = elim (Bool-cases (addr == 0)) [
    | inl e ↦ inl (sym (same_done (rw e at h)))
    | inr e ↦
        let (found, is_found, h) = bind-done (is_anchor p addr) _ anchor (rw e at h) in
        elim (Bool-cases found) [
          | inl f ↦
              let k : done addr ≡ done anchor = rw f at h in
              let same = same_done k in inr (rw same (here anchor), rw (same, f) at is_found)
          | inr f ↦
              let (next, is_next, h) =
                bind-done (read_field p py_frame addr py_frame_o_back) _ anchor (rw f at h) in
              elim (Bool-cases (next == addr)) [
                | inl s ↦ inl (sym (same_done (rw s at h)))
                | inr s ↦ elim (find_anchor-IsAnchor steps frame_addr next anchor (rw s at h)) [
                  | inl e ↦ inl e
                  | inr (reaches, mark) ↦ inr (back addr next anchor is_next reaches, mark)
                ]
              ]
        ]
  ]

last-done :
    (b c : Bool) (frame_addr anchor : ℕ) (r : Run ℕ)
    → b ≡ false
    → c ≡ true
    → (if b then done 0 else if not c then done frame_addr else r) ≡ done anchor
    → r ≡ done anchor
last-done false true frame_addr anchor r h k e = e
last-done true c frame_addr anchor r h k e = absurd (cc)
last-done false false frame_addr anchor r h k e = absurd (cc)

-- From Python 3.11 on, the anchor is the frame that was given, or one that its pointers back
-- lead to and that is marked: as owned by the stack of C (or by the interpreter, from 3.14 on), or as an
-- entry in 3.11.
pub get_stack_anchor-IsAnchor :
    (p : Process) (frame_addr anchor : ℕ)
    → frame_addr ≢ 0
    → is_at_least p 3 11 ≡ true
    → get_stack_anchor p frame_addr ≡ done anchor
    → (anchor ≡ frame_addr) ⊎ IsAnchor p frame_addr anchor
unfolding get_stack_anchor
get_stack_anchor-IsAnchor p frame_addr anchor ne new h =
    find_anchor-IsAnchor p 4096 frame_addr frame_addr anchor (
      last-done (frame_addr == 0) (is_at_least p 3 11) frame_addr anchor
        (find_anchor p 4096 frame_addr frame_addr) (==_false frame_addr 0 ne) new h)

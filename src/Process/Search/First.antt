-- ===== src/Process/Search/First.antt =====
-- The scan of an area of the memory takes the first of its words that is valid.
use pystack.Prelude.{
  ℕ, ◌/◌, ◌%◌, ◌≡◌, refl, sym, ap, ◌∙◌, Bool, Bool-cases, true, false, List, [], ◌∷◌, ◌++◌, ◌==◌,
  if◌then◌else◌, inl, inr, ◌⊎◌, ◌↔◌,
}
use pystack.Memory.Maps.{Bytes, VirtualMap, map_size}
use pystack.Process.{Process, Run, done, stop, ◌>>=◌, read}
use pystack.Process.Interpreter.{
  is_valid_interpreter_state, first_valid, last_word, words_of,
  scan_memory_area_for_interpreter_state,
}
use pystack.Process.Runs.{bind-done}
use pystack.Process.Search.PointsBack.{done_same}

-- All the words are tested, and refused.
abbrev pub Refused : (ℕ → Run Bool) → List ℕ → Type 0
Refused test [] = Unit
Refused test (w ∷ words) = (test w ≡ done false) × Refused test words

-- The word that is valid, behind others that are refused.
pub record Behind (test : ℕ → Run Bool) (words : List ℕ) (r : ℕ) : Type 0 where
  pub before : List ℕ
  pub after : List ℕ
  pub parts : words ≡ before ++ (r ∷ after)
  pub refused : Refused test before
  pub valid : test r ≡ done true

abbrev pub IsFirst : (ℕ → Run Bool) → List ℕ → ℕ → Type 0
IsFirst test words r = Behind test words r ⊎ ((r ≡ 0) × Refused test words)

module _ (test : ℕ → Run Bool) where
  IsFirst-cons :
      (w r : ℕ) (words : List ℕ)
      → test w ≡ done false
      → IsFirst test words r
      → IsFirst test (w ∷ words) r
  IsFirst-cons w r words e (inr (z, h)) = inr (z, (e, h))
  IsFirst-cons w r words e (inl b) = inl record {
    before = w ∷ b.before;
    after = b.after;
    parts = ap (◌∷◌ w) b.parts;
    refused = (e, b.refused);
    valid = b.valid;
  }

  tested-IsFirst :
      (w r : ℕ) (words : List ℕ) (valid : Bool)
      → test w ≡ done valid
      → (if valid then done w else first_valid test words) ≡ done r
      → (first_valid test words ≡ done r → IsFirst test words r)
      → IsFirst test (w ∷ words) r
  tested-IsFirst w r words true e h ih = inl record {
    before = [];
    after = words;
    parts = ap (λ (v : ℕ). v ∷ words) (done_same h);
    refused = tt;
    valid = rw (done_same h) at e;
  }
  tested-IsFirst w r words false e h ih = IsFirst-cons w r words e (ih h)

  first_valid-IsFirst :
      (words : List ℕ) (r : ℕ) → first_valid test words ≡ done r → IsFirst test words r
  unfolding first_valid
  first_valid-IsFirst [] r h = inr (sym (done_same h), tt)
  first_valid-IsFirst (w ∷ words) r h =
      let (valid, e, h) = bind-done (test w) _ r h in
      tested-IsFirst w r words valid e h (first_valid-IsFirst words r)

  Refused-first : (words : List ℕ) → Refused test words → first_valid test words ≡ done 0
  unfolding first_valid
  Refused-first [] h = refl
  Refused-first (w ∷ words) (e, h) = rw (e, first_valid) (Refused-first words h)

  behind_first :
      (before after : List ℕ) (r : ℕ)
      → Refused test before
      → test r ≡ done true
      → first_valid test (before ++ (r ∷ after)) ≡ done r
  unfolding first_valid
  behind_first [] after r h valid = rw (valid, first_valid) refl
  behind_first (w ∷ before) after r (e, h) valid =
      rw (e, first_valid) (behind_first before after r h valid)

  IsFirst-first_valid :
      (words : List ℕ) (r : ℕ) → IsFirst test words r → first_valid test words ≡ done r
  IsFirst-first_valid words r (inl b) =
      rw (b.parts) (behind_first b.before b.after r b.refused b.valid)
  IsFirst-first_valid words r (inr (z, h)) = rw z (Refused-first words h)

bind_last : (r : Run ℕ) (size : ℕ) → size % 8 ≡ 0 → (r >>= last_word size) ≡ r
unfolding last_word
bind_last (stop e) size whole = refl
bind_last (done a) size whole =
    rw whole (elim (Bool-cases (a == 0)) [ inl e ↦ rw e refl | inr e ↦ rw e refl ])

scan_words :
    (fuel : ℕ) (p : Process) (map : VirtualMap) (buffer : Bytes)
    → read p map.start (map_size map) ≡ done buffer
    → map_size map % 8 ≡ 0
    → scan_memory_area_for_interpreter_state fuel p map
      ≡ first_valid (is_valid_interpreter_state fuel p) (words_of (map_size map / 8) buffer)
unfolding scan_memory_area_for_interpreter_state
scan_words fuel p map buffer readable whole = rw readable (
    bind_last (first_valid (is_valid_interpreter_state fuel p) (words_of (map_size map / 8) buffer))
      (map_size map) whole)

-- On an area of whole words that can be read, the scan returns the first of its words that is the address
-- of a state of the interpreter, or 0 where none is; and it returns nothing else.
pub scan_memory_area_for_interpreter_state-IsFirst :
    (fuel : ℕ) (p : Process) (map : VirtualMap) (buffer : Bytes) (r : ℕ)
    → read p map.start (map_size map) ≡ done buffer
    → map_size map % 8 ≡ 0
    → (scan_memory_area_for_interpreter_state fuel p map ≡ done r)
      ↔ IsFirst (is_valid_interpreter_state fuel p) (words_of (map_size map / 8) buffer) r
scan_memory_area_for_interpreter_state-IsFirst fuel p map buffer r readable whole = (
  λ h. first_valid-IsFirst test words r (sym scans ∙ h),
  λ h. scans ∙ IsFirst-first_valid test words r h,
)
  where
    test : ℕ → Run Bool
    test = is_valid_interpreter_state fuel p

    words : List ℕ
    words = words_of (map_size map / 8) buffer

    scans : scan_memory_area_for_interpreter_state fuel p map ≡ first_valid test words
    scans = scan_words fuel p map buffer readable whole

-- ===== src/Process/Search/Found.antt =====
-- What the search for the state of the interpreter finds.
use pystack.Prelude.{
  ℕ, ◌≡◌, ◌≢◌, sym, ◌/◌, Bool, true, false, Option, none, some, List, [], ◌∷◌, if◌then◌else◌, inl,
  inr,
}
use pystack.Memory.Maps.{VirtualMap, map_size}
use pystack.Process.{Process, Run, done, ◌>>=◌, catch_all, read, read_word}
use pystack.Process.Runs.{bind-done}
use pystack.Process.Interpreter.{
  is_valid_interpreter_state, checked, first_valid, words_of, find_interpreter_state_from_pointer,
  find_interpreter_state_from_py_runtime, find_interpreter_state_from_symbols,
  find_interpreter_state_from_elf_data, find_interpreter_state_from_debug_offsets,
  scan_memory_area_for_interpreter_state, scan_bss, scan_heap, scan_option,
}
use pystack.Process.Search.{
  or_else, try_method, scan_anonymous, scan_all_anonymous_maps, get_interpreter_state_addr,
}
use pystack.Process.Search.PointsBack.{
  PointsBack, state-PointsBack, done_same, or_else-done, catch_all-done, last_word-done,
}

module _ (fuel : ℕ) (p : Process) where
  -- A result that is not 0 is the address of a state.
  abbrev Finds : Run ℕ → Type 0
  Finds r = (addr : ℕ) → addr ≢ 0 → r ≡ done addr → PointsBack fuel p addr

  zero-Finds : Finds (done 0)
  zero-Finds addr ne h = absurd (ne (sym (done_same h)))

  -- The word that is tested, or what the rest of the function finds.
  tested-Finds :
      (w : ℕ) (r : Run ℕ) (valid : Bool)
      → is_valid_interpreter_state fuel p w ≡ done valid
      → Finds r
      → Finds (if valid then done w else r)
  tested-Finds w r true e k addr ne h = rw (done_same h) at (state-PointsBack fuel p w e)
  tested-Finds w r false e k addr ne h = k addr ne h

  checked-Finds : (state : ℕ) → Finds (checked fuel p state)
  unfolding checked
  checked-Finds state addr ne h =
      let (valid, e, h) = bind-done (is_valid_interpreter_state fuel p state) _ addr h in
      tested-Finds state (done 0) valid e zero-Finds addr ne (swap valid h)
    where
      swap :
          (b : Bool)
          → done (if b then state else 0) ≡ done addr
          → (if b then done state else done 0) ≡ done addr
      swap true k = k
      swap false k = k

  bind-Finds : (r : Run ℕ) → Finds (r >>= checked fuel p)
  bind-Finds r addr ne h =
      let (state, e, h) = bind-done r (checked fuel p) addr h in checked-Finds state addr ne h

  pointer-Finds : (a : ℕ) → Finds (find_interpreter_state_from_pointer fuel p a)
  unfolding find_interpreter_state_from_pointer
  pointer-Finds a = bind-Finds (read_word p a)

  py_runtime-Finds : (a : ℕ) → Finds (find_interpreter_state_from_py_runtime fuel p a)
  unfolding find_interpreter_state_from_py_runtime
  py_runtime-Finds a = bind-Finds _

  if-Finds : (b : Bool) (r s : Run ℕ) → Finds r → Finds s → Finds (if b then r else s)
  if-Finds true r s h k = h
  if-Finds false r s h k = k

  symbols-Finds : Finds (find_interpreter_state_from_symbols fuel p)
  unfolding find_interpreter_state_from_symbols
  symbols-Finds = if-Finds _ _ _ (py_runtime-Finds _) (if-Finds _ _ _ (pointer-Finds _) zero-Finds)

  elf_data-Finds : Finds (find_interpreter_state_from_elf_data fuel p)
  unfolding find_interpreter_state_from_elf_data
  elf_data-Finds = if-Finds _ _ _ zero-Finds (py_runtime-Finds _)

  catch-Finds : (r : Run ℕ) → Finds r → Finds (catch_all r (done 0))
  catch-Finds r h addr ne k = h addr ne (catch_all-done r addr ne k)

  debug_offsets-Finds : Finds (find_interpreter_state_from_debug_offsets fuel p)
  unfolding find_interpreter_state_from_debug_offsets
  debug_offsets-Finds = if-Finds _ _ _ zero-Finds (catch-Finds _ (bind-Finds _))

  or_else-Finds : (r s : Run ℕ) → Finds r → Finds s → Finds (or_else r s)
  or_else-Finds r s h k addr ne e = elim (or_else-done r s addr e) [
    | inl (e, _) ↦ h addr ne e
    | inr e ↦ k addr ne e
  ]

  first_valid-Finds :
      (words : List ℕ) → Finds (first_valid (is_valid_interpreter_state fuel p) words)
  unfolding first_valid
  first_valid-Finds [] addr ne h = zero-Finds addr ne h
  first_valid-Finds (w ∷ words) addr ne h =
      let (valid, e, h) = bind-done (is_valid_interpreter_state fuel p w) _ addr h in
      tested-Finds w _ valid e (first_valid-Finds words) addr ne h

  area-Finds : (map : VirtualMap) → Finds (scan_memory_area_for_interpreter_state fuel p map)
  unfolding scan_memory_area_for_interpreter_state
  area-Finds map addr ne h =
      let (buffer, _, h) = bind-done (read p map.start (map_size map)) _ addr h in
      let (result, found, h) =
        bind-done
          (first_valid (is_valid_interpreter_state fuel p) (words_of (map_size map / 8) buffer)) _
          addr h in
      first_valid-Finds (words_of (map_size map / 8) buffer) addr ne
        (rw (last_word-done (map_size map) result addr h) at found)

  option-Finds : (o : Option VirtualMap) → Finds (scan_option fuel p o)
  unfolding scan_option
  option-Finds none = zero-Finds
  option-Finds (some map) = area-Finds map

  anonymous-Finds : (maps : List VirtualMap) → Finds (scan_anonymous fuel p maps)
  unfolding scan_anonymous
  anonymous-Finds [] = zero-Finds
  anonymous-Finds (map ∷ maps) =
      if-Finds _ _ _ (anonymous-Finds maps)
        (or_else-Finds _ _ (area-Finds map) (anonymous-Finds maps))

  method-Finds : (enabled : Bool) (r s : Run ℕ) → Finds r → Finds s → Finds (try_method enabled r s)
  unfolding try_method
  method-Finds enabled r s h k = if-Finds enabled _ s (or_else-Finds _ s (catch-Finds r h) k) k

-- Whatever methods are enabled, an address that the search returns, if it is not 0, is valid, and the
-- thread that it heads points back to it; its three dictionaries are objects of type dict.
pub get_interpreter_state_addr-PointsBack :
    (fuel : ℕ) (p : Process) (method_flags addr : ℕ)
    → addr ≢ 0
    → get_interpreter_state_addr fuel p method_flags ≡ done addr
    → PointsBack fuel p addr
unfolding get_interpreter_state_addr scan_bss scan_all_anonymous_maps scan_heap
get_interpreter_state_addr-PointsBack fuel p method_flags =
    method-Finds fuel p _ _ _ (debug_offsets-Finds fuel p) (
      method-Finds fuel p _ _ _ (elf_data-Finds fuel p) (
        method-Finds fuel p _ _ _ (symbols-Finds fuel p) (
          method-Finds fuel p _ _ _ (option-Finds fuel p p.bss) (
            method-Finds fuel p _ _ _ (anonymous-Finds fuel p p.memory_maps)
              (method-Finds fuel p _ _ _ (option-Finds fuel p p.heap) (zero-Finds fuel p))))))

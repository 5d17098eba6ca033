-- ===== src/Process/Text/Fits.antt =====
-- How long the text is that `toString` of pytypes.cpp makes of a value.
use pystack.Prelude.{
  length-take, ℕ, suc, ◌+◌, ◌-◌, ◌^◌, ◌&&◌, ◌⊎◌, leb, ◌<◌, ◌≤◌, ◌≡◌, ◌≢◌, refl, sym, ap, ◌∙◌, arith,
  Bool, true, false, not, List, [], ◌∷◌, ◌++◌, some, none, take, length, length-append, ltb,
  if◌then◌else◌, ◌==◌, Bool-cases, inl, inr, sub64, ==_false,
}
use pystack.Memory.Maps.{Bytes}
use pystack.Process.{Process, Run, done, ◌>>=◌, catch_remote}
use pystack.Process.ObjectType.{Object, make_object}
use pystack.Process.Runs.{bind-done, same_done, catch_remote-cases}
use pystack.Process.LongObject.{LongObject}
use pystack.Process.Printing.{
  ellipsis, join, limit_output, PythonObject, text, truth, integer, floating, long, tuple, list,
  dict, nothing, generic, to_concrete_object,
}
use pystack.Process.Text.{
  truncated, long_object_text, add_element, format_elements, format_sequence, format_entries,
  enclosed, print_value, object_text, to_string,
}

length-truncated :
    (arg : Bytes) (max_size : ℕ) → 5 < max_size → length (truncated arg max_size) ≤ max_size
unfolding truncated
length-truncated arg max_size h = elim (Bool-cases (ltb max_size (length arg))) [
  | inl e ↦ rw e (
      omega
        (arith, length-append (take (max_size - 3) arg) ellipsis, length-take (max_size - 3) arg))
  | inr e ↦ rw e (ground (arith, e))
]

length-enclosed :
    (left right : ℕ) (inner : Bytes) → length (enclosed left right inner) ≡ length inner + 2
length-enclosed left right inner = omega (arith, length-append inner (right ∷ []))

length-join :
    (element : Bytes) (elements : List Bytes)
    → length (join (element ∷ elements)) ≤ length element + 2 + length (join elements)
unfolding join
length-join element [] = omega arith
length-join element (next ∷ elements) =
    omega (arith, length-append element (b',' ∷ b' ' ∷ join (next ∷ elements)))

-- Elements of at most a size, with what joins them.
abbrev AllFit : (ℕ → Run (List Bytes)) → Type 0
AllFit elements =
    (remaining : ℕ) (texts : List Bytes)
    → 3 ≤ remaining
    → elements remaining ≡ done texts
    → length (join texts) ≤ remaining

add_element-fits :
    (remaining : ℕ) (item_str : Bytes) (elements : ℕ → Run (List Bytes)) (texts : List Bytes)
    → 3 ≤ remaining
    → AllFit elements
    → add_element remaining item_str elements ≡ done texts
    → length (join texts) ≤ remaining
unfolding add_element join
add_element-fits remaining item_str elements texts h ih e =
    elim (Bool-cases (ltb remaining (length item_str + 7))) [
      | inl t ↦ let k = same_done (rw t at e) in rw (sym k) h
      | inr t ↦
          let roomy : length item_str + 7 ≤ remaining = ground (arith, t) in
          let (rest, is, k) =
            bind-done (elements (remaining - (length item_str + 2))) _ texts (rw t at e) in
          let fits = ih (remaining - (length item_str + 2)) rest (omega arith) is in
          let long = length-join item_str rest in
          rw (sym (same_done k)) (omega (arith, fits, long, roomy))
    ]

format_elements-fits :
    (printer : ℕ → ℕ → Run Bytes) (items : List ℕ) → AllFit (format_elements printer items)
unfolding format_elements join
format_elements-fits printer [] remaining texts h e = rw (sym (same_done e)) (omega arith)
format_elements-fits printer (item ∷ items) remaining texts h e =
    let (item_str, _, k) = bind-done (printer remaining item) _ texts e in
    add_element-fits remaining item_str (format_elements printer items) texts h
      (format_elements-fits printer items) k

format_entries-fits :
    (printer : ℕ → ℕ → Run Bytes) (keys values : List ℕ)
    → AllFit (format_entries printer keys values)
unfolding format_entries join
format_entries-fits printer [] values remaining texts h e = rw (sym (same_done e)) (omega arith)
format_entries-fits printer (key ∷ keys) [] remaining texts h e = absurd (cc)
format_entries-fits printer (key ∷ keys) (item ∷ values) remaining texts h e =
    let (key_str, _, k) = bind-done (printer remaining key) _ texts e in
    let (value_str, _, k) = bind-done (printer remaining item) _ texts k in
    add_element-fits remaining (key_str ++ (b':' ∷ b' ' ∷ value_str))
      (format_entries printer keys values) texts h (format_entries-fits printer keys values) k

-- Strings, tuples, lists, dictionaries that could be loaded, None and truth values.
unfoldable pub is_limited : PythonObject → Bool
is_limited (text s) = true
is_limited (truth b) = true
is_limited (integer n) = false
is_limited (floating bits) = false
is_limited (long is_bool l) = is_bool
is_limited (tuple items) = true
is_limited (list items) = true
is_limited (dict none) = false
is_limited (dict (some entries)) = true
is_limited nothing = true
is_limited (generic addr classname) = false

module _ (print_double : ℕ → Bytes) (printer : ℕ → ℕ → Run Bytes) where
  sequence-fits :
      (left right : ℕ) (items : List ℕ) (max_size : ℕ) (s : Bytes)
      → 5 < max_size
      → (format_sequence printer items (max_size - 2) >>= λ inner. done (enclosed left right inner))
        ≡ done s
      → length s ≤ max_size
  unfolding format_sequence
  sequence-fits left right items max_size s h e =
      let (inner, is, k) = bind-done (format_sequence printer items (max_size - 2)) _ s e in
      let (texts, made, j) = bind-done (format_elements printer items (max_size - 2)) _ inner is in
      let fits = format_elements-fits printer items (max_size - 2) texts (omega arith) made in
      let same = ap length (same_done j) in
      let whole = length-enclosed left right inner in
      rw (sym (same_done k)) (omega (arith, fits, same, whole))

  entries-fit :
      (keys values : List ℕ) (max_size : ℕ) (s : Bytes)
      → 5 < max_size
      → (format_entries printer keys values (max_size - 2) >>= λ elements.
          done (enclosed b'{' b'}' (join elements)))
        ≡ done s
      → length s ≤ max_size
  entries-fit keys values max_size s h e =
      let (texts, made, k) = bind-done (format_entries printer keys values (max_size - 2)) _ s e in
      let fits = format_entries-fits printer keys values (max_size - 2) texts (omega arith) made in
      let whole = length-enclosed b'{' b'}' (join texts) in
      rw (sym (same_done k)) (omega (arith, fits, whole))

  at_most :
      (s t : Bytes) (max_size : ℕ) → length s ≤ max_size → done s ≡ done t → length t ≤ max_size
  at_most s t max_size h e = rw (same_done e) at h

  truth_text : (b : Bool) → length {A = ℕ} (if b then b'1' ∷ [] else b'0' ∷ []) ≤ 5
  truth_text true = omega arith
  truth_text false = omega arith

  bool_text : (l : LongObject) (max_size : ℕ) → length (long_object_text true l max_size) ≤ 5
  unfolding long_object_text
  bool_text l max_size = elim (Bool-cases (not l.negative && not (l.magnitude == 0))) [
    | inl e ↦ rw e (omega arith)
    | inr e ↦ rw e (omega arith)
  ]

  print_value-fits :
      (max_size : ℕ) (v : PythonObject) (s : Bytes)
      → 5 < max_size
      → is_limited v ≡ true
      → print_value print_double printer max_size v ≡ done s
      → length s ≤ max_size
  unfolding print_value is_limited
  print_value-fits max_size (text t) s h l e =
      at_most (truncated t max_size) s max_size (length-truncated t max_size h) e
  print_value-fits max_size (truth b) s h l e =
      let short = truth_text b in at_most _ s max_size (omega (arith, short)) e
  print_value-fits max_size (integer n) s h l e = absurd (cc)
  print_value-fits max_size (floating bits) s h l e = absurd (cc)
  print_value-fits max_size (long true n) s h l e =
      let short = bool_text n max_size in
      at_most (long_object_text true n max_size) s max_size (omega (arith, short)) e
  print_value-fits max_size (long false n) s h l e = absurd (cc)
  print_value-fits max_size (tuple items) s h l e = sequence-fits b'(' b')' items max_size s h e
  print_value-fits max_size (list items) s h l e = sequence-fits b'[' b']' items max_size s h e
  print_value-fits max_size (dict none) s h l e = absurd (cc)
  print_value-fits max_size (dict (some (keys, values))) s h l e =
      entries-fit keys values max_size s h e
  print_value-fits max_size nothing s h l e = at_most _ s max_size (omega arith) e
  print_value-fits max_size (generic addr classname) s h l e = absurd (cc)

-- The text of an object that is a string, a tuple, a list, a dictionary that could be loaded, None or a
-- bool has at most the size that is asked for, from 6 on, however long what it holds prints; or, when
-- the reading of what it holds fails, it is the text for such an object.
pub to_string-fits :
    (print_double : ℕ → Bytes) (name_fuel : ℕ) (p : Process) (fuel max_size addr : ℕ) (o : Object)
    (v : PythonObject) (s : Bytes)
    → 5 < max_size
    → make_object name_fuel p addr ≡ done o
    → to_concrete_object p o ≡ done v
    → is_limited v ≡ true
    → to_string print_double name_fuel p (suc fuel) max_size addr ≡ done s
    → (length s ≤ max_size) ⊎ (s ≡ object_text o)
unfolding to_string
to_string-fits print_double name_fuel p fuel max_size addr o v s h is_object is_value limited e =
    let (made, read, k) = bind-done (make_object name_fuel p addr) _ s e in
    let same : made ≡ o = same_done (sym read ∙ is_object) in
    let printer = to_string print_double name_fuel p fuel in
    let k : (if leb max_size 5
          then done ellipsis
          else catch_remote (to_concrete_object p o >>= print_value print_double printer max_size)
              (done (object_text o)))
        ≡ done s =
      rw same at k in
    elim (catch_remote-cases (to_concrete_object p o >>= print_value print_double printer max_size)
      (done (object_text o)) s (past_limit max_size _ s h k)) [
        | inr t ↦ inr (sym (same_done t))
        | inl t ↦
            let (w, is_w, t) = bind-done (to_concrete_object p o) _ s t in
            let value : w ≡ v = same_done (sym is_w ∙ is_value) in
            inl (print_value-fits print_double printer max_size v s h limited (rw value at t))
      ]
  where
    past_limit :
        (m : ℕ) (r : Run Bytes) (s : Bytes)
        → 5 < m
        → (if leb m 5 then done ellipsis else r) ≡ done s
        → r ≡ done s
    past_limit m r s h e = elim (Bool-cases (leb m 5)) [
      | inl t ↦ absurd (ground (arith, t))
      | inr t ↦ rw t at e
    ]

-- A text whose length is not exactly the size stays whole, also when it is longer.
pub limit_output_longer :
    (arg : Bytes) (max_size : ℕ)
    → length arg < 2 ^ 64
    → max_size < 2 ^ 64
    → length arg ≢ max_size
    → limit_output arg max_size ≡ arg
unfolding limit_output sub64
limit_output_longer arg max_size h k ne =
    let e : sub64 max_size (length arg) ≢ 0 = λ z. ne (omega (arith, z)) in
    rw (==_false (sub64 max_size (length arg)) 0 e) refl

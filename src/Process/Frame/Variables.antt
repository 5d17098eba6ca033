-- ===== src/Process/Frame/Variables.antt =====
-- Which variables `resolveLocalVariables` of pyframe.cpp gives.
use pystack.Prelude.{
  ℕ, suc, ◌+◌, ◌*◌, ◌<◌, ◌≤◌, ◌≡◌, ◌≢◌, ◌⊎◌, inl, inr, refl, sym, ap, ◌∙◌, arith, true, Bool-cases,
  some, List, [], ◌∷◌, Member, length, ltb, ltb→lt, ◌==◌, get_elem?,
}
use mathlib.Core.Path.{subst}
use pystack.Memory.Maps.{Bytes}
use pystack.Offsets.Layout.{py_frame_o_localsplus}
use pystack.Process.{Process, Run, done, stop, runtime_error, ◌>>=◌, read, field_address}
use pystack.Process.Runs.{bind-done, same_done}
use pystack.Process.Interpreter.{words_of}
use pystack.Process.CodeObject.{CodeObject}
use pystack.Process.Frame.{Frame}
use pystack.Process.Frame.Locals.{
  Variables, LocalVariables, has_key, insert_variable, untagged, add_local, add_locals, print_local,
  resolve_local_variables,
}

-- A variable that stands at an index: its name, and the text of the object at its word, which is not 0.
abbrev pub StandsAt : Process → (ℕ → Run Bytes) → List Bytes → List ℕ → ℕ → Bytes × Bytes → Type 0
StandsAt p printer names words index variable =
    (get_elem? names index ≡ some variable.0)
    × ((word : ℕ) × (get_elem? words index ≡ some word)
        × (word ≢ 0)
        × (printer (untagged p word) ≡ done variable.1))

module _ (p : Process) (printer : ℕ → Run Bytes) where
  add_local-Member :
      (key : Bytes) (addr : ℕ) (old new : Variables) (variable : Bytes × Bytes)
      → add_local p printer key addr old ≡ done new
      → Member variable new
      → Member variable old
        ⊎ ((addr ≢ 0) × (key ≡ variable.0) × (printer (untagged p addr) ≡ done variable.1))
  unfolding add_local insert_variable
  add_local-Member key addr old new variable h is = elim (Bool-cases (addr == 0)) [
    | inl e ↦
        let f : done old ≡ done new = rw e at h in
        inl (subst (λ vs. Member variable vs) (sym (same_done f)) is)
    | inr e ↦
        let f : (printer (untagged p addr) >>= λ text. done (insert_variable key text old))
            ≡ done new =
          rw e at h in
        let (text, printed, f) = bind-done (printer (untagged p addr)) _ new f in
        let is : Member variable (insert_variable key text old) =
          subst (λ vs. Member variable vs) (sym (same_done f)) is in
        elim (Bool-cases (has_key key old)) [
          | inl g ↦ inl (rw g at is)
          | inr g ↦
              let is : (variable ≡ (key, text)) ⊎ Member variable old = rw g at is in
              elim is [
                | inl same ↦ inr (
                  (λ (z : addr ≡ 0). let w : (addr == 0) ≡ true = rw z refl in cc),
                  sym (ap (λ (v : Bytes × Bytes). v.0) same),
                  printed ∙ ap (λ (v : Bytes × Bytes). done v.1) (sym same),
                )
                | inr is ↦ inl is
              ]
        ]
  ]

  -- A variable that was there, or one of those that the loop has ahead, whose index on the whole keeps a
  -- condition.
  abbrev IsKept : (ℕ → Type 0) → ℕ → List Bytes → List ℕ → Variables → Bytes × Bytes → Type 0
  IsKept Side start names words old v =
      Member v old ⊎ ((index : ℕ) × Side (start + index) × StandsAt p printer names words index v)

  module _ (Side : ℕ → Type 0) (start : ℕ) (key : Bytes) (names : List Bytes) (word : ℕ)
      (words : List ℕ) (v : Bytes × Bytes) where
    ahead :
        (old mid : Variables)
        → (Member v mid → IsKept Side start (key ∷ names) (word ∷ words) old v)
        → IsKept Side (start + 1) names words mid v
        → IsKept Side start (key ∷ names) (word ∷ words) old v
    ahead old mid first (inl is) = first is
    ahead old mid first (inr (index, side, at)) =
        let e : start + 1 + index ≡ start + suc index = omega arith in
        inr (suc index, subst (λ i. Side i) e side, at)

    -- The word of this round is another kind of variable.
    passed :
        (old mid : Variables)
        → mid ≡ old
        → IsKept Side (start + 1) names words mid v
        → IsKept Side start (key ∷ names) (word ∷ words) old v
    passed old mid same h = ahead old mid (λ is. inl (subst (λ vs. Member v vs) same is)) h

    -- The word of this round may be added.
    taken :
        (old mid : Variables)
        → Side start
        → add_local p printer key word old ≡ done mid
        → IsKept Side (start + 1) names words mid v
        → IsKept Side start (key ∷ names) (word ∷ words) old v
    taken old mid side added h =
        ahead old mid
          (λ is. elim (add_local-Member key word old mid v added is) [
            | inl is ↦ inl is
            | inr (nonzero, named, printed) ↦
                let e : start ≡ start + 0 = omega arith in
                inr (0, subst (λ i. Side i) e side, (ap some named, (word, refl, nonzero, printed)))
          ])
          h

  -- What the loop adds, counted from where it starts.
  abbrev Added : ℕ → ℕ → List Bytes → List ℕ → LocalVariables → LocalVariables → Type 0
  Added n_arguments start names words old new =
      ((v : Bytes × Bytes)
        → Member v new.arguments
        → IsKept (λ i. i < n_arguments) start names words old.arguments v)
      × ((v : Bytes × Bytes)
          → Member v new.locals
          → IsKept (λ i. n_arguments ≤ i) start names words old.locals v)

  add_locals-Added :
      (n_arguments start : ℕ) (names : List Bytes) (words : List ℕ) (old new : LocalVariables)
      → add_locals p printer n_arguments start names words old ≡ done new
      → Added n_arguments start names words old new
  unfolding add_locals
  add_locals-Added n_arguments start names [] old new h =
      let same = same_done h in
      (
        (λ v is. inl (subst (λ (x : LocalVariables). Member v x.arguments) (sym same) is)),
        (λ v is. inl (subst (λ (x : LocalVariables). Member v x.locals) (sym same) is)),
      )
  add_locals-Added n_arguments start [] (word ∷ words) old new h = absurd cc
  add_locals-Added n_arguments start (key ∷ names) (word ∷ words) old new h =
      let (mid, step, h) =
        bind-done _ (add_locals p printer n_arguments (start + 1) names words) new h in
      let (args, locs) = add_locals-Added n_arguments (start + 1) names words mid new h in
      elim (Bool-cases (ltb start n_arguments)) [
        | inl e ↦
            let (map', added, step) =
              bind-done (add_local p printer key word old.arguments)
                (λ map'. done (record old { arguments = map' })) mid (rw e at step) in
            let same = sym (same_done step) in
            (
              (λ v is.
                  taken (λ i. i < n_arguments) start key names word words v old.arguments
                    mid.arguments (ltb→lt start n_arguments e)
                    (added ∙ ap (λ (x : LocalVariables). done x.arguments) (sym same)) (args v is)),
              (λ v is.
                  passed (λ i. n_arguments ≤ i) start key names word words v old.locals mid.locals
                    (ap (λ (x : LocalVariables). x.locals) same) (locs v is)),
            )
        | inr e ↦
            let (map', added, step) =
              bind-done (add_local p printer key word old.locals)
                (λ map'. done (record old { locals = map' })) mid (rw e at step) in
            let same = sym (same_done step) in
            (
              (λ v is.
                  passed (λ i. i < n_arguments) start key names word words v old.arguments
                    mid.arguments (ap (λ (x : LocalVariables). x.arguments) same) (args v is)),
              (λ v is.
                  taken (λ i. n_arguments ≤ i) start key names word words v old.locals mid.locals
                    (ground (arith, e))
                    (added ∙ ap (λ (x : LocalVariables). done x.locals) (sym same)) (locs v is)),
            )
      ]

-- The frame's own variables and those of its words that the memory holds.
abbrev pub AreVariables :
    (p : Process) (printer : ℕ → Run Bytes) (code : CodeObject) (buffer : Bytes)
    → LocalVariables
    → Type 0
AreVariables p printer code buffer found =
    ((v : Bytes × Bytes)
      → Member v found.arguments
      → (index : ℕ) × (index < code.narguments)
        × StandsAt p printer code.varnames (words_of (length code.varnames) buffer) index v)
    × ((v : Bytes × Bytes)
        → Member v found.locals
        → (index : ℕ) × (code.narguments ≤ index)
          × StandsAt p printer code.varnames (words_of (length code.varnames) buffer) index v)

-- The variables that a frame with code gets where it has none: there are at least as many names as
-- arguments, and each argument, and each local variable, has a name of the code, among the first or
-- behind them, and the text of the object that its word behind the frame points to, which is not 0.
pub resolve_local_variables-AreVariables :
    (print_double : ℕ → Bytes) (name_fuel fuel : ℕ) (p : Process) (frame : Frame)
    (code : CodeObject) (found : LocalVariables)
    → frame.code ≡ some code
    → resolve_local_variables print_double name_fuel fuel p frame
        (record { arguments = []; locals = [] })
      ≡ done found
    → (code.narguments ≤ length code.varnames)
      × ((buffer : Bytes) × (read p
              (field_address p frame.addr py_frame_o_localsplus)
              (length code.varnames * 8)
            ≡ done buffer)
          × AreVariables p (print_local print_double name_fuel fuel p) code buffer found)
unfolding resolve_local_variables
resolve_local_variables-AreVariables print_double name_fuel fuel p frame code found is h =
    let printer = print_local print_double name_fuel fuel p in
    elim (Bool-cases (ltb (length code.varnames) code.narguments)) [
      | inl e ↦
          absurd (
            let f : stop runtime_error ≡ done found = rw (resolve_local_variables, is, e) at h in
            cc)
      | inr e ↦
          let h : (read p (field_address p frame.addr py_frame_o_localsplus)
                  (length code.varnames * 8)
                >>= λ buffer.
                    add_locals p printer code.narguments 0 code.varnames
                      (words_of (length code.varnames) buffer)
                      (record { arguments = []; locals = [] }))
              ≡ done found =
            rw (resolve_local_variables, is, e) at h in
          let (buffer, copied, h) = bind-done _ _ found h in
          let (args, locs) =
            add_locals-Added p printer code.narguments 0 code.varnames
              (words_of (length code.varnames) buffer) (record { arguments = []; locals = [] })
              found h in
          (
            ground arith,
            (
              buffer,
              copied,
              (
                (λ v m. elim (args v m) [
                  | inl f ↦ absurd f
                  | inr (index, k, at) ↦ (index, omega (arith, k), at)
                ]),
                (λ v m. elim (locs v m) [
                  | inl f ↦ absurd f
                  | inr (index, k, at) ↦ (index, omega (arith, k), at)
                ]),
              ),
            ),
          )
    ]

-- ===== src/Process/Search/PointsBack.antt =====
-- What the test of an address for a state of the interpreter says.
use pystack.Prelude.{
  ℕ, zero, suc, ◌≡◌, ◌≢◌, refl, sym, ap, arith, ◌%◌, ◌&&◌, ==_iff, Bool, true, false, not, Option,
  none, some, List, [], ◌∷◌, ◌==◌, if◌then◌else◌, Bool-cases, inl, inr, ◌⊎◌,
}
use pystack.Memory.Exec.{Failure}
use pystack.Offsets.Layout.{
  py_is, py_is_o_tstate_head, py_is_o_modules, py_is_o_sysdict, py_is_o_builtins, py_thread,
  py_thread_o_interp,
}
use pystack.Process.{
  Process, Run, done, stop, copy_failed, runtime_error, abort, open_behaviour, out_of_fuel,
  invalid_remote_object, catch_all, attempt, read_field, copy_from_remote, is_valid,
}
use pystack.Process.Runs.{bind-done}
use pystack.Process.Interpreter.{
  is_valid_dictionary_object, all_dictionaries, points_back, is_valid_interpreter_state, last_word,
}
use pystack.Process.Search.{or_else}

-- A test that ends the function with false.
unless-done :
    (b : Bool) (x : Run Bool)
    → (if not b then done false else x) ≡ done true
    → (b ≡ true) × (x ≡ done true)
unless-done true x h = (refl, h)
unless-done false x h = absurd (cc)

abbrev value_or_zero : Run ℕ → ℕ
value_or_zero (done a) = a
value_or_zero (stop e) = 0

pub done_same : {a b : ℕ} → done a ≡ done b → a ≡ b
done_same h = ap value_or_zero h

pub or_else-done :
    (r rest : Run ℕ) (addr : ℕ)
    → or_else r rest ≡ done addr
    → ((r ≡ done addr) × (addr ≢ 0)) ⊎ (rest ≡ done addr)
unfolding or_else
or_else-done (stop e) rest addr h = absurd (cc)
or_else-done (done zero) rest addr h = inr h
or_else-done (done (suc n)) rest addr h =
    let e : (suc n == 0) ≡ false = ground arith in
    let k : done (suc n) ≡ done addr = rw e at h in
    inl (k, λ z. absurd (ground (arith, done_same k)))

pub catch_all-done :
    (r : Run ℕ) (addr : ℕ) → addr ≢ 0 → catch_all r (done 0) ≡ done addr → r ≡ done addr
unfolding catch_all
catch_all-done (done a) addr ne h = h
catch_all-done (stop (copy_failed Failure.undefined)) addr ne h = h
catch_all-done (stop (copy_failed Failure.out_of_fuel)) addr ne h = h
catch_all-done (stop (copy_failed e)) addr ne h = absurd (ne (sym (done_same h)))
catch_all-done (stop invalid_remote_object) addr ne h = absurd (ne (sym (done_same h)))
catch_all-done (stop runtime_error) addr ne h = absurd (ne (sym (done_same h)))
catch_all-done (stop abort) addr ne h = absurd (cc)
catch_all-done (stop open_behaviour) addr ne h = absurd (cc)
catch_all-done (stop out_of_fuel) addr ne h = absurd (cc)

pub last_word-done : (size result addr : ℕ) → last_word size result ≡ done addr → result ≡ addr
unfolding last_word
last_word-done size result addr h = elim (Bool-cases (result == 0 && not (size % 8 == 0))) [
  | inl e ↦ absurd (let k : stop open_behaviour ≡ done addr = rw e at h in cc)
  | inr e ↦ done_same (rw e at h)
]

module _ (fuel : ℕ) (p : Process) where
  -- The head of the threads of the state points to a thread that points back to it, and the three
  -- dictionaries are dictionary objects.
  pub record PointsBack (addr : ℕ) : Type 0 where
    pub valid : is_valid p addr ≡ true
    pub thread : ℕ
    pub thread_read : read_field p py_is addr py_is_o_tstate_head ≡ done thread
    pub thread_valid : is_valid p thread ≡ true
    pub interp_read : read_field p py_thread thread py_thread_o_interp ≡ done addr
    pub modules : ℕ
    pub modules_read : read_field p py_is addr py_is_o_modules ≡ done modules
    pub modules_dict : is_valid_dictionary_object fuel p modules ≡ done true
    pub sysdict : ℕ
    pub sysdict_read : read_field p py_is addr py_is_o_sysdict ≡ done sysdict
    pub sysdict_dict : is_valid_dictionary_object fuel p sysdict ≡ done true
    pub builtins : ℕ
    pub builtins_read : read_field p py_is addr py_is_o_builtins ≡ done builtins
    pub builtins_dict : is_valid_dictionary_object fuel p builtins ≡ done true

  all_dictionaries-cons :
      (addr : ℕ) (addrs : List ℕ)
      → all_dictionaries fuel p (addr ∷ addrs) ≡ done true
      → (is_valid_dictionary_object fuel p addr ≡ done true)
        × (all_dictionaries fuel p addrs ≡ done true)
  unfolding all_dictionaries
  all_dictionaries-cons addr addrs h =
      let (valid, e, h) = bind-done (is_valid_dictionary_object fuel p addr) _ true h in
      elim (Bool-cases valid) [
        | inl v ↦ (rw v at e, rw v at h)
        | inr v ↦ absurd (let k : done false ≡ done true = rw v at h in cc)
      ]

  points_back-PointsBack :
      (addr thread : ℕ)
      → is_valid p addr ≡ true
      → is_valid p thread ≡ true
      → read_field p py_is addr py_is_o_tstate_head ≡ done thread
      → points_back fuel p addr thread ≡ done true
      → PointsBack addr
  unfolding points_back
  points_back-PointsBack addr thread valid thread_valid thread_read h =
      let (interp, interp_read, h) =
        bind-done (read_field p py_thread thread py_thread_o_interp) _ true h in
      let (same, h) = unless-done (interp == addr) _ h in
      let back = (==_iff interp addr).0 same in
      let (modules, modules_read, h) =
        bind-done (read_field p py_is addr py_is_o_modules) _ true h in
      let (sysdict, sysdict_read, h) =
        bind-done (read_field p py_is addr py_is_o_sysdict) _ true h in
      let (builtins, builtins_read, h) =
        bind-done (read_field p py_is addr py_is_o_builtins) _ true h in
      let (modules_dict, h) = all_dictionaries-cons modules (sysdict ∷ builtins ∷ []) h in
      let (sysdict_dict, h) = all_dictionaries-cons sysdict (builtins ∷ []) h in
      let (builtins_dict, h) = all_dictionaries-cons builtins [] h in
      record {
        valid = valid;
        thread = thread;
        thread_read = thread_read;
        thread_valid = thread_valid;
        interp_read = rw back at interp_read;
        modules = modules;
        modules_read = modules_read;
        modules_dict = modules_dict;
        sysdict = sysdict;
        sysdict_read = sysdict_read;
        sysdict_dict = sysdict_dict;
        builtins = builtins;
        builtins_read = builtins_read;
        builtins_dict = builtins_dict;
      }

  -- The lambda after a copy that is tried.
  copied-done :
      {A : Type 0} (o : Option A) (x : Run Bool)
      → elim o [ none ↦ done false | some a ↦ x ] ≡ done true
      → x ≡ done true
  copied-done none x h = absurd (cc)
  copied-done (some a) x h = h

  pub state-PointsBack :
      (addr : ℕ) → is_valid_interpreter_state fuel p addr ≡ done true → PointsBack addr
  unfolding is_valid_interpreter_state
  state-PointsBack addr h =
      let (valid, h) = unless-done (is_valid p addr) _ h in
      let (state, state_read, h) = bind-done (attempt (copy_from_remote p py_is addr)) _ true h in
      let h = copied-done state _ h in
      let (thread, thread_read, h) =
        bind-done (read_field p py_is addr py_is_o_tstate_head) _ true h in
      let (thread_valid, h) = unless-done (is_valid p thread) _ h in
      let (state, state_read, h) =
        bind-done (attempt (copy_from_remote p py_thread thread)) _ true h in
      points_back-PointsBack addr thread valid thread_valid thread_read (copied-done state _ h)

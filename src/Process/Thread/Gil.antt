-- ===== src/Process/Thread/Gil.antt =====
-- How many threads hold the lock of an interpreter, as `calculateGilStatus` of pythread.cpp tells.
use pystack.Prelude.{
  ℕ, ◌≡◌, ◌≢◌, refl, sym, ◌∙◌, Bool, true, false, not, ◌&&◌, ◌⊎◌, inl, inr, ◌==◌, if◌then◌else◌,
  ==_iff, ==_false,
}
use pystack.Offsets.Layout.{
  py_thread, py_thread_o_interp, py_is, py_is_o_gil_runtime_state, py_gilruntimestate,
  py_gilruntimestate_o_last_holder, py_gilruntimestate_o_locked, py_runtime,
  py_runtime_o_tstate_current,
}
use pystack.Process.{Process, Run, done, ◌>>=◌, is_at_least, read_field}
use pystack.Process.Interpreter.{runtime_symbol}
use pystack.Process.Runs.{bind-done, same_done}
use pystack.Process.Thread.{GilStatus, held, held_if, gil_of_interpreter, calculate_gil_status}

held_if-true : (b : Bool) → held_if b ≡ held → b ≡ true
held_if-true true h = refl
held_if-true false h = absurd (cc)

and_right : (a b : Bool) → (a && b) ≡ true → b ≡ true
and_right true b h = h
and_right false b h = absurd (cc)

-- The thread that the structure of the lock names.
pub record Holds (p : Process) (interp thread : ℕ) : Type 0 where
  pub gil : ℕ
  pub gil_read : read_field p py_is interp py_is_o_gil_runtime_state ≡ done gil
  pub holder_read :
      read_field p py_gilruntimestate gil py_gilruntimestate_o_last_holder ≡ done thread

module _ (p : Process) where
  interpreter-Holds :
      (thread interp : ℕ)
      → read_field p py_thread thread py_thread_o_interp ≡ done interp
      → gil_of_interpreter p thread ≡ done held
      → Holds p interp thread
  unfolding gil_of_interpreter
  interpreter-Holds thread interp of_thread h =
      let (is_addr, is_read, h) =
        bind-done (read_field p py_thread thread py_thread_o_interp) _ held h in
      let (gil, gil_read, h) =
        bind-done (read_field p py_is is_addr py_is_o_gil_runtime_state) _ held h in
      let (locked, locked_read, h) =
        bind-done (read_field p py_gilruntimestate gil py_gilruntimestate_o_locked) _ held h in
      let (holder, holder_read, h) =
        bind-done (read_field p py_gilruntimestate gil py_gilruntimestate_o_last_holder) _ held h in
      let is = and_right (not (locked == 0)) (holder == thread) (held_if-true _ (same_done h)) in
      let same = same_done (sym is_read ∙ of_thread) in
      record {
        gil = gil;
        gil_read = rw same at gil_read;
        holder_read = holder_read ∙ named holder thread ((==_iff holder thread).0 is);
      }
    where
      named : (a b : ℕ) → a ≡ b → done a ≡ done b
      named a b e = rw e refl

  Holds-same : (interp t u : ℕ) → Holds p interp t → Holds p interp u → t ≡ u
  Holds-same interp t u h k =
      let same = same_done (sym h.gil_read ∙ k.gil_read) in
      same_done (sym h.holder_read ∙ (rw same k.holder_read))

  runtime-holds :
      (pyruntime t : ℕ)
      → (read_field p py_runtime pyruntime py_runtime_o_tstate_current >>= λ tstate.
          done (held_if (tstate == t)))
        ≡ done held
      → read_field p py_runtime pyruntime py_runtime_o_tstate_current ≡ done t
  runtime-holds pyruntime t h =
      let (tstate, is, h) =
        bind-done (read_field p py_runtime pyruntime py_runtime_o_tstate_current) _ held h in
      let e = (==_iff tstate t).0 (held_if-true _ (same_done h)) in rw e at is

  -- The status is what the branch for the version says.
  new_branch :
      (pyruntime t : ℕ) (n o : Bool) (x y z w : Run GilStatus)
      → (pyruntime == 0) ≡ false
      → (if not (pyruntime == 0) then (if n then x else if o then y else z) else w) ≡ done held
      → o ≡ true
      → ((n ≡ true) × (x ≡ done held)) ⊎ ((n ≡ false) × (y ≡ done held))
  new_branch pyruntime t true o x y z w e h old = inl (refl, rw e at h)
  new_branch pyruntime t false true x y z w e h old = inr (refl, rw e at h)
  new_branch pyruntime t false false x y z w e h old = absurd (cc)

status-held :
    (p : Process) (t : ℕ)
    → p.find_symbol runtime_symbol ≢ 0
    → is_at_least p 3 8 ≡ true
    → calculate_gil_status p t ≡ done held
    → ((is_at_least p 3 12 ≡ true) × (gil_of_interpreter p t ≡ done held))
      ⊎ ((is_at_least p 3 12 ≡ false)
          × (read_field p py_runtime (p.find_symbol runtime_symbol) py_runtime_o_tstate_current
              ≡ done t))
unfolding calculate_gil_status
status-held p t known new h =
    let split =
      new_branch p (p.find_symbol runtime_symbol) t (is_at_least p 3 12) (is_at_least p 3 8)
        (gil_of_interpreter p t) _ _ _ (==_false _ 0 known) h new in
    elim split [
      | inl a ↦ inl a
      | inr (n, y) ↦ inr (n, runtime-holds p (p.find_symbol runtime_symbol) t y)
    ]

-- From Python 3.8 on, where the symbol of the runtime is known, no two threads of one interpreter are said
-- to hold its lock.
pub calculate_gil_status_unique :
    (p : Process) (interp t u : ℕ)
    → p.find_symbol runtime_symbol ≢ 0
    → is_at_least p 3 8 ≡ true
    → read_field p py_thread t py_thread_o_interp ≡ done interp
    → read_field p py_thread u py_thread_o_interp ≡ done interp
    → calculate_gil_status p t ≡ done held
    → calculate_gil_status p u ≡ done held
    → t ≡ u
calculate_gil_status_unique p interp t u known new of_t of_u held_t held_u =
    elim (status-held p t known new held_t) [
      | inl (n, x) ↦ elim (status-held p u known new held_u) [
        | inl (_, y) ↦
            Holds-same p interp t u (interpreter-Holds p t interp of_t x)
              (interpreter-Holds p u interp of_u y)
        | inr (m, y) ↦ absurd (let k = sym n ∙ m in cc)
      ]
      | inr (n, x) ↦ elim (status-held p u known new held_u) [
        | inl (m, y) ↦ absurd (let k = sym n ∙ m in cc)
        | inr (_, y) ↦ same_done (sym x ∙ y)
      ]
    ]

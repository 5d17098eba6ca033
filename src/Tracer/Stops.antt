-- ===== src/Tracer/Stops.antt =====
-- What the constructor of `ProcessTracer` in process.cpp leaves behind, however it ends.
use pystack.Prelude.{
  ℕ, zero, suc, ◌+◌, ◌≡◌, refl, ap, ◌∙◌, Bool, true, false, not, ◌||◌, some, List, [], ◌∷◌, arith,
  ◌==◌, inl, inr, Bool-cases, Option-cases, ==_iff,
}
use pystack.Tracer.{
  Kernel, ProcessTracer, empty, no_child, contains, find_error, waited, stop_thread, Outcome,
  returned, threw, not_listed, out_of_fuel, Round, ended, failed, stop_all, after_round,
  stop_process, process_tracer,
}
use pystack.Tracer.Traced.{
  traced, IsKnown, IsReleased, detach-IsKnown, detach-IsReleased, stop_thread-IsKnown,
}

abbrev IsRoundSafe : Round → Type 0
IsRoundSafe (ended found s) = IsKnown s
IsRoundSafe (failed s e) = IsKnown s × IsReleased s

-- Only known threads are traced; and when there is an exception about a thread, only those that the
-- kernel refused to let go.
abbrev pub IsSafe : Outcome → Type 0
IsSafe (returned s) = IsKnown s
IsSafe (threw s e) = IsKnown s × IsReleased s
IsSafe (not_listed s) = IsKnown s
IsSafe (out_of_fuel s) = IsKnown s

module _ (k : Kernel) (pid : ℕ) where
  stop_all-IsRoundSafe :
      (round : ℕ) (tids : List ℕ) (found : Bool) (s : ProcessTracer)
      → IsKnown s
      → IsRoundSafe (stop_all k pid round tids found s)
  unfolding stop_all
  stop_all-IsRoundSafe round [] found s known = known
  stop_all-IsRoundSafe round (tid ∷ tids) found s known = elim (Bool-cases (contains tid s.tids)) [
    | inl old ↦ rw (old, stop_all) (stop_all-IsRoundSafe round tids found s known)
    | inr new ↦ elim (Option-cases (find_error tid s.error_by_tid)) [
      | inr (e, error) ↦
          rw (new, stop_all, error) (detach-IsKnown k s known, detach-IsReleased k s known)
      | inl fresh ↦
          rw (new, stop_all, fresh)
            (stop_all-IsRoundSafe round tids true (stop_thread k pid round tid s)
              (stop_thread-IsKnown k pid round tid s known))
    ]
  ]

  after_round-IsSafe :
      (again : ProcessTracer → Outcome) (r : Round)
      → ((s : ProcessTracer) → IsKnown s → IsSafe (again s))
      → IsRoundSafe r
      → IsSafe (after_round again r)
  unfolding after_round
  after_round-IsSafe again (failed s e) ih h = h
  after_round-IsSafe again (ended false s) ih h = h
  after_round-IsSafe again (ended true s) ih h = ih s h

  stop_process-IsSafe :
      (fuel round : ℕ) (s : ProcessTracer) → IsKnown s → IsSafe (stop_process fuel k pid round s)
  unfolding stop_process
  stop_process-IsSafe zero round s known = known
  stop_process-IsSafe (suc fuel) round s known = elim (Option-cases (k.tasks round)) [
    | inl e ↦ rw (e, stop_process) known
    | inr (tids, e) ↦
        rw (e, stop_process)
          (after_round-IsSafe (stop_process fuel k pid (round + 1))
            (stop_all k pid round tids false s) (stop_process-IsSafe fuel (round + 1))
            (stop_all-IsRoundSafe round tids false s known))
  ]

-- However the constructor ends, no thread is traced that is not in its set. When it throws the error of
-- a thread, the last thing done about each thread that is still traced is a detach that the kernel
-- refused.
pub process_tracer-IsSafe : (fuel : ℕ) (k : Kernel) (pid : ℕ) → IsSafe (process_tracer fuel k pid)
unfolding process_tracer traced
process_tracer-IsSafe fuel k pid =
    stop_process-IsSafe k pid fuel 0 empty (λ tid h. absurd (ground arith))

-- `waitpid` succeeds, or fails with ECHILD on another thread than the main one.
abbrev pub WaitsFine : Kernel → ℕ → Type 0
WaitsFine k pid =
    (round tid e : ℕ) → k.wait round tid ≡ some e → (tid == pid || not (e == no_child)) ≡ false

-- All threads of the set are traced.
abbrev pub IsHeld : ProcessTracer → Type 0
IsHeld s = (tid : ℕ) → contains tid s.tids ≡ true → traced tid s.calls ≡ true

-- The rounds that the constructor runs, from the first one on: each but the last lists the threads and
-- finds one that is new.
pub data Ran (k : Kernel) (pid : ℕ) : ℕ → ProcessTracer → Type 0 where
  first : Ran k pid 0 empty
  next :
      (round : ℕ) (tids : List ℕ) (s s' : ProcessTracer)
      → Ran k pid round s
      → k.tasks round ≡ some tids
      → stop_all k pid round tids false s ≡ ended true s'
      → Ran k pid (round + 1) s'

-- After rounds that found new threads there was one that found none, and all threads that it lists are
-- traced.
pub record IsStopped (k : Kernel) (pid : ℕ) (s : ProcessTracer) : Type 0 where
  pub round : ℕ
  pub tids : List ℕ
  pub ran : Ran k pid round s
  pub listed : k.tasks round ≡ some tids
  pub quiet : stop_all k pid round tids false s ≡ ended false s
  pub stopped : (tid : ℕ) → contains tid tids ≡ true → traced tid s.calls ≡ true

module _ (k : Kernel) (pid : ℕ) (fine : WaitsFine k pid) where
  stop_thread-IsHeld :
      (round tid : ℕ) (s : ProcessTracer) → IsHeld s → IsHeld (stop_thread k pid round tid s)
  unfolding stop_thread waited traced contains
  stop_thread-IsHeld round tid s held t h = elim (Option-cases (k.attach round tid)) [
    | inr (e, refused) ↦ ground (arith, held t)
    | inl granted ↦ elim (Option-cases (k.wait round tid)) [
      | inl ok ↦ ground (arith, held t)
      | inr (e, bad) ↦ ground (arith, held t, fine round tid e bad)
    ]
  ]

  abbrev IsRoundHeld : Round → Type 0
  IsRoundHeld (ended found s) = IsHeld s
  IsRoundHeld (failed s e) = Unit

  stop_all-IsRoundHeld :
      (round : ℕ) (tids : List ℕ) (found : Bool) (s : ProcessTracer)
      → IsHeld s
      → IsRoundHeld (stop_all k pid round tids found s)
  unfolding stop_all
  stop_all-IsRoundHeld round [] found s held = held
  stop_all-IsRoundHeld round (tid ∷ tids) found s held = elim (Bool-cases (contains tid s.tids)) [
    | inl old ↦ rw (old, stop_all) (stop_all-IsRoundHeld round tids found s held)
    | inr new ↦ elim (Option-cases (find_error tid s.error_by_tid)) [
      | inr (e, error) ↦ rw (new, stop_all, error) tt
      | inl fresh ↦
          rw (new, stop_all, fresh)
            (stop_all-IsRoundHeld round tids true (stop_thread k pid round tid s)
              (stop_thread-IsHeld round tid s held))
    ]
  ]

  -- A round that has found a thread does not end as one that has found none.
  abbrev HasFound : Round → Type 0
  HasFound (ended false s) = ⊥
  HasFound (ended true s) = Unit
  HasFound (failed s e) = Unit

  stop_all-HasFound :
      (round : ℕ) (tids : List ℕ) (s : ProcessTracer) → HasFound (stop_all k pid round tids true s)
  unfolding stop_all
  stop_all-HasFound round [] s = tt
  stop_all-HasFound round (tid ∷ tids) s = elim (Bool-cases (contains tid s.tids)) [
    | inl old ↦ rw (old, stop_all) (stop_all-HasFound round tids s)
    | inr new ↦ elim (Option-cases (find_error tid s.error_by_tid)) [
      | inr (e, error) ↦ rw (new, stop_all, error) tt
      | inl fresh ↦
          rw (new, stop_all, fresh) (stop_all-HasFound round tids (stop_thread k pid round tid s))
    ]
  ]

  -- A round that finds none changes nothing, and had all threads of the listing before.
  abbrev IsQuiet : List ℕ → ProcessTracer → Round → Type 0
  IsQuiet tids s (ended false s') =
      (s' ≡ s) × ((tid : ℕ) → contains tid tids ≡ true → contains tid s.tids ≡ true)
  IsQuiet tids s (ended true s') = Unit
  IsQuiet tids s (failed s' e) = Unit

  IsQuiet-cons :
      (tid : ℕ) (tids : List ℕ) (s : ProcessTracer) (r : Round)
      → contains tid s.tids ≡ true
      → IsQuiet tids s r
      → IsQuiet (tid ∷ tids) s r
  unfolding contains
  IsQuiet-cons tid tids s (ended false s') old q = (q.0, λ t h. ground (arith, q.1 t, ==_iff t tid))
  IsQuiet-cons tid tids s (ended true s') old q = tt
  IsQuiet-cons tid tids s (failed s' e) old q = tt

  found-IsQuiet : (tids : List ℕ) (s : ProcessTracer) (r : Round) → HasFound r → IsQuiet tids s r
  found-IsQuiet tids s (ended false s') h = absurd h
  found-IsQuiet tids s (ended true s') h = tt
  found-IsQuiet tids s (failed s' e) h = tt

  stop_all-IsQuiet :
      (round : ℕ) (tids : List ℕ) (s : ProcessTracer)
      → IsQuiet tids s (stop_all k pid round tids false s)
  unfolding stop_all contains
  stop_all-IsQuiet round [] s = (refl, λ t h. absurd (ground arith))
  stop_all-IsQuiet round (tid ∷ tids) s = elim (Bool-cases (contains tid s.tids)) [
    | inl old ↦
        rw (old, stop_all)
          (IsQuiet-cons tid tids s (stop_all k pid round tids false s) old
            (stop_all-IsQuiet round tids s))
    | inr new ↦ elim (Option-cases (find_error tid s.error_by_tid)) [
      | inr (e, error) ↦ rw (new, stop_all, error) tt
      | inl fresh ↦
          rw (new, stop_all, fresh)
            (found-IsQuiet (tid ∷ tids) s
              (stop_all k pid round tids true (stop_thread k pid round tid s))
              (stop_all-HasFound round tids (stop_thread k pid round tid s)))
    ]
  ]

  -- A tracer that is returned holds all threads of the last listing.
  abbrev IsComplete : Outcome → Type 0
  IsComplete (returned s) = IsStopped k pid s
  IsComplete (threw s e) = Unit
  IsComplete (not_listed s) = Unit
  IsComplete (out_of_fuel s) = Unit

  after_round-IsComplete :
      (again : ProcessTracer → Outcome) (round : ℕ) (tids : List ℕ) (s : ProcessTracer) (r : Round)
      → stop_all k pid round tids false s ≡ r
      → Ran k pid round s
      → k.tasks round ≡ some tids
      → IsHeld s
      → ((s : ProcessTracer) → Ran k pid (round + 1) s → IsHeld s → IsComplete (again s))
      → IsRoundHeld r
      → IsQuiet tids s r
      → IsComplete (after_round again r)
  unfolding after_round
  after_round-IsComplete again round tids s (failed s' e) run ran listed held ih h q = tt
  after_round-IsComplete again round tids s (ended true s') run ran listed held ih h q =
      ih s' (next round tids s s' ran listed run) h
  after_round-IsComplete again round tids s (ended false s') run ran listed held ih h q =
      rw q.0 (record {
        round = round;
        tids = tids;
        ran = ran;
        listed = listed;
        quiet = run ∙ ap (ended false) q.0;
        stopped = λ tid there. held tid (q.1 tid there);
      })

  stop_process-IsComplete :
      (fuel round : ℕ) (s : ProcessTracer)
      → Ran k pid round s
      → IsHeld s
      → IsComplete (stop_process fuel k pid round s)
  unfolding stop_process
  stop_process-IsComplete zero round s ran held = tt
  stop_process-IsComplete (suc fuel) round s ran held = elim (Option-cases (k.tasks round)) [
    | inl e ↦ rw (e, stop_process) tt
    | inr (tids, e) ↦
        rw (e, stop_process)
          (after_round-IsComplete (stop_process fuel k pid (round + 1)) round tids s
            (stop_all k pid round tids false s) refl ran e held
            (stop_process-IsComplete fuel (round + 1))
            (stop_all-IsRoundHeld round tids false s held) (stop_all-IsQuiet round tids s))
  ]

  -- Where `waitpid` succeeds, or fails with ECHILD on another thread than the main one, a tracer that the
  -- constructor returns has come through rounds that each found a new thread to one that found none, and
  -- all threads that this last round lists are traced.
  pub process_tracer-IsStopped :
      (fuel : ℕ) (s : ProcessTracer) → process_tracer fuel k pid ≡ returned s → IsStopped k pid s
  unfolding process_tracer contains
  process_tracer-IsStopped fuel s h =
      rw h at (stop_process-IsComplete fuel 0 empty first (λ tid e. absurd (ground arith)))

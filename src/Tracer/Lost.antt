-- ===== src/Tracer/Lost.antt =====
-- The branch of the constructor of `ProcessTracer` in process.cpp that detaches and goes on.
use pystack.Prelude.{
  ℕ, ◌≡◌, refl, ap, ◌∙◌, Bool, true, false, Option, none, some, [], ◌∷◌, arith, ==_refl,
}
use pystack.Tracer.{
  Kernel, ProcessTracer, attached, empty, contains, find_error, detach_answer, detach_all,
  detach_from_process, waited, insert, stop_thread, returned, ended, stop_all, after_round,
  stop_process, process_tracer,
}
use pystack.Tracer.Traced.{traced}

-- The tracer of a process of one thread, after `waitpid` failed.
lost : Kernel → ℕ → ProcessTracer
unfolding detach_from_process
lost k pid = detach_from_process k (insert pid empty)

unfoldable pub is_error : Option ℕ → Bool
is_error none = false
is_error (some e) = true

lost-traced : (k : Kernel) (pid : ℕ) → traced pid (lost k pid).calls ≡ is_error (k.detach 1 pid)
unfolding lost detach_from_process detach_all traced is_error
lost-traced k pid = after (k.detach 1 pid)
  where
    after :
        (answer : Option ℕ)
        → traced pid (detach_answer pid answer ∷ attached pid ∷ []) ≡ is_error answer
    after none = ground (arith, ==_refl pid)
    after (some e) = ground (arith, ==_refl pid)

module _ (k : Kernel) (pid e : ℕ) (one : (round : ℕ) → k.tasks round ≡ some (pid ∷ []))
    (granted : k.attach 0 pid ≡ none) (failing : k.wait 0 pid ≡ some e) where
  first_stop : stop_thread k pid 0 pid empty ≡ lost k pid
  unfolding stop_thread waited lost
  first_stop = rw (granted, stop_thread, failing, ==_refl pid) refl

  first_round : stop_all k pid 0 (pid ∷ []) false empty ≡ ended true (lost k pid)
  unfolding stop_all contains find_error
  first_round = rw first_stop refl

  second_round : stop_all k pid 1 (pid ∷ []) false (lost k pid) ≡ ended false (lost k pid)
  unfolding stop_all contains lost detach_from_process
  second_round = rw (==_refl pid, stop_all) refl

  second_pass : stop_process 1 k pid 1 (lost k pid) ≡ returned (lost k pid)
  unfolding stop_process after_round
  second_pass = rw (one 1, stop_process, second_round) refl

  first_pass : stop_process 2 k pid 0 empty ≡ returned (lost k pid)
  first_pass = opened ∙ ap (after_round (stop_process 1 k pid 1)) first_round ∙ again
    where
      opened :
          stop_process 2 k pid 0 empty
          ≡ after_round (stop_process 1 k pid 1) (stop_all k pid 0 (pid ∷ []) false empty)
      opened = unfold stop_process in rw (one 0, stop_process) refl

      again : after_round (stop_process 1 k pid 1) (ended true (lost k pid)) ≡ returned (lost k pid)
      again = unfold after_round in second_pass

-- In a process of one thread where `waitpid` fails after `ptrace` has attached, the constructor returns
-- a tracer whose set has the thread, as if it was stopped. The thread is no longer traced where the
-- detach that follows succeeds, and is traced, though not waited for, where that fails too.
pub process_tracer_loses :
    (k : Kernel) (pid e : ℕ)
    → ((round : ℕ) → k.tasks round ≡ some (pid ∷ []))
    → k.attach 0 pid ≡ none
    → k.wait 0 pid ≡ some e
    → (s : ProcessTracer) × (process_tracer 2 k pid ≡ returned s)
      × (contains pid s.tids ≡ true)
      × (traced pid s.calls ≡ is_error (k.detach 1 pid))
unfolding process_tracer contains lost detach_from_process
process_tracer_loses k pid e one granted failing =
    (lost k pid, first_pass k pid e one granted failing, rw (==_refl pid) refl, lost-traced k pid)

-- ===== src/Tracer/Tests.antt =====
-- Two processes: one that starts a thread while it is stopped, and one with a thread that cannot be traced.
use pystack.Prelude.{◌≡◌, refl, true, none, some, [], ◌∷◌, arith, ◌==◌, if◌then◌else◌}
use pystack.Tracer.{
  Kernel, ProcessTracer, attached, detached, contains, returned, threw, process_tracer,
  stop_process, stop_all, after_round, stop_thread, waited, find_error, detach_from_process,
  detach_all,
}
use pystack.Tracer.Traced.{traced}
use pystack.Tracer.Stops.{
  IsSafe, process_tracer-IsSafe, WaitsFine, IsStopped, process_tracer-IsStopped,
}
use pystack.Tracer.Ends.{ListsWithin, HasEnded, process_tracer-HasEnded}
use pystack.Tracer.Lost.{is_error, process_tracer_loses}

abbrev grows : Kernel
grows = record {
  tasks = λ round. some (if round == 0 then 10 ∷ [] else 10 ∷ 11 ∷ []);
  attach = λ round tid. none;
  wait = λ round tid. none;
  detach = λ calls tid. none;
}

abbrev both : ProcessTracer
both = record { tids = 11 ∷ 10 ∷ []; error_by_tid = []; calls = attached 11 ∷ attached 10 ∷ [] }

grows_run : process_tracer 3 grows 10 ≡ returned both
unfolding process_tracer stop_process stop_all after_round stop_thread waited find_error contains
grows_run = refl

grows-WaitsFine : WaitsFine grows 10
grows-WaitsFine round tid e h = absurd (ground arith)

process_tracer-IsStopped_example : IsStopped grows 10 both
process_tracer-IsStopped_example =
    process_tracer-IsStopped grows 10 grows-WaitsFine 3 both grows_run

grows-ListsWithin : ListsWithin grows (10 ∷ 11 ∷ [])
unfolding contains
grows-ListsWithin round tids listed tid there = ground arith

process_tracer-HasEnded_example : HasEnded (process_tracer 3 grows 10)
process_tracer-HasEnded_example = process_tracer-HasEnded grows 10 (10 ∷ 11 ∷ []) grows-ListsWithin

-- The second thread cannot be traced, with EPERM.
abbrev denied : Kernel
denied = record {
  tasks = λ round. some (10 ∷ 11 ∷ []);
  attach = λ round tid. if tid == 11 then some 1 else none;
  wait = λ round tid. none;
  detach = λ calls tid. none;
}

denied_run :
    process_tracer 3 denied 10
    ≡ threw
        (record {
          tids = 10 ∷ [];
          error_by_tid = (11, 1) ∷ [];
          calls = detached 10 ∷ attached 10 ∷ [];
        })
        1
unfolding process_tracer stop_process stop_all after_round stop_thread waited find_error contains
    detach_from_process detach_all
denied_run = refl

process_tracer-IsSafe_example : IsSafe (process_tracer 3 denied 10)
process_tracer-IsSafe_example = process_tracer-IsSafe 3 denied 10

-- `waitpid` fails, and so does the detach.
abbrev unwaited : Kernel
unwaited = record {
  tasks = λ round. some (10 ∷ []);
  attach = λ round tid. none;
  wait = λ round tid. some 22;
  detach = λ calls tid. some 3;
}

process_tracer_loses_example :
    (s : ProcessTracer) × (process_tracer 2 unwaited 10 ≡ returned s)
    × (contains 10 s.tids ≡ true)
    × (traced 10 s.calls ≡ is_error (unwaited.detach 1 10))
process_tracer_loses_example = process_tracer_loses unwaited 10 22 (λ round. refl) refl refl

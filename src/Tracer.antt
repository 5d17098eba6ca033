-- ===== src/Tracer.antt =====
-- `ProcessTracer` of process.h and process.cpp: stop every thread of the process. What /proc lists and
-- what `ptrace` and `waitpid` answer is a parameter, and may differ from call to call.
pub mod Traced
pub mod Stops
pub mod Ends
pub mod Lost
mod Tests
use pystack.Prelude.{
  ℕ, zero, suc, ◌+◌, Bool, true, false, not, ◌||◌, Option, none, some, List, [], ◌∷◌, length, ◌==◌,
  if◌then◌else◌,
}

-- ECHILD
abbrev pub no_child : ℕ
no_child = 10

pub record Kernel : Type 0 where
  -- `getProcessTids` in a round; `none` is its exception
  pub tasks : ℕ → Option (List ℕ)
  -- `ptrace(PTRACE_ATTACH)`, given the round and the thread: the error, if any
  pub attach : ℕ → ℕ → Option ℕ
  -- `waitpid`, likewise
  pub wait : ℕ → ℕ → Option ℕ
  -- `ptrace(PTRACE_DETACH)`, given the number of calls made before and the thread
  pub detach : ℕ → ℕ → Option ℕ

-- The calls of `ptrace` about a thread that is in `d_tids`; the last one is a detach that failed.
pub data Ptrace : Type 0 where
  attached detached refused : ℕ → Ptrace

-- `d_tids` and `error_by_tid`, and the calls made so far, newest first.
pub record ProcessTracer : Type 0 where
  pub tids : List ℕ
  pub error_by_tid : List (ℕ × ℕ)
  pub calls : List Ptrace

abbrev pub empty : ProcessTracer
empty = record { tids = []; error_by_tid = []; calls = [] }

unfoldable pub contains : ℕ → List ℕ → Bool
contains tid [] = false
contains tid (t ∷ tids) = tid == t || contains tid tids

unfoldable pub find_error : ℕ → List (ℕ × ℕ) → Option ℕ
find_error tid [] = none
find_error tid ((t, e) ∷ errors) = if tid == t then some e else find_error tid errors

abbrev pub detach_answer : ℕ → Option ℕ → Ptrace
detach_answer tid none = detached tid
detach_answer tid (some e) = refused tid

-- One call after the other; a call that fails is passed over.
unfoldable pub detach_all : Kernel → List ℕ → List Ptrace → List Ptrace
detach_all k [] calls = calls
detach_all k (tid ∷ tids) calls =
    let before = detach_all k tids calls in
    detach_answer tid (k.detach (length before) tid) ∷ before

unfoldable pub detach_from_process : Kernel → ProcessTracer → ProcessTracer
unfolding detach_all
detach_from_process k s = record s { calls = detach_all k s.tids s.calls }

-- After `waitpid`.
unfoldable pub waited : Kernel → ℕ → ℕ → Option ℕ → ProcessTracer → ProcessTracer
unfolding detach_from_process
waited k pid tid none s = s
waited k pid tid (some e) s =
    if tid == pid || not (e == no_child) then detach_from_process k s else s

abbrev pub insert : ℕ → ProcessTracer → ProcessTracer
insert tid s = record s { tids = tid ∷ s.tids; calls = attached tid ∷ s.calls }

-- Attach to a thread that is new.
unfoldable pub stop_thread : Kernel → ℕ → ℕ → ℕ → ProcessTracer → ProcessTracer
unfolding waited
stop_thread k pid round tid s = elim (k.attach round tid) [
  | some e ↦ record s { error_by_tid = (tid, e) ∷ s.error_by_tid }
  | none ↦ waited k pid tid (k.wait round tid) (insert tid s)
]

-- The constructor returns, throws the error of a thread, or lets the exception of the listing through.
pub data Outcome : Type 0 where
  returned : ProcessTracer → Outcome
  threw : ProcessTracer → ℕ → Outcome
  not_listed : ProcessTracer → Outcome
  out_of_fuel : ProcessTracer → Outcome

-- The `for` loop ends with `found_new_tid`, or throws.
pub data Round : Type 0 where
  ended : Bool → ProcessTracer → Round
  failed : ProcessTracer → ℕ → Round

unfoldable pub stop_all : Kernel → ℕ → ℕ → List ℕ → Bool → ProcessTracer → Round
unfolding contains find_error stop_thread detach_from_process
stop_all k pid round [] found_new_tid s = ended found_new_tid s
stop_all k pid round (tid ∷ tids) found_new_tid s = elim (contains tid s.tids) [
  | true ↦ stop_all k pid round tids found_new_tid s
  | false ↦ elim (find_error tid s.error_by_tid) [
    | some e ↦ failed (detach_from_process k s) e
    | none ↦ stop_all k pid round tids true (stop_thread k pid round tid s)
  ]
]

-- The test of the `while` loop.
unfoldable pub after_round : (ProcessTracer → Outcome) → Round → Outcome
after_round again (failed s e) = threw s e
after_round again (ended false s) = returned s
after_round again (ended true s) = again s

-- The `while` loop, with fuel.
unfoldable pub stop_process : ℕ → Kernel → ℕ → ℕ → ProcessTracer → Outcome
unfolding stop_all after_round
stop_process zero k pid round s = out_of_fuel s
stop_process (suc fuel) k pid round s = elim (k.tasks round) [
  | none ↦ not_listed s
  | some tids ↦
      after_round (stop_process fuel k pid (round + 1)) (stop_all k pid round tids false s)
]

unfoldable pub process_tracer : ℕ → Kernel → ℕ → Outcome
unfolding stop_process
process_tracer fuel k pid = stop_process fuel k pid 0 empty

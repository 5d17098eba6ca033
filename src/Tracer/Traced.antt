-- ===== src/Tracer/Traced.antt =====
-- Which threads are traced after the calls of `ProcessTracer` in process.cpp.
use pystack.Prelude.{
  ℕ, ◌≡◌, Bool, true, false, not, ◌||◌, Option, none, some, List, [], ◌∷◌, length, arith, ◌==◌,
  if◌then◌else◌, inl, inr, Bool-cases, Option-cases,
}
use pystack.Tracer.{
  Kernel, Ptrace, attached, detached, refused, detach_answer, detach_all, ProcessTracer, contains,
  detach_from_process, waited, insert, no_child, stop_thread,
}

-- The last call about the thread that did not fail attached it; the newest call stands first.
unfoldable pub traced : ℕ → List Ptrace → Bool
traced tid [] = false
traced tid (attached t ∷ calls) = tid == t || traced tid calls
traced tid (detached t ∷ calls) = if tid == t then false else traced tid calls
traced tid (refused t ∷ calls) = traced tid calls

-- The last call about the thread is a detach that failed.
unfoldable pub was_refused : ℕ → List Ptrace → Bool
was_refused tid [] = false
was_refused tid (attached t ∷ calls) = if tid == t then false else was_refused tid calls
was_refused tid (detached t ∷ calls) = if tid == t then false else was_refused tid calls
was_refused tid (refused t ∷ calls) = tid == t || was_refused tid calls

-- Only threads of `d_tids` are traced.
abbrev pub IsKnown : ProcessTracer → Type 0
IsKnown s = (tid : ℕ) → traced tid s.calls ≡ true → contains tid s.tids ≡ true

-- The last thing done about each thread that is still traced is a detach that the kernel refused.
abbrev pub IsReleased : ProcessTracer → Type 0
IsReleased s = (tid : ℕ) → traced tid s.calls ≡ true → was_refused tid s.calls ≡ true

module _ (k : Kernel) where
  traced_before :
      (tid t : ℕ) (answer : Option ℕ) (calls : List Ptrace)
      → traced tid (detach_answer t answer ∷ calls) ≡ true
      → traced tid calls ≡ true
  unfolding traced
  traced_before tid t none calls h = ground arith
  traced_before tid t (some e) calls h = h

  detach_all-traced :
      (tid : ℕ) (tids : List ℕ) (calls : List Ptrace)
      → traced tid (detach_all k tids calls) ≡ true
      → traced tid calls ≡ true
  unfolding detach_all
  detach_all-traced tid [] calls h = h
  detach_all-traced tid (t ∷ tids) calls h = detach_all-traced tid tids calls (
      traced_before tid t (k.detach (length (detach_all k tids calls)) t) (detach_all k tids calls)
        h)

  was_refused_now :
      (tid t : ℕ) (answer : Option ℕ) (tids : List ℕ) (calls : List Ptrace)
      → traced tid (detach_answer t answer ∷ calls) ≡ true
      → contains tid (t ∷ tids) ≡ true
      → (contains tid tids ≡ true → was_refused tid calls ≡ true)
      → was_refused tid (detach_answer t answer ∷ calls) ≡ true
  unfolding traced was_refused contains
  was_refused_now tid t none tids calls h there ih = ground (arith, ih)
  was_refused_now tid t (some e) tids calls h there ih = ground (arith, ih)

  detach_all-was_refused :
      (tid : ℕ) (tids : List ℕ) (calls : List Ptrace)
      → traced tid (detach_all k tids calls) ≡ true
      → contains tid tids ≡ true
      → was_refused tid (detach_all k tids calls) ≡ true
  unfolding detach_all contains
  detach_all-was_refused tid [] calls h there = absurd cc
  detach_all-was_refused tid (t ∷ tids) calls h there =
      let before = detach_all k tids calls in
      let answer = k.detach (length before) t in
      was_refused_now tid t answer tids before h (unfold contains in there)
        (detach_all-was_refused tid tids calls (traced_before tid t answer before h))

  pub detach-IsReleased : (s : ProcessTracer) → IsKnown s → IsReleased (detach_from_process k s)
  unfolding detach_from_process
  detach-IsReleased s known tid h =
      detach_all-was_refused tid s.tids s.calls h
        (known tid (detach_all-traced tid s.tids s.calls h))

  pub detach-IsKnown : (s : ProcessTracer) → IsKnown s → IsKnown (detach_from_process k s)
  unfolding detach_from_process
  detach-IsKnown s known tid h = known tid (detach_all-traced tid s.tids s.calls h)

  waited-IsKnown :
      (pid tid : ℕ) (answer : Option ℕ) (s : ProcessTracer)
      → IsKnown s
      → IsKnown (waited k pid tid answer s)
  unfolding waited
  waited-IsKnown pid tid none s known = known
  waited-IsKnown pid tid (some e) s known = elim (Bool-cases (tid == pid || not (e == no_child))) [
    | inl bad ↦ rw (bad, waited) (detach-IsKnown s known)
    | inr fine ↦ rw (fine, waited) known
  ]

  insert-IsKnown : (tid : ℕ) (s : ProcessTracer) → IsKnown s → IsKnown (insert tid s)
  unfolding traced contains
  insert-IsKnown tid s known t h = ground (arith, known t)

  pub stop_thread-IsKnown :
      (pid round tid : ℕ) (s : ProcessTracer) → IsKnown s → IsKnown (stop_thread k pid round tid s)
  unfolding stop_thread
  stop_thread-IsKnown pid round tid s known = elim (Option-cases (k.attach round tid)) [
    | inr (e, denied) ↦ rw (denied, stop_thread) known
    | inl granted ↦
        rw (granted, stop_thread)
          (waited-IsKnown pid tid (k.wait round tid) (insert tid s) (insert-IsKnown tid s known))
  ]

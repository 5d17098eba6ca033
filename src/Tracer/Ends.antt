-- ===== src/Tracer/Ends.antt =====
-- The loop of the constructor of `ProcessTracer` in process.cpp ends: every round that finds a thread uses
-- up one of those that the process can ever show.
use pystack.Prelude.{
  ℕ, zero, suc, ◌+◌, ◌≤◌, ◌<◌, ◌≡◌, refl, sym, ap, ◌∙◌, Bool, true, false, ◌||◌, none, some, List,
  [], ◌∷◌, arith, length, ◌==◌, if◌then◌else◌, inl, inr, Bool-cases, Option-cases, ==_refl,
}
use pystack.Tracer.{
  Kernel, ProcessTracer, empty, contains, find_error, detach_from_process, waited, stop_thread,
  Outcome, returned, threw, not_listed, out_of_fuel, Round, ended, failed, stop_all, after_round,
  stop_process, process_tracer,
}

has_error : ℕ → ProcessTracer → Bool
has_error tid s = elim (find_error tid s.error_by_tid) [ none ↦ false | some e ↦ true ]

-- The constructor has tried to attach to the thread.
seen : ℕ → ProcessTracer → Bool
unfolding has_error
seen tid s = contains tid s.tids || has_error tid s

seen-stop_thread :
    (k : Kernel) (pid round tid t : ℕ) (s : ProcessTracer)
    → seen t (stop_thread k pid round tid s) ≡ (t == tid || seen t s)
unfolding seen has_error stop_thread waited detach_from_process contains find_error
seen-stop_thread k pid round tid t s = ground arith

unseen : List ℕ → ProcessTracer → ℕ
unseen [] s = 0
unseen (t ∷ universe) s = (if seen t s then 0 else 1) + unseen universe s

abbrev Grows : ProcessTracer → ProcessTracer → Type 0
Grows s s' = (t : ℕ) → seen t s ≡ true → seen t s' ≡ true

unseen-Grows :
    (universe : List ℕ) (s s' : ProcessTracer) → Grows s s' → unseen universe s' ≤ unseen universe s
unfolding unseen
unseen-Grows [] s s' g = omega arith
unseen-Grows (t ∷ universe) s s' g = ground (arith, unseen-Grows universe s s' g, g t)

unseen_less :
    (universe : List ℕ) (s s' : ProcessTracer) (tid : ℕ)
    → Grows s s'
    → contains tid universe ≡ true
    → seen tid s ≡ false
    → seen tid s' ≡ true
    → unseen universe s' < unseen universe s
unfolding unseen contains
unseen_less [] s s' tid g there old new = cc
unseen_less (t ∷ universe) s s' tid g there old new = elim (Bool-cases (tid == t)) [
  | inl same ↦
      let e : tid ≡ t = ground arith in
      let old' : seen t s ≡ false = ap (λ (u : ℕ). seen u s) (sym e) ∙ old in
      let new' : seen t s' ≡ true = ap (λ (u : ℕ). seen u s') (sym e) ∙ new in
      rw (old', new') (omega (arith, unseen-Grows universe s s' g))
  | inr other ↦ ground (
    arith,
    unseen_less universe s s' tid g (ground arith) old new,
    unseen-Grows universe s s' g,
    g t,
  )
]

unseen-empty : (universe : List ℕ) → unseen universe empty ≤ length universe
unfolding unseen seen has_error contains find_error
unseen-empty [] = omega arith
unseen-empty (t ∷ universe) = omega (arith, unseen-empty universe)

-- Every thread that a listing shows is one of a finite number.
abbrev pub ListsWithin : Kernel → List ℕ → Type 0
ListsWithin k universe =
    (round : ℕ) (tids : List ℕ)
    → k.tasks round ≡ some tids
    → (tid : ℕ) → contains tid tids ≡ true
    → contains tid universe ≡ true

abbrev pub HasEnded : Outcome → Type 0
HasEnded (returned s) = Unit
HasEnded (threw s e) = Unit
HasEnded (not_listed s) = Unit
HasEnded (out_of_fuel s) = ⊥

module _ (k : Kernel) (pid : ℕ) (universe : List ℕ) where
  -- A round uses nothing up, or a thread at least where it has found one.
  abbrev Uses : ℕ → Bool → Round → Type 0
  Uses n found (ended found' s) =
      (unseen universe s ≤ n) × ((found ≡ false) → found' ≡ true → unseen universe s < n)
  Uses n found (failed s e) = Unit

  abbrev UsesSome : ℕ → Round → Type 0
  UsesSome n (ended found s) = unseen universe s < n
  UsesSome n (failed s e) = Unit

  Grows-stop_thread : (round tid : ℕ) (s : ProcessTracer) → Grows s (stop_thread k pid round tid s)
  Grows-stop_thread round tid s t h = rw (seen-stop_thread k pid round tid t s, h) (ground arith)

  stop_thread_less :
      (round tid : ℕ) (s : ProcessTracer)
      → contains tid universe ≡ true
      → contains tid s.tids ≡ false
      → find_error tid s.error_by_tid ≡ none
      → unseen universe (stop_thread k pid round tid s) < unseen universe s
  unfolding seen has_error
  stop_thread_less round tid s there new fresh =
      unseen_less universe s (stop_thread k pid round tid s) tid (Grows-stop_thread round tid s)
        there (ground arith) (seen-stop_thread k pid round tid tid s ∙ ground (arith, ==_refl tid))

  stop_all-Uses :
      (round : ℕ) (tids : List ℕ) (found : Bool) (n : ℕ) (s : ProcessTracer)
      → ((tid : ℕ) → contains tid tids ≡ true → contains tid universe ≡ true)
      → unseen universe s ≤ n
      → (found ≡ true → unseen universe s < n)
      → Uses n false (stop_all k pid round tids found s)
  unfolding stop_all contains
  stop_all-Uses round [] found n s within h strict = (h, λ e e'. strict e')
  stop_all-Uses round (tid ∷ tids) found n s within h strict =
      elim (Bool-cases (contains tid s.tids)) [
        | inl old ↦
            rw (old, stop_all)
              (stop_all-Uses round tids found n s (λ t e. within t (ground arith)) h strict)
        | inr new ↦ elim (Option-cases (find_error tid s.error_by_tid)) [
          | inr (e, error) ↦ rw (new, stop_all, error) tt
          | inl fresh ↦
              let less =
                stop_thread_less round tid s (within tid (ground (arith, ==_refl tid))) new fresh in
              rw (new, stop_all, fresh)
                (stop_all-Uses round tids true n (stop_thread k pid round tid s)
                  (λ t e. within t (ground arith)) (omega arith) (λ e. omega arith))
        ]
      ]

  after_round-HasEnded :
      (again : ProcessTracer → Outcome) (n : ℕ) (r : Round)
      → ((s : ProcessTracer) → unseen universe s < n → HasEnded (again s))
      → Uses n false r
      → HasEnded (after_round again r)
  unfolding after_round
  after_round-HasEnded again n (failed s e) ih h = tt
  after_round-HasEnded again n (ended false s) ih h = tt
  after_round-HasEnded again n (ended true s) ih h = ih s (h.1 refl refl)

  stop_process-HasEnded :
      (fuel round : ℕ) (s : ProcessTracer)
      → ListsWithin k universe
      → unseen universe s < fuel
      → HasEnded (stop_process fuel k pid round s)
  unfolding stop_process
  stop_process-HasEnded zero round s within h = absurd (omega arith)
  stop_process-HasEnded (suc fuel) round s within h = elim (Option-cases (k.tasks round)) [
    | inl e ↦ rw (e, stop_process) tt
    | inr (tids, e) ↦
        rw (e, stop_process)
          (after_round-HasEnded (stop_process fuel k pid (round + 1)) (unseen universe s)
            (stop_all k pid round tids false s)
            (λ s' less. stop_process-HasEnded fuel (round + 1) s' within (omega arith))
            (stop_all-Uses round tids false (unseen universe s) s (within round tids e)
              (omega arith) (λ e'. cc)))
  ]

-- If the process can only ever show threads of a finite number `n`, then the constructor ends after
-- `n + 1` rounds at most, whatever threads start and stop in between.
pub process_tracer-HasEnded :
    (k : Kernel) (pid : ℕ) (universe : List ℕ)
    → ListsWithin k universe
    → HasEnded (process_tracer (length universe + 1) k pid)
unfolding process_tracer
process_tracer-HasEnded k pid universe within =
    stop_process-HasEnded k pid universe (length universe + 1) 0 empty within
      (omega (arith, unseen-empty universe))

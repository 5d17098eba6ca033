-- ===== src/Corefile/Names.antt =====
-- The names in the notes about the process, in corefile.cpp.
use pystack.Prelude.{
  length-take, ℕ, ◌≤◌, ◌≡◌, inl, inr, refl, arith, Bool-cases, Option, none, some, List, [], ◌∷◌,
  ◌++◌, take, drop, length, ◌==◌,
}
use mathlib.Core.Path.{subst}
use pystack.Memory.Maps.{Bytes}
use pystack.Corefile.{
  StatusCode, success, error, NoteData, CorePsInfo, no_psinfo, parse_core_psinfo, extract_ps_info,
  ◌>>=◌, first_success, CoreFile,
}
use pystack.Corefile.Mapped.{c_string}

pub bind-some :
    {A B : Type 0} (o : Option A) (f : A → Option B) (b : B)
    → (o >>= f) ≡ some b
    → (a : A) × (o ≡ some a) × (f a ≡ some b)
bind-some none f b h = absurd cc
bind-some (some a) f b h = (a, refl, h)

-- A text with a NUL behind it has a name of at most its length.
c_string-terminated :
    (buffer : Bytes)
    → (name : Bytes) × (c_string (buffer ++ (0 ∷ [])) ≡ some name) × (length name ≤ length buffer)
unfolding c_string
c_string-terminated [] = ([], refl, omega arith)
c_string-terminated (c ∷ buffer) =
    let (name, e, h) = c_string-terminated buffer in
    elim (Bool-cases (c == 0)) [
      | inl f ↦ ([], rw f refl, omega arith)
      | inr f ↦ (c ∷ name, rw (f, e) refl, omega arith)
    ]

abbrev pub HasNames : CorePsInfo → Type 0
HasNames info =
    ((name : Bytes) × (c_string info.fname ≡ some name) × (length name ≤ 15))
    × ((args : Bytes) × (c_string info.psargs ≡ some args) × (length args ≤ 79))

no_psinfo-HasNames : HasNames no_psinfo
unfolding c_string
no_psinfo-HasNames = (([], refl, omega arith), ([], refl, omega arith))

parse_core_psinfo-HasNames :
    (note : NoteData) (s : CorePsInfo) → HasNames s → HasNames (parse_core_psinfo note s).1
unfolding parse_core_psinfo
parse_core_psinfo-HasNames note s h = elim (Bool-cases (length note.d_buf == 136)) [
  | inl e ↦
      rw e (name_of 15 (take 16 (drop 40 note.d_buf)), name_of 79 (take 80 (drop 56 note.d_buf)))
  | inr e ↦ rw e h
]
  where
    name_of :
        (n : ℕ) (buffer : Bytes)
        → (name : Bytes) × (c_string (take n buffer ++ (0 ∷ [])) ≡ some name) × (length name ≤ n)
    name_of n buffer =
        let (name, e, k) = c_string-terminated (take n buffer) in
        (name, e, omega (arith, length-take n buffer))

first_success-HasNames :
    (notes : List NoteData) (s : CorePsInfo) (r : StatusCode × CorePsInfo)
    → HasNames s
    → first_success (λ note s. some (parse_core_psinfo note s)) notes s ≡ some r
    → HasNames r.1
unfolding first_success
first_success-HasNames [] s r h e =
    let same : (error, s) ≡ r = cc in subst (λ (x : StatusCode × CorePsInfo). HasNames x.1) same h
first_success-HasNames (note ∷ notes) s r h e =
    step (parse_core_psinfo note s) (parse_core_psinfo-HasNames note s h)
      (first_success-HasNames notes) e
  where
    step :
        (t : StatusCode × CorePsInfo)
        → HasNames t.1
        → ((s : CorePsInfo) (r : StatusCode × CorePsInfo)
            → HasNames s
            → first_success (λ note s. some (parse_core_psinfo note s)) notes s ≡ some r
            → HasNames r.1)
        → elim t.0 [
          | success ↦ some t
          | error ↦ first_success (λ note s. some (parse_core_psinfo note s)) notes t.1
        ]
          ≡ some r
        → HasNames r.1
    step (success, t) h ih e =
        let same : (success, t) ≡ r = cc in
        subst (λ (x : StatusCode × CorePsInfo). HasNames x.1) same h
    step (error, t) h ih e = ih t r h e

-- Whatever the notes hold, the name and the arguments of the process end within their 16 and 80 bytes.
pub extract_ps_info-HasNames :
    (core : CoreFile) (info : CorePsInfo) → extract_ps_info core ≡ some info → HasNames info
unfolding extract_ps_info
extract_ps_info-HasNames core info h =
    let (r, read, h) =
      bind-some
        (first_success (λ note s. some (parse_core_psinfo note s)) core.psinfo_notes no_psinfo) _ _
        h in
    step r (first_success-HasNames core.psinfo_notes no_psinfo r no_psinfo-HasNames read) h
  where
    step :
        (r : StatusCode × CorePsInfo)
        → HasNames r.1
        → elim r.0 [ success ↦ some r.1 | error ↦ some no_psinfo ] ≡ some info
        → HasNames info
    step (success, t) h e = let same : t ≡ info = cc in subst (λ x. HasNames x) same h
    step (error, t) h e =
        let same : no_psinfo ≡ info = cc in subst (λ x. HasNames x) same no_psinfo-HasNames

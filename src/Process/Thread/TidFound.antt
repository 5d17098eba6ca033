-- ===== src/Process/Thread/TidFound.antt =====
-- What `findPthreadTidOffset` of pythread.cpp finds.
use pystack.Prelude.{
  ℕ, zero, suc, ◌+◌, ◌*◌, ◌/◌, ◌%◌, ◌^◌, ◌≡◌, ◌≢◌, ◌⊎◌, inl, inr, refl, sym, ap, ◌∙◌, arith,
  Bool-cases, Option, none, some, List, [], ◌∷◌, Member, ◌==◌, if◌then◌else◌, add64, get_elem?,
}
use mathlib.Core.Path.{subst}
use pystack.Memory.Maps.{Bytes}
use pystack.Offsets.Layout.{
  py_is, py_is_o_tstate_head, py_thread, py_thread_o_thread_id, py_thread_o_next,
}
use pystack.Process.{Process, Run, done, ◌>>=◌, attempt, read, read_field}
use pystack.Process.Runs.{bind-done, same_done, catch_remote-cases}
use pystack.Process.Interpreter.{words_of}
use pystack.Process.Thread.{read_int}
use pystack.Process.Thread.TidOffset.{
  first_candidate, copy_smaller, find_word, scan_pthread, search_threads, find_pthread_tid_offset,
}

-- The list of threads leads from one address to another.
pub data Leads (p : Process) : ℕ → ℕ → Type 0 where
  here : (addr : ℕ) → Leads p addr addr
  next :
      (addr next_addr to : ℕ)
      → read_field p py_thread addr py_thread_o_next ≡ done next_addr
      → Leads p next_addr to
      → Leads p addr to

module _ (p : Process) where
  -- The identifier of the process stands at the offset in a structure: as an `int` at a known offset, or as
  -- the low half of a word in a part that can be read.
  abbrev pub IsTidOffset : List ℕ → ℕ → ℕ → Type 0
  IsTidOffset candidates pthread_id offset =
      (Member offset candidates × (read_int p (add64 pthread_id offset) ≡ done p.pid))
      ⊎ ((size : ℕ) × (buffer : Bytes) × (i w : ℕ) × (read p pthread_id size ≡ done buffer)
          × (get_elem? (words_of (size / 8) buffer) i ≡ some w)
          × (w % 2 ^ 32 ≡ p.pid)
          × (offset ≡ 8 * i))

  attempt-some : {A : Type 0} (r : Run A) (a : A) → attempt r ≡ done (some a) → r ≡ done a
  unfolding attempt
  attempt-some r a h = elim (catch_remote-cases (r >>= λ x. done (some x)) (done none) (some a) h) [
    | inl e ↦ let (b, f, g) = bind-done r _ (some a) e in f ∙ same_value b g
    | inr e ↦ absurd cc
  ]
    where
      same_value : (b : _) → done (some b) ≡ done (some a) → done b ≡ done a
      same_value b g = cc

  first_candidate-Member :
      (pthread_id : ℕ) (candidates : List ℕ) (offset : ℕ)
      → first_candidate p pthread_id candidates ≡ done (some offset)
      → Member offset candidates × (read_int p (add64 pthread_id offset) ≡ done p.pid)
  unfolding first_candidate
  first_candidate-Member pthread_id [] offset h = absurd cc
  first_candidate-Member pthread_id (candidate ∷ candidates) offset h =
      let (read_tid, tried, h) =
        bind-done (attempt (read_int p (add64 pthread_id candidate))) _ (some offset) h in
      by_tid read_tid tried (first_candidate-Member pthread_id candidates offset) h
    where
      by_tid :
          (read_tid : Option ℕ)
          → attempt (read_int p (add64 pthread_id candidate)) ≡ done read_tid
          → (first_candidate p pthread_id candidates ≡ done (some offset)
              → Member offset candidates × (read_int p (add64 pthread_id offset) ≡ done p.pid))
          → elim read_tid [
            | none ↦ first_candidate p pthread_id candidates
            | some tid ↦
                if tid == p.pid
                then done (some candidate)
                else first_candidate p pthread_id candidates
          ]
            ≡ done (some offset)
          → Member offset (candidate ∷ candidates)
            × (read_int p (add64 pthread_id offset) ≡ done p.pid)
      by_tid none tried ih h = let (is, e) = ih h in (inr is, e)
      by_tid (some tid) tried ih h = elim (Bool-cases (tid == p.pid)) [
        | inr e ↦ let (is, f) = ih (rw e at h) in (inr is, f)
        | inl e ↦
            let f : done (some candidate) ≡ done (some offset) = rw e at h in
            let same : candidate ≡ offset = cc in
            let is_pid : tid ≡ p.pid = ground arith in
            (inl (sym same), rw (← same, ← is_pid) (attempt-some _ tid tried))
      ]

  find_word-get_elem? :
      (i : ℕ) (words : List ℕ) (offset : ℕ)
      → find_word p i words ≡ some offset
      → (j w : ℕ) × (get_elem? words j ≡ some w) × (w % 2 ^ 32 ≡ p.pid) × (offset ≡ 8 * (i + j))
  unfolding find_word
  find_word-get_elem? i [] offset h = absurd cc
  find_word-get_elem? i (w ∷ words) offset h = elim (Bool-cases (w % 2 ^ 32 == p.pid)) [
    | inl e ↦
        let f : some (8 * i) ≡ some offset = rw e at h in
        let same : 8 * i ≡ offset = cc in (0, w, refl, ground arith, omega (arith, same))
    | inr e ↦
        let (j, v, at, is, same) = find_word-get_elem? (i + 1) words offset (rw e at h) in
        (suc j, v, at, is, omega (arith, same))
  ]

  copy_smaller-read :
      (fuel pthread_id buffer_size : ℕ) (copied : ℕ × Bytes)
      → copy_smaller p fuel pthread_id buffer_size ≡ done copied
      → (copied ≡ (0, [])) ⊎ (read p pthread_id copied.0 ≡ done copied.1)
  unfolding copy_smaller
  copy_smaller-read zero pthread_id buffer_size copied h = absurd cc
  copy_smaller-read (suc fuel) pthread_id buffer_size copied h =
      elim (Bool-cases (buffer_size == 0)) [
        | inl e ↦ let f : done (0, []) ≡ done copied = rw e at h in inl (sym (same_done f))
        | inr e ↦
            let (buffer, tried, h) =
              bind-done (attempt (read p pthread_id buffer_size)) _ copied (rw e at h) in
            by_buffer buffer tried (copy_smaller-read fuel pthread_id (buffer_size / 2) copied) h
      ]
    where
      by_buffer :
          (buffer : Option Bytes)
          → attempt (read p pthread_id buffer_size) ≡ done buffer
          → (copy_smaller p fuel pthread_id (buffer_size / 2) ≡ done copied
              → (copied ≡ (0, [])) ⊎ (read p pthread_id copied.0 ≡ done copied.1))
          → elim buffer [
            | none ↦ copy_smaller p fuel pthread_id (buffer_size / 2)
            | some bytes ↦ done (buffer_size, bytes)
          ]
            ≡ done copied
          → (copied ≡ (0, [])) ⊎ (read p pthread_id copied.0 ≡ done copied.1)
      by_buffer none tried ih h = ih h
      by_buffer (some bytes) tried ih h =
          let same : (buffer_size, bytes) ≡ copied = same_done h in
          inr (
            subst (λ (c : ℕ × Bytes). read p pthread_id c.0 ≡ done c.1) same
              (attempt-some (read p pthread_id buffer_size) bytes tried))

  scan_pthread-IsTidOffset :
      (candidates : List ℕ) (pthread_id offset : ℕ)
      → scan_pthread p pthread_id ≡ done (some offset)
      → IsTidOffset candidates pthread_id offset
  unfolding scan_pthread find_word words_of
  scan_pthread-IsTidOffset candidates pthread_id offset h =
      let (copied, e, h) = bind-done (copy_smaller p 11 pthread_id 800) _ (some offset) h in
      let found : find_word p 0 (words_of (copied.0 / 8) copied.1) ≡ some offset = same_done h in
      elim (copy_smaller-read 11 pthread_id 800 copied e) [
        | inl empty ↦ absurd (
            let f : find_word p 0 (words_of 0 []) ≡ some offset =
              subst (λ (c : ℕ × Bytes). find_word p 0 (words_of (c.0 / 8) c.1) ≡ some offset) empty
                found in
            cc)
        | inr is ↦
            let (i, w, at, is_pid, same) =
              find_word-get_elem? 0 (words_of (copied.0 / 8) copied.1) offset found in
            inr (copied.0, copied.1, i, w, is, at, is_pid, omega (arith, same))
      ]

  search_threads-found :
      (search_in : ℕ → Run (Option ℕ)) (fuel addr offset : ℕ)
      → search_threads p search_in fuel addr ≡ done (some offset)
      → (thread pthread_id : ℕ) × Leads p addr thread
        × (read_field p py_thread thread py_thread_o_thread_id ≡ done pthread_id)
        × (search_in pthread_id ≡ done (some offset))
  unfolding search_threads
  search_threads-found search_in zero addr offset h = absurd cc
  search_threads-found search_in (suc fuel) addr offset h = elim (Bool-cases (addr == 0)) [
    | inl e ↦ absurd (let f : done none ≡ done (some offset) = rw e at h in cc)
    | inr e ↦
        let (pthread_id, is, h) =
          bind-done (read_field p py_thread addr py_thread_o_thread_id) _ (some offset)
            (rw e at h) in
        let (found, searched, h) = bind-done (search_in pthread_id) _ (some offset) h in
        by_found found pthread_id is searched (search_threads-found search_in fuel) h
  ]
    where
      by_found :
          (found : Option ℕ) (pthread_id : ℕ)
          → read_field p py_thread addr py_thread_o_thread_id ≡ done pthread_id
          → search_in pthread_id ≡ done found
          → ((addr offset : ℕ)
              → search_threads p search_in fuel addr ≡ done (some offset)
              → (thread pthread_id : ℕ) × Leads p addr thread
                × (read_field p py_thread thread py_thread_o_thread_id ≡ done pthread_id)
                × (search_in pthread_id ≡ done (some offset)))
          → elim found [
            | some offset ↦ done (some offset)
            | none ↦ read_field p py_thread addr py_thread_o_next >>= λ next_thread_addr.
                if next_thread_addr == addr
                then done none
                else search_threads p search_in fuel next_thread_addr
          ]
            ≡ done (some offset)
          → (thread pthread_id : ℕ) × Leads p addr thread
            × (read_field p py_thread thread py_thread_o_thread_id ≡ done pthread_id)
            × (search_in pthread_id ≡ done (some offset))
      by_found (some found) pthread_id is searched ih h =
          (addr, pthread_id, here addr, is, searched ∙ h)
      by_found none pthread_id is searched ih h =
          let (next_addr, follows, h) =
            bind-done (read_field p py_thread addr py_thread_o_next) _ (some offset) h in
          elim (Bool-cases (next_addr == addr)) [
            | inl e ↦ absurd (let f : done none ≡ done (some offset) = rw e at h in cc)
            | inr e ↦
                let (thread, id, leads, is, found) = ih next_addr offset (rw e at h) in
                (thread, id, next addr next_addr thread follows leads, is, found)
          ]

  -- An offset that findPthreadTidOffset returns, if it is not 0, is one where the identifier of the process
  -- stands in the pthread structure of a thread that the list of the interpreter leads to: a
  -- known one, or one that the scan came upon.
  pub find_pthread_tid_offset-IsTidOffset :
      (candidates : List ℕ) (fuel interp_state_addr offset : ℕ)
      → find_pthread_tid_offset p candidates fuel interp_state_addr ≡ done offset
      → offset ≢ 0
      → (head thread pthread_id : ℕ) × (read_field p py_is interp_state_addr py_is_o_tstate_head
          ≡ done head)
        × Leads p head thread
        × (read_field p py_thread thread py_thread_o_thread_id ≡ done pthread_id)
        × IsTidOffset candidates pthread_id offset
  unfolding find_pthread_tid_offset
  find_pthread_tid_offset-IsTidOffset candidates fuel interp_state_addr offset h nonzero =
      let (head, at, h) =
        bind-done (read_field p py_is interp_state_addr py_is_o_tstate_head) _ offset h in
      let (known, e, h) =
        bind-done
          (search_threads p (λ pthread_id. first_candidate p pthread_id candidates) fuel head) _
          offset h in
      let (thread, pthread_id, leads, is, found) = by_known known head e h in
      (head, thread, pthread_id, at, leads, is, found)
    where
      by_known :
          (known : Option ℕ) (head : ℕ)
          → search_threads p (λ pthread_id. first_candidate p pthread_id candidates) fuel head
            ≡ done known
          → elim known [
            | some found ↦ done found
            | none ↦ search_threads p (scan_pthread p) fuel head >>= λ scanned. elim scanned [
              | some found ↦ done found
              | none ↦ done 0
            ]
          ]
            ≡ done offset
          → (thread pthread_id : ℕ) × Leads p head thread
            × (read_field p py_thread thread py_thread_o_thread_id ≡ done pthread_id)
            × IsTidOffset candidates pthread_id offset
      by_known (some found) head e h =
          let same : done (some found) ≡ done (some offset) =
            ap (λ o. done (some o)) (same_done h) in
          let (thread, pthread_id, leads, is, f) =
            search_threads-found _ fuel head offset (e ∙ same) in
          (
            thread,
            pthread_id,
            leads,
            is,
            inl (first_candidate-Member pthread_id candidates offset f),
          )
      by_known none head e h =
          let (scanned, f, h) =
            bind-done (search_threads p (scan_pthread p) fuel head) _ offset h in
          by_scanned scanned f h
        where
          by_scanned :
              (scanned : Option ℕ)
              → search_threads p (scan_pthread p) fuel head ≡ done scanned
              → elim scanned [ some found ↦ done found | none ↦ done 0 ] ≡ done offset
              → (thread pthread_id : ℕ) × Leads p head thread
                × (read_field p py_thread thread py_thread_o_thread_id ≡ done pthread_id)
                × IsTidOffset candidates pthread_id offset
          by_scanned none f h = absurd (nonzero (sym (same_done h)))
          by_scanned (some found) f h =
              let same : done (some found) ≡ done (some offset) =
                ap (λ o. done (some o)) (same_done h) in
              let (thread, pthread_id, leads, is, g) =
                search_threads-found _ fuel head offset (f ∙ same) in
              (
                thread,
                pthread_id,
                leads,
                is,
                scan_pthread-IsTidOffset candidates pthread_id offset g,
              )

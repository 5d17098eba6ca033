-- ===== src/Process/Thread/TidOffset.antt =====
-- `findPthreadTidOffset` of pythread.cpp, as it is built for the GNU C library. Where that library is known
-- to have the identifier is a parameter.
use pystack.Prelude.{
  ℕ, zero, suc, ◌+◌, ◌*◌, ◌/◌, ◌%◌, ◌^◌, Option, none, some, List, [], ◌∷◌, ◌==◌, if◌then◌else◌,
  add64,
}
use pystack.Memory.Maps.{Bytes}
use pystack.Offsets.Layout.{
  py_is, py_is_o_tstate_head, py_thread, py_thread_o_thread_id, py_thread_o_next,
}
use pystack.Process.{Process, Run, done, stop, out_of_fuel, ◌>>=◌, attempt, read, read_field}
use pystack.Process.Interpreter.{words_of}
use pystack.Process.Thread.{read_int}

module _ (p : Process) where
  -- The loop over the known offsets; an offset that cannot be read is passed over.
  unfoldable pub first_candidate : ℕ → List ℕ → Run (Option ℕ)
  unfolding read_int attempt
  first_candidate pthread_id [] = done none
  first_candidate pthread_id (candidate ∷ candidates) =
      let rest = first_candidate pthread_id candidates in
      attempt (read_int p (add64 pthread_id candidate)) >>= λ the_tid. elim the_tid [
        | none ↦ rest
        | some tid ↦ if tid == p.pid then done (some candidate) else rest
      ]

  -- The copy of a buffer that is halved until it can be read, with its size.
  unfoldable pub copy_smaller : ℕ → ℕ → ℕ → Run (ℕ × Bytes)
  unfolding read attempt
  copy_smaller zero pthread_id buffer_size = stop out_of_fuel
  copy_smaller (suc fuel) pthread_id buffer_size =
      let smaller = copy_smaller fuel pthread_id (buffer_size / 2) in
      if buffer_size == 0
      then done (0, [])
      else (attempt (read p pthread_id buffer_size) >>= λ buffer. elim buffer [
        | none ↦ smaller
        | some bytes ↦ done (buffer_size, bytes)
      ])

  -- The offset of the first word that is the process's identifier, as an `int`.
  unfoldable pub find_word : ℕ → List ℕ → Option ℕ
  find_word i [] = none
  find_word i (w ∷ words) =
      let rest = find_word (i + 1) words in if w % 2 ^ 32 == p.pid then some (8 * i) else rest

  -- 800 is halved ten times until it is 0.
  unfoldable pub scan_pthread : ℕ → Run (Option ℕ)
  unfolding copy_smaller find_word words_of
  scan_pthread pthread_id = copy_smaller 11 pthread_id 800 >>= λ copied.
      done (find_word 0 (words_of (copied.0 / 8) copied.1))

  -- The two loops over the threads, with the search in the structure of each.
  unfoldable pub search_threads : (ℕ → Run (Option ℕ)) → ℕ → ℕ → Run (Option ℕ)
  unfolding read_field
  search_threads search_in zero current_thread_addr = stop out_of_fuel
  search_threads search_in (suc fuel) current_thread_addr =
      if current_thread_addr == 0
      then done none
      else (read_field p py_thread current_thread_addr py_thread_o_thread_id >>= λ pthread_id.
          search_in pthread_id >>= λ found. elim found [
            | some offset ↦ done (some offset)
            | none ↦
                read_field p py_thread current_thread_addr py_thread_o_next >>= λ next_thread_addr.
                if next_thread_addr == current_thread_addr
                then done none
                else search_threads search_in fuel next_thread_addr
          ])

  unfoldable pub find_pthread_tid_offset : List ℕ → ℕ → ℕ → Run ℕ
  unfolding read_field first_candidate scan_pthread search_threads
  find_pthread_tid_offset candidates fuel interp_state_addr =
      read_field p py_is interp_state_addr py_is_o_tstate_head >>= λ thread_head.
      search_threads (λ pthread_id. first_candidate pthread_id candidates) fuel thread_head
      >>= λ known. elim known [
        | some offset ↦ done offset
        | none ↦ search_threads scan_pthread fuel thread_head >>= λ scanned. elim scanned [
          | some offset ↦ done offset
          | none ↦ done 0
        ]
      ]

-- ===== src/Process/Thread/Tests.antt =====
-- The theorems about threads, on a small process.
use pystack.Prelude.{ℕ, ◌≡◌, refl, arith, List, [], ◌∷◌, add64, sub64}
use pystack.Offsets.Layout.{
  py_is, py_is_o_tstate_head, py_thread, py_thread_o_interp, py_thread_o_thread_id,
}
use pystack.Code.LineNumbers.{unfilled}
use pystack.Version.{little_endian}
use pystack.Process.{Process, done, read_field, is_at_least}
use pystack.Process.Sample.{process_of, threaded}
use pystack.Process.Frame.Sample.{frames}
use pystack.Process.Thread.{
  PyThread, held, not_held, not_collecting, calculate_gil_status, make_thread,
}
use pystack.Process.Thread.TidOffset.{find_pthread_tid_offset}
use pystack.Process.Thread.TidFound.{Leads, IsTidOffset, find_pthread_tid_offset-IsTidOffset}
use pystack.Process.Thread.Gil.{calculate_gil_status_unique}
use pystack.Process.Thread.Threads.{AreThreads, StartsAt, make_thread-AreThreads}

of_interpreter : read_field threaded py_thread 4296 py_thread_o_interp ≡ done 4376
unfolding read_field sub64 little_endian
of_interpreter = refl

is_held : calculate_gil_status threaded 4296 ≡ done held
unfolding calculate_gil_status sub64 little_endian
is_held = refl

calculate_gil_status_unique_example : ◌≡◌ {A = ℕ} 4296 4296
unfolding is_at_least
calculate_gil_status_unique_example =
    calculate_gil_status_unique threaded 4376 4296 4296 (omega arith) refl of_interpreter
      of_interpreter is_held is_held

abbrev threads : List PyThread
threads =
    (record {
      addr = 4296;
      tid = 7;
      pthread_id = 9;
      frames = frames;
      stack_anchor = 4136;
      gil_status = held;
      gc_status = not_collecting;
    })
    ∷ (record {
      addr = 4336;
      tid = 8;
      pthread_id = 8;
      frames = [];
      stack_anchor = 0;
      gil_status = not_held;
      gc_status = not_collecting;
    })
    ∷ []

listed : make_thread unfilled threaded 0 3 4296 ≡ done threads
unfolding make_thread add64 sub64 little_endian
listed = refl

make_thread-AreThreads_example : StartsAt 4296 threads × AreThreads threaded threads
make_thread-AreThreads_example = make_thread-AreThreads threaded unfilled 0 3 4296 threads listed

-- An interpreter at 4096, its thread at 4136, and the thread's structure at 4176, with the identifier of
-- the process in its second word.
abbrev of_one_thread : Process
of_one_thread = process_of (4136 ∷ 0 ∷ 0 ∷ 0 ∷ 0 ∷ 0 ∷ 0 ∷ 0 ∷ 4176 ∷ 0 ∷ 5 ∷ 7 ∷ [])

-- The offset 704 cannot be read.
found_offset : find_pthread_tid_offset of_one_thread (704 ∷ (8 ∷ [])) 3 4096 ≡ done 8
unfolding find_pthread_tid_offset add64 sub64 little_endian
found_offset = refl

find_pthread_tid_offset-IsTidOffset_example :
    (head thread pthread_id : ℕ) × (read_field of_one_thread py_is 4096 py_is_o_tstate_head
      ≡ done head)
    × Leads of_one_thread head thread
    × (read_field of_one_thread py_thread thread py_thread_o_thread_id ≡ done pthread_id)
    × IsTidOffset of_one_thread (704 ∷ (8 ∷ [])) pthread_id 8
find_pthread_tid_offset-IsTidOffset_example =
    find_pthread_tid_offset-IsTidOffset of_one_thread (704 ∷ (8 ∷ [])) 3 4096 8 found_offset
      (omega arith)

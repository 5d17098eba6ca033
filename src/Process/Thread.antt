-- ===== src/Process/Thread.antt =====
-- `PyThread` of pythread.cpp, without the native stack: the constructor, the identifier of the thread and
-- where it stands in the structure of the C library, and the states of the lock and of the collector.
mod Gil
pub mod TidOffset
mod TidFound
mod Threads
mod Tests
use pystack.Prelude.{
  ℕ, zero, suc, ◌+◌, ◌*◌, ◌/◌, ◌%◌, ◌^◌, Bool, true, false, not, ◌&&◌, ◌||◌, Option, none, some,
  List, [], ◌∷◌, ◌==◌, if◌then◌else◌, add64,
}
use pystack.Memory.Maps.{Bytes}
use pystack.Offsets.Layout.{
  py_thread, py_thread_o_next, py_thread_o_interp, py_thread_o_frame, py_thread_o_thread_id,
  py_thread_o_native_thread_id, py_cframe, py_cframe_current_frame, py_is, py_is_o_tstate_head,
  py_is_o_gc, py_is_o_gil_runtime_state, py_is_o_id, py_gilruntimestate,
  py_gilruntimestate_o_locked, py_gilruntimestate_o_last_holder, py_runtime,
  py_runtime_o_tstate_current, py_runtime_o_gc, py_gc, py_gc_o_collecting,
}
use pystack.Code.LineTable.{LocationInfo}
use pystack.Version.{little_endian}
use pystack.Process.{
  Process, Run, done, stop, runtime_error, out_of_fuel, pure, ◌>>=◌, catch_remote, attempt,
  is_at_least, is_valid, read, read_word, read_field, field_address,
}
use pystack.Process.Interpreter.{runtime_symbol, words_of}
use pystack.Process.Frame.{Frame, make_frame, get_stack_anchor}

pub data GilStatus : Type 0 where
  unknown not_held held : GilStatus

pub data GcStatus : Type 0 where
  collecting_unknown not_collecting collecting : GcStatus

-- "_PyThreadState_Current"
abbrev pub current_symbol : Bytes
current_symbol =
    b'_' ∷ b'P' ∷ b'y' ∷ b'T' ∷ b'h' ∷ b'r' ∷ b'e' ∷ b'a' ∷ b'd' ∷ b'S' ∷ b't' ∷ b'a' ∷ b't' ∷ b'e'
    ∷ b'_' ∷ b'C' ∷ b'u' ∷ b'r' ∷ b'r' ∷ b'e' ∷ b'n' ∷ b't' ∷ []

abbrev held_if : Bool → GilStatus
held_if holds = if holds then held else not_held

-- An `int` of the process.
unfoldable pub read_int : Process → ℕ → Run ℕ
unfolding read little_endian
read_int p addr = do bytes ← read p addr 4; pure (little_endian bytes)

-- The scan of the first 2048 bytes of the structure, with the words that are left and the hits so far.
unfoldable pub scan_runtime : Process → ℕ → ℕ → ℕ → ℕ → Run GilStatus
unfolding read_word
scan_runtime p d_addr zero raddr hits = done not_held
scan_runtime p d_addr (suc left) raddr hits = do
  thread_addr ← read_word p raddr
  let hits_now = if thread_addr == d_addr then hits + 1 else hits
  let later = scan_runtime p d_addr left (add64 raddr 8) hits_now
  if thread_addr == d_addr && hits_now == 2 then done held else later

unfoldable pub gil_of_interpreter : Process → ℕ → Run GilStatus
unfolding read_field
gil_of_interpreter p d_addr = do
  is_addr ← read_field p py_thread d_addr py_thread_o_interp
  gil_addr ← read_field p py_is is_addr py_is_o_gil_runtime_state
  locked ← read_field p py_gilruntimestate gil_addr py_gilruntimestate_o_locked
  holder ← read_field p py_gilruntimestate gil_addr py_gilruntimestate_o_last_holder
  pure (held_if (not (locked == 0) && holder == d_addr))

unfoldable pub calculate_gil_status : Process → ℕ → Run GilStatus
unfolding is_at_least gil_of_interpreter scan_runtime read_field read_word
calculate_gil_status p d_addr =
    let pyruntime = p.find_symbol runtime_symbol in
    let current_thread = p.find_symbol current_symbol in
    if not (pyruntime == 0)
    then (if is_at_least p 3 12
        then gil_of_interpreter p d_addr
        else if is_at_least p 3 8
        then (do
          tstate_current ← read_field p py_runtime pyruntime py_runtime_o_tstate_current
          pure (held_if (tstate_current == d_addr)))
        else scan_runtime p d_addr 256 pyruntime 0)
    else if not (current_thread == 0)
    then (do thread_addr ← read_word p current_thread; pure (held_if (thread_addr == d_addr)))
    else done unknown

unfoldable pub read_collecting : Process → ℕ → Run GcStatus
unfolding read_field
read_collecting p gcstate_addr = do
  flag ← read_field p py_gc gcstate_addr py_gc_o_collecting
  pure (if flag == 0 then not_collecting else collecting)

unfoldable pub calculate_gc_status : Process → ℕ → Run GcStatus
unfolding is_at_least read_field field_address read_collecting
calculate_gc_status p d_addr =
    let pyruntime = p.find_symbol runtime_symbol in
    if is_at_least p 3 9
    then (do
      is_addr ← read_field p py_thread d_addr py_thread_o_interp
      read_collecting p (field_address p is_addr py_is_o_gc))
    else if is_at_least p 3 7
    then (if pyruntime == 0
        then done collecting_unknown
        else read_collecting p (field_address p pyruntime py_runtime_o_gc))
    else done collecting_unknown

abbrev pub contains_tid : ℕ → List ℕ → Bool
contains_tid tid [] = false
contains_tid tid (t ∷ tids) = t == tid || contains_tid tid tids

-- `tid_offset` is the global `tid_offset_in_pthread_struct`.
unfoldable pub infer_tid_from_pthread_structure : Process → ℕ → ℕ → Run ℕ
unfolding read_int
infer_tid_from_pthread_structure p tid_offset pthread_id = do
  the_tid ← read_int p (add64 pthread_id tid_offset)
  if not (the_tid == 0) && not (contains_tid the_tid p.tids)
      then stop runtime_error
      else done the_tid

-- A `native_thread_id` is 64 bits wide, and the result an `int`.
unfoldable pub get_thread_tid : Process → ℕ → ℕ → ℕ → Run ℕ
unfolding is_at_least read_field infer_tid_from_pthread_structure
get_thread_tid p tid_offset addr pthread_id =
    if is_at_least p 3 11
    then (do
      native ← read_field p py_thread addr py_thread_o_native_thread_id
      pure (native % 2 ^ 32))
    else infer_tid_from_pthread_structure p tid_offset pthread_id

unfoldable pub get_frame_addr : Process → ℕ → Run ℕ
unfolding is_at_least is_valid read_field
get_frame_addr p addr =
    if is_at_least p 3 11 && not (is_at_least p 3 13)
    then (do
      cframe_addr ← read_field p py_thread addr py_thread_o_frame
      if not (is_valid p cframe_addr)
          then done 0
          else read_field p py_cframe cframe_addr py_cframe_current_frame)
    else read_field p py_thread addr py_thread_o_frame

pub record PyThread : Type 0 where
  pub addr : ℕ
  pub tid : ℕ
  pub pthread_id : ℕ
  pub frames : List Frame
  pub stack_anchor : ℕ
  pub gil_status : GilStatus
  pub gc_status : GcStatus

-- The first frame with those before it, and the anchor.
unfoldable pub read_frames : LocationInfo → Process → ℕ → ℕ → Run (List Frame × ℕ)
unfolding make_frame get_stack_anchor
read_frames uninitialised p fuel frame_addr = if frame_addr == 0 then done ([], 0) else (do
  frames ← make_frame uninitialised p fuel frame_addr 0
  anchor ← get_stack_anchor p frame_addr
  pure (frames, anchor))

-- The constructor, with the thread and those after it as a list. The fuel bounds the threads and the frames.
unfoldable pub make_thread : LocationInfo → Process → ℕ → ℕ → ℕ → Run (List PyThread)
unfolding get_frame_addr read_frames read_field get_thread_tid calculate_gil_status
    calculate_gc_status
make_thread uninitialised p tid_offset zero addr = stop out_of_fuel
make_thread uninitialised p tid_offset (suc fuel) addr = do
  frame_addr ← get_frame_addr p addr
  stack ← read_frames uninitialised p fuel frame_addr
  candidate_next_addr ← read_field p py_thread addr py_thread_o_next
  let next_addr = if candidate_next_addr == addr then 0 else candidate_next_addr
  pthread_id ← read_field p py_thread addr py_thread_o_thread_id
  tid ← get_thread_tid p tid_offset addr pthread_id
  let following = make_thread uninitialised p tid_offset fuel next_addr
  next ← if next_addr == 0 then done [] else following
  gil_status ← calculate_gil_status p addr
  gc_status ← calculate_gc_status p addr
  pure (
      record {
        addr = addr;
        tid = tid;
        pthread_id = pthread_id;
        frames = stack.0;
        stack_anchor = stack.1;
        gil_status = gil_status;
        gc_status = gc_status;
      }
      ∷ next)

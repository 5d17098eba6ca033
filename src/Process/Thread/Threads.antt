-- ===== src/Process/Thread/Threads.antt =====
-- The threads that the constructor of `PyThread` of pythread.cpp lists.
use pystack.Prelude.{
  ℕ, zero, suc, ◌≡◌, ◌≢◌, refl, sym, ◌∙◌, ap, Bool, true, false, not, ◌&&◌, ◌⊎◌, inl, inr, List, [],
  ◌∷◌, ◌==◌, if◌then◌else◌, Bool-cases, ==_iff,
}
use pystack.Offsets.Layout.{py_thread, py_thread_o_next, py_thread_o_thread_id}
use pystack.Code.LineTable.{LocationInfo}
use pystack.Process.{Process, Run, done, stop, runtime_error, ◌>>=◌, is_at_least, read_field}
use pystack.Process.Runs.{bind-done, same_done}
use pystack.Process.Frame.{Frame, make_frame, get_stack_anchor}
use pystack.Process.Frame.Chain.{IsChain, make_frame-IsChain}
use pystack.Process.Thread.{
  PyThread, contains_tid, read_int, infer_tid_from_pthread_structure, get_thread_tid,
  get_frame_addr, read_frames, calculate_gil_status, calculate_gc_status, make_thread,
}

-- A thread as the process has it.
pub record IsThread (p : Process) (thread : PyThread) : Type 0 where
  pub chain : IsChain p 0 thread.frames
  pub tid_known :
      is_at_least p 3 11 ≡ false → (thread.tid ≡ 0) ⊎ (contains_tid thread.tid p.tids ≡ true)
  pub gil : calculate_gil_status p thread.addr ≡ done thread.gil_status
  pub gc : calculate_gc_status p thread.addr ≡ done thread.gc_status

-- Each thread is where the pointer of the one before it leads, and is another one.
abbrev pub Follows : Process → ℕ → List PyThread → Type 0
Follows p addr [] = Unit
Follows p addr (next ∷ threads) =
    (read_field p py_thread addr py_thread_o_next ≡ done next.addr) × (next.addr ≢ addr)

abbrev pub AreThreads : Process → List PyThread → Type 0
AreThreads p [] = Unit
AreThreads p (thread ∷ threads) =
    IsThread p thread × Follows p thread.addr threads × AreThreads p threads

abbrev pub StartsAt : ℕ → List PyThread → Type 0
StartsAt addr [] = ⊥
StartsAt addr (thread ∷ threads) = thread.addr ≡ addr

-- The next address, 0 where the thread points to itself.
abbrev next_addr : ℕ → ℕ → ℕ
next_addr addr candidate = if candidate == addr then 0 else candidate

next_addr_lem :
    (addr candidate : ℕ)
    → (next_addr addr candidate == 0) ≡ false
    → (candidate ≡ next_addr addr candidate) × (next_addr addr candidate ≢ addr)
next_addr_lem addr candidate h = elim (Bool-cases (candidate == addr)) [
  | inl e ↦ absurd (let k : (0 == 0) ≡ false = rw e at h in cc)
  | inr e ↦
      rw e (refl, λ s. absurd (let k = (==_iff candidate addr).1 s in let r = sym e ∙ k in cc))
]

stack-done :
    (b : Bool) (r : Run (List Frame)) (g : Run ℕ) (frames : List Frame) (anchor : ℕ)
    → if◌then◌else◌ {A = Run (List Frame × ℕ)} b (done ([], 0)) (r >>= λ f. g >>= λ a. done (f, a))
      ≡ done (frames, anchor)
    → (frames ≡ []) ⊎ (r ≡ done frames)
stack-done true r g frames anchor h = inl (sym (ap (λ (s : List Frame × ℕ). s.0) (same_done h)))
stack-done false r g frames anchor h =
    let (read, is, h) = bind-done r _ (frames, anchor) h in
    let (found, _, h) = bind-done g _ (frames, anchor) h in
    let same : read ≡ frames = ap (λ (s : List Frame × ℕ). s.0) (same_done h) in inr (rw same at is)

module _ (p : Process) where
  starts-Follows :
      (addr candidate : ℕ) (threads : List PyThread)
      → read_field p py_thread addr py_thread_o_next ≡ done candidate
      → (next_addr addr candidate == 0) ≡ false
      → StartsAt (next_addr addr candidate) threads
      → Follows p addr threads
  starts-Follows addr candidate [] h z s = absurd s
  starts-Follows addr candidate (thread ∷ threads) h z s =
      let (same, other) = next_addr_lem addr candidate z in
      let place : candidate ≡ thread.addr = same ∙ sym s in (rw place at h, rw (sym s) at other)

  checked_tid :
      (known : Bool) (the_tid tid : ℕ)
      → (if not (the_tid == 0) && not known then stop runtime_error else done the_tid) ≡ done tid
      → known ≡ contains_tid the_tid p.tids
      → (tid ≡ 0) ⊎ (contains_tid tid p.tids ≡ true)
  checked_tid true the_tid tid h k = elim (Bool-cases (the_tid == 0)) [
    | inl e ↦ inl (sym (same_done (rw e at h)) ∙ (==_iff the_tid 0).0 e)
    | inr e ↦ let same = same_done (rw e at h) in inr (rw same at (sym k))
  ]
  checked_tid false the_tid tid h k = elim (Bool-cases (the_tid == 0)) [
    | inl e ↦ inl (sym (same_done (rw e at h)) ∙ (==_iff the_tid 0).0 e)
    | inr e ↦ absurd (let r : stop runtime_error ≡ done tid = rw e at h in cc)
  ]

  tid_lem :
      (offset addr pthread_id tid : ℕ)
      → get_thread_tid p offset addr pthread_id ≡ done tid
      → is_at_least p 3 11 ≡ false
      → (tid ≡ 0) ⊎ (contains_tid tid p.tids ≡ true)
  unfolding get_thread_tid infer_tid_from_pthread_structure
  tid_lem offset addr pthread_id tid h old =
      let (the_tid, is, k) = bind-done (read_int p _) _ tid (rw old at h) in
      checked_tid (contains_tid the_tid p.tids) the_tid tid k refl

  frames-IsChain :
      (u : LocationInfo) (fuel addr : ℕ) (frames : List Frame) (anchor : ℕ)
      → read_frames u p fuel addr ≡ done (frames, anchor)
      → IsChain p 0 frames
  unfolding read_frames
  frames-IsChain u fuel addr frames anchor h =
      elim (stack-done (addr == 0) (make_frame u p fuel addr 0) (get_stack_anchor p addr) frames
        anchor h) [ inl e ↦ rw e tt | inr e ↦ (make_frame-IsChain u p fuel addr 0 frames e).1 ]

  later-AreThreads :
      (addr candidate : ℕ) (following : Run (List PyThread)) (threads : List PyThread)
      → read_field p py_thread addr py_thread_o_next ≡ done candidate
      → ((list : List PyThread)
          → following ≡ done list
          → StartsAt (next_addr addr candidate) list × AreThreads p list)
      → (if next_addr addr candidate == 0 then done [] else following) ≡ done threads
      → Follows p addr threads × AreThreads p threads
  later-AreThreads addr candidate following threads h ih e =
      elim (Bool-cases (next_addr addr candidate == 0)) [
        | inl z ↦ rw (sym (same_done (rw z at e))) (tt, tt)
        | inr z ↦
            let (starts, are) = ih threads (rw z at e) in
            (starts-Follows addr candidate threads h z starts, are)
      ]

  result-AreThreads :
      (addr : ℕ) (made threads : List PyThread)
      → done made ≡ done threads
      → StartsAt addr made × AreThreads p made
      → StartsAt addr threads × AreThreads p threads
  result-AreThreads addr made threads h k = rw (same_done h) at k

  -- The constructor gives a list of threads from the address on, each another than the one before it and where its
  -- pointer leads. The frames of each are a chain from number 0 on, its statuses are those of its own
  -- address, and before Python 3.11 its identifier is 0 or one of the process.
  pub make_thread-AreThreads :
      (u : LocationInfo) (offset fuel addr : ℕ) (threads : List PyThread)
      → make_thread u p offset fuel addr ≡ done threads
      → StartsAt addr threads × AreThreads p threads
  unfolding make_thread
  make_thread-AreThreads u offset zero addr threads h = absurd (cc)
  make_thread-AreThreads u offset (suc fuel) addr threads h =
      let (frame_addr, _, h) = bind-done (get_frame_addr p addr) _ threads h in
      let ((frames, anchor), frames_read, h) =
        bind-done (read_frames u p fuel frame_addr) _ threads h in
      let (candidate, next_read, h) =
        bind-done (read_field p py_thread addr py_thread_o_next) _ threads h in
      let (pthread_id, _, h) =
        bind-done (read_field p py_thread addr py_thread_o_thread_id) _ threads h in
      let (tid, tid_read, h) = bind-done (get_thread_tid p offset addr pthread_id) _ threads h in
      let (next, following, h) =
        bind-done
          (if next_addr addr candidate == 0
            then done []
            else make_thread u p offset fuel (next_addr addr candidate))
          _ threads h in
      let (gil_status, gil_read, h) = bind-done (calculate_gil_status p addr) _ threads h in
      let (gc_status, gc_read, h) = bind-done (calculate_gc_status p addr) _ threads h in
      let (follows, are) =
        later-AreThreads addr candidate (make_thread u p offset fuel (next_addr addr candidate))
          next next_read (make_thread-AreThreads u offset fuel (next_addr addr candidate))
          following in
      result-AreThreads addr _ threads h (
        refl,
        (
          record {
            chain = frames-IsChain u fuel frame_addr frames anchor frames_read;
            tid_known = tid_lem offset addr pthread_id tid tid_read;
            gil = gil_read;
            gc = gc_read;
          },
          follows,
          are,
        ),
      )

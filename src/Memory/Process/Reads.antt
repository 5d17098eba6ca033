-- ===== src/Memory/Process/Reads.antt =====
-- Reading without the cache: a faithful kernel gives the bytes of the memory, or an exception.
use pystack.Prelude.{
  ℕ, zero, suc, ◌+◌, ◌-◌, ◌≤◌, ◌<◌, ◌^◌, ◌≡◌, refl, [], ◌++◌, ◌∙◌, ap, arith, length, length-append,
  add64, sub64, add64_exact, sub64_exact, word, ◌==◌, ◌||◌, inl, inr, Bool-cases,
}
use pystack.Memory.Exec.{
  Failure, invalid_remote_address, permission_denied, system_error, open_failed, Result, ok, throw,
}
use pystack.Memory.Maps.{Bytes}
use pystack.Memory.Process.{
  Kernel, Manager, Errno, Readv, copied, failed, read_open_file, read_chunk_through_mem_file,
  readv_error, readv_loop, read_chunk_direct, read_chunk,
}
use pystack.Memory.Process.Window.{window, window-append}

-- What the manuals say of the two ways to read: a successful call gives bytes of the memory, at most
-- as many as wanted and, if any are wanted, at least one.
pub record IsFaithful (k : Kernel) (mem : ℕ → ℕ) : Type 0 where
  pub readv_most :
      (c a n : ℕ) (bytes : Bytes) → k.process_vm_readv c a n ≡ copied bytes → length bytes ≤ n
  pub readv_some :
      (c a n : ℕ) (bytes : Bytes)
      → k.process_vm_readv c a n ≡ copied bytes
      → 0 < n
      → 0 < length bytes
  pub readv_bytes :
      (c a n : ℕ) (bytes : Bytes)
      → k.process_vm_readv c a n ≡ copied bytes
      → bytes ≡ window mem a (length bytes)
  pub fread_bytes :
      (c a n : ℕ) → k.seek c a ≡ a → k.fread c a n ≡ window mem a (length (k.fread c a n))

abbrev pub IsException : Failure → Type 0
IsException invalid_remote_address = Unit {0}
IsException permission_denied = Unit {0}
IsException system_error = Unit {0}
IsException open_failed = Unit {0}
IsException _ = ⊥

-- The bytes of the memory, or one of the exceptions of the program.
abbrev pub Reads : (ℕ → ℕ) → ℕ → ℕ → Result Bytes → Type 0
Reads mem a n (ok bytes) = bytes ≡ window mem a n
Reads mem a n (throw e) = IsException e

-- So it is, and neither the maps nor the cache change.
pub record ReadsDirectly (mem : ℕ → ℕ) (a n : ℕ) (m : Manager) (p : Result Bytes × Manager)
    : Type 0 where
  pub result : Reads mem a n p.0
  pub vmaps : p.1.vmaps ≡ m.vmaps
  pub lru : p.1.lru ≡ m.lru

joined :
    (mem : ℕ → ℕ) (a b : ℕ) (done bytes : Bytes)
    → b ≡ a + length done
    → done ≡ window mem a (length done)
    → bytes ≡ window mem b (length bytes)
    → done ++ bytes ≡ window mem a (length done + length bytes)
joined mem a b done bytes here e f = cc (window-append mem (length done) (length bytes) a)

module _ (k : Kernel) (mem : ℕ → ℕ) (faithful : IsFaithful k mem) where
  read_open_file-Reads : (a n : ℕ) (m : Manager) → ReadsDirectly mem a n m (read_open_file k a n m)
  unfolding read_open_file
  read_open_file-Reads a n m = ground (arith, faithful.fread_bytes m.calls a n)

  mem_file-Reads :
      (a n : ℕ) (m : Manager) → ReadsDirectly mem a n m (read_chunk_through_mem_file k a n m)
  unfolding read_chunk_through_mem_file
  mem_file-Reads a n m =
      ground (arith, faithful.fread_bytes m.calls a n, faithful.fread_bytes (m.calls + 1) a n)

  readv_error-Reads :
      (a n : ℕ) (e : Errno) (m : Manager) → ReadsDirectly mem a n m (readv_error k a n e m)
  unfolding readv_error
  readv_error-Reads a n Errno.efault m = record { result = tt; vmaps = refl; lru = refl }
  readv_error-Reads a n Errno.eperm m = record { result = tt; vmaps = refl; lru = refl }
  readv_error-Reads a n Errno.eacces m = record { result = tt; vmaps = refl; lru = refl }
  readv_error-Reads a n Errno.other m = record { result = tt; vmaps = refl; lru = refl }
  readv_error-Reads a n Errno.enosys m = mem_file-Reads a n m

  readv_loop-Reads :
      (fuel a n : ℕ) (done : Bytes) (m : Manager)
      → n < 2 ^ 63
      → a + n < word
      → length done ≤ n
      → n < fuel + length done
      → done ≡ window mem a (length done)
      → ReadsDirectly mem a n m (readv_loop k fuel a n done m)
  unfolding readv_loop
  readv_loop-Reads zero a n done m small top part fuelled sofar = absurd (omega arith)
  readv_loop-Reads (suc fuel) a n done m small top part fuelled sofar =
      go (λ done'. readv_loop-Reads fuel a n done' (record m { calls = m.calls + 1 }) small top)
        (k.process_vm_readv m.calls (add64 a (length done)) (sub64 n (length done))) refl
    where
      after_copy :
          (bytes : Bytes)
          → k.process_vm_readv m.calls (add64 a (length done)) (sub64 n (length done))
            ≡ copied bytes
          → (done ++ bytes ≡ window mem a (length done + length bytes))
            × (length done + length bytes ≤ n)
            × (sub64 n (length done) ≡ n - length done)
            × (length done < n → 0 < length bytes)
      after_copy bytes e = (
        joined mem a (add64 a (length done)) done bytes (omega (arith, add64_exact a (length done)))
            sofar (faithful.readv_bytes _ _ _ bytes e),
        omega (arith, sub64_exact n (length done), faithful.readv_most _ _ _ bytes e),
        omega (arith, sub64_exact n (length done)),
        λ more. faithful.readv_some _ _ _ bytes e (omega (arith, sub64_exact n (length done))),
      )

      go :
          ((done' : Bytes)
            → length done' ≤ n
            → n < fuel + length done'
            → done' ≡ window mem a (length done')
            → ReadsDirectly mem a n
                (record m { calls = m.calls + 1 })
                (readv_loop k fuel a n done' (record m { calls = m.calls + 1 })))
          → (r : Readv)
          → k.process_vm_readv m.calls (add64 a (length done)) (sub64 n (length done)) ≡ r
          → ReadsDirectly mem a n m (readv_loop k (suc fuel) a n done m)
      go again (failed e) eq =
          let v = readv_error-Reads a n e (record m { calls = m.calls + 1 }) in
          rw (eq, readv_loop) (record { result = v.result; vmaps = v.vmaps; lru = v.lru })
      go again (copied bytes) eq =
          let (joins, most, wanted, some') = after_copy bytes eq in
          let len = length-append done bytes in
          rw (eq, readv_loop)
            (elim (Bool-cases (length bytes == sub64 n (length done))) [
              | inl last ↦ rw last (record {
                result = joins ∙ ap (window mem a) (ground arith);
                vmaps = refl;
                lru = refl;
              })
              | inr more ↦
                  let v =
                    again (done ++ bytes) (omega (arith, len)) (ground (arith, len))
                      (rw len joins) in
                  rw more (record { result = v.result; vmaps = v.vmaps; lru = v.lru })
            ])

  read_chunk_direct-Reads :
      (a n : ℕ) (m : Manager)
      → n < 2 ^ 63
      → a + n < word
      → ReadsDirectly mem a n m (read_chunk_direct k a n m)
  unfolding read_chunk_direct
  read_chunk_direct-Reads a n m small top =
      readv_loop-Reads (n + 1) a n [] m small top (omega arith) (omega arith)
        (unfold window in refl)

  -- Whichever way it reads, and however the kernel splits the copy, `readChunk` returns the bytes of
  -- the memory or throws one of its exceptions: the loop ends. It leaves the maps and the cache alone.
  pub read_chunk-Reads :
      (a n : ℕ) (m : Manager)
      → n < 2 ^ 63
      → a + n < word
      → ReadsDirectly mem a n m (read_chunk k a n m)
  unfolding read_chunk
  read_chunk-Reads a n m small top = elim (Bool-cases (m.memfile || k.no_vm_readv)) [
    | inl file ↦ rw file (mem_file-Reads a n m)
    | inr direct ↦ rw direct (read_chunk_direct-Reads a n m small top)
  ]

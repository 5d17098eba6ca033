-- ===== src/Memory/Process.antt =====
-- `ProcessMemoryManager` of mem.h and mem.cpp. What the operating system does is a parameter.
pub mod Window
pub mod Reads
pub mod Coherence
pub mod Refinement
mod Tests
use pystack.Prelude.{
  ℕ, zero, suc, ◌+◌, ◌-◌, Bool, true, false, not, ◌&&◌, ◌||◌, Option, none, some, List, [], ◌∷◌,
  ◌++◌, length, take, drop, leb, ltb, ◌==◌, if◌then◌else◌, add64, sub64,
}
use pystack.Memory.Exec.{
  Failure, invalid_remote_address, permission_denied, system_error, open_failed, range_error,
  undefined, out_of_fuel, Result, ok, throw, Exec, after, ◌>>=◌,
}
use pystack.Memory.Lru.{LruCache, can_fit, exists}
use pystack.Memory.Lru
use pystack.Memory.Maps.{Bytes, VirtualMap, contains_addr, map_size}

pub data Errno : Type 0 where
  efault eperm eacces enosys other : Errno

-- `process_vm_readv`: the bytes that it copied, or -1 and `errno`.
pub data Readv : Type 0 where
  copied : Bytes → Readv
  failed : Errno → Readv

-- The calls into the operating system. The first argument counts the calls made so far, so that
-- answers may change over time.
pub record Kernel : Type 0 where
  -- (call, address, length)
  pub process_vm_readv : ℕ → ℕ → ℕ → Readv
  -- `fopen` of /proc/PID/mem
  pub open_mem : ℕ → Option Errno
  -- `ftello` after `fseeko`
  pub seek : ℕ → ℕ → ℕ
  -- `fread` at the place found by `seek`
  pub fread : ℕ → ℕ → ℕ → Bytes
  -- _PYSTACK_NO_PROCESS_VM_READV is set
  pub no_vm_readv : Bool

pub record Manager : Type 0 where
  pub vmaps : List VirtualMap
  pub lru : LruCache
  pub memfile : Bool
  pub calls : ℕ

-- 50 MB
abbrev pub cache_capacity : ℕ
cache_capacity = 50_000_000

unfoldable pub init : List VirtualMap → Manager
unfolding Lru.init
init vmaps = record { vmaps = vmaps; lru = Lru.init cache_capacity; memfile = false; calls = 0 }

abbrev count : Manager → Manager
count m = record m { calls = m.calls + 1 }

open_error : Errno → Failure
open_error eperm = permission_denied
open_error eacces = permission_denied
open_error _ = open_failed

-- `memcpy` from `offset` of a buffer; past its end C++ does not define it.
copy_out : ℕ → ℕ → Bytes → Result Bytes
copy_out offset len bytes =
    if leb (offset + len) (length bytes) then ok (take len (drop offset bytes)) else throw undefined

-- `memcpy(dst, d_lru_cache.get(key).data() + offset, len)`
pub serve : ℕ → ℕ → ℕ → Exec Manager Bytes
unfolding copy_out
serve key offset len m = elim (Lru.get m.lru key) [
  | none ↦ (throw range_error, m)
  | some (lru, bytes) ↦ (copy_out offset len bytes, record m { lru = lru })
]

pub store : ℕ → Bytes → Exec Manager (Unit {0})
store key bytes m = elim (Lru.put m.lru key bytes) [
  | none ↦ (throw undefined, m)
  | some lru ↦ (ok tt, record m { lru = lru })
]

unfoldable pub find_map : ℕ → ℕ → List VirtualMap → Option VirtualMap
find_map addr len [] = none
find_map addr len (v ∷ vs) =
    if contains_addr v addr && contains_addr v (sub64 (add64 addr len) 1)
    then some v
    else find_map addr len vs

module _ (k : Kernel) where
  -- `fseeko`, `ftello` and `fread` on the open file.
  read_open_file : ℕ → ℕ → Exec Manager Bytes
  read_open_file addr len m =
      let bytes = k.fread m.calls addr len in
      if k.seek m.calls addr == addr && length bytes == len
      then (ok bytes, count m)
      else (throw invalid_remote_address, count m)

  -- `d_memfile = fopen(…)`
  open_file : Exec Manager (Unit {0})
  unfolding open_error
  open_file m = elim (k.open_mem m.calls) [
    | none ↦ (ok tt, record m { calls = m.calls + 1; memfile = true })
    | some e ↦ (throw (open_error e), count m)
  ]

  pub read_chunk_through_mem_file : ℕ → ℕ → Exec Manager Bytes
  unfolding open_file read_open_file
  read_chunk_through_mem_file addr len m =
      if m.memfile
      then read_open_file addr len m
      else (open_file >>= λ _. read_open_file addr len) m

  -- One answer of the system call inside the `do` loop: go on after the `n` bytes, or stop.
  readv_error : ℕ → ℕ → Errno → Exec Manager Bytes
  unfolding read_chunk_through_mem_file
  readv_error addr len efault m = (throw invalid_remote_address, m)
  readv_error addr len eperm m = (throw permission_denied, m)
  readv_error addr len enosys m = read_chunk_through_mem_file addr len m
  readv_error addr len _ m = (throw system_error, m)

  -- The `do … while` loop, after the bytes `done`, with fuel.
  readv_loop : ℕ → ℕ → ℕ → Bytes → Exec Manager Bytes
  unfolding readv_error
  readv_loop zero addr len done m = (throw out_of_fuel, m)
  readv_loop (suc fuel) addr len done m =
      let wanted = sub64 len (length done) in
      elim (k.process_vm_readv m.calls (add64 addr (length done)) wanted) [
        | failed e ↦ readv_error addr len e (count m)
        | copied bytes ↦
            if length bytes == wanted
            then (ok (done ++ bytes), count m)
            else readv_loop fuel addr len (done ++ bytes) (count m)
      ]

  -- Every round but the last copies at least a byte.
  pub read_chunk_direct : ℕ → ℕ → Exec Manager Bytes
  unfolding readv_loop
  read_chunk_direct addr len = readv_loop (len + 1) addr len []

  pub read_chunk : ℕ → ℕ → Exec Manager Bytes
  read_chunk addr len m =
      if m.memfile || k.no_vm_readv
      then read_chunk_through_mem_file addr len m
      else read_chunk_direct addr len m

  -- The handler: a map that cannot be read whole is read directly.
  on_invalid : ℕ → ℕ → Failure → Exec Manager Bytes
  on_invalid addr len invalid_remote_address = read_chunk addr len
  on_invalid addr len e = λ m. (throw e, m)

  -- After the `try` block's read of the whole map.
  cached : ℕ → ℕ → ℕ → Result Bytes → Exec Manager Bytes
  cached key addr len (ok bytes) = store key bytes >>= λ _. serve key (sub64 addr key) len
  cached key addr len (throw e) = on_invalid addr len e

  copy_from_map : VirtualMap → ℕ → ℕ → Exec Manager Bytes
  copy_from_map v addr len m =
      if exists m.lru v.start
      then serve v.start (sub64 addr v.start) len m
      else let (r, m') = read_chunk v.start (map_size v) m in cached v.start addr len r m'

  pub copy_memory : ℕ → ℕ → Exec Manager Bytes
  copy_memory addr len m = elim (find_map addr len m.vmaps) [
    | none ↦ read_chunk addr len m
    | some v ↦
        if can_fit m.lru (map_size v) then copy_from_map v addr len m else read_chunk addr len m
  ]

-- `isAddressValid`
unfoldable pub is_address_valid : ℕ → VirtualMap → Bool
is_address_valid addr v = not (addr == 0) && (leb v.start addr && ltb addr v.end)

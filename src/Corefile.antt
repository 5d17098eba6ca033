-- ===== src/Corefile.antt =====
-- The notes of a core file, in corefile.h and corefile.cpp: `parseCorePsinfo`, `parseCorePrstatus`,
-- `parseCoreSiginfo` and the methods that call them. What libelf says of the file is a parameter.
pub mod Mapped
pub mod Notes
pub mod Segments
mod Reads
mod Crash
mod Names
mod Encoded
mod Found
mod Kept
mod Tests
mod NoteTests
use pystack.Prelude.{
  ℕ, zero, suc, ◌+◌, ◌-◌, ◌*◌, ◌/◌, ◌^◌, Bool, true, false, not, ◌&&◌, ◌||◌, Option, none, some,
  List, [], ◌∷◌, ◌++◌, take, drop, length, leb, ltb, ◌==◌, if◌then◌else◌,
}
use pystack.Memory.Maps.{Bytes}
use pystack.Version.{little_endian}

pub data StatusCode : Type 0 where
  success error : StatusCode

-- `gelf_fsize` of ELF_T_WORD, ELF_T_ADDR and ELF_T_AUXV, and whether `gelf_getclass` is ELFCLASS64.
pub record Elf : Type 0 where
  pub word_size : ℕ
  pub address_size : ℕ
  pub auxv_size : ℕ
  pub is_64 : Bool

-- `gelf_getauxv` gives the type and the value of the entry at an index. `beyond` is what can be read in
-- the memory behind the data: the file is mapped.
pub record NoteData : Type 0 where
  pub elf : Elf
  pub d_buf : Bytes
  pub beyond : Bytes
  pub descriptor_size : ℕ
  pub getauxv : ℕ → Option (ℕ × ℕ)

-- The sizes of the C library's `siginfo_t` and `prstatus_t`, and where `pr_info` has its numbers.
pub record Headers : Type 0 where
  pub siginfo_size : ℕ
  pub prstatus_size : ℕ
  pub signo_at : ℕ
  pub errno_at : ℕ
  pub code_at : ℕ

pub record CoreCrashInfo : Type 0 where
  pub si_signo : ℕ
  pub si_errno : ℕ
  pub si_code : ℕ
  pub sender_pid : ℕ
  pub sender_uid : ℕ
  pub failed_addr : ℕ

pub record CorePsInfo : Type 0 where
  pub state : ℕ
  pub sname : ℕ
  pub zomb : ℕ
  pub nice : ℕ
  pub flag : ℕ
  pub uid : ℕ
  pub gid : ℕ
  pub pid : ℕ
  pub ppid : ℕ
  pub pgrp : ℕ
  pub sid : ℕ
  pub fname : Bytes
  pub psargs : Bytes

-- `none` is behaviour that C++ leaves open.
infixl 5 ◌>>=◌
abbrev pub ◌>>=◌ : {A B : Type 0} → Option A → (A → Option B) → Option B
none >>= f = none
some a >>= f = f a

-- `read_obj` of so many bytes into a number of `dest` bytes that holds `old`: the bytes that are not
-- written stay. It gives the number and what follows.
unfoldable pub read_obj : ℕ → ℕ → ℕ → Bytes → Option (ℕ × Bytes)
unfolding little_endian
read_obj size dest old ptr =
    if leb size dest && leb size (length ptr)
    then some (old / 256 ^ size * 256 ^ size + little_endian (take size ptr), drop size ptr)
    else none

-- The numbers of a structure by their places.
abbrev number_at : ℕ → ℕ → Bytes → ℕ
number_at offset size buffer = little_endian (take size (drop offset buffer))

abbrev fname_size : ℕ
fname_size = 16

abbrev psargs_size : ℕ
psargs_size = 80

-- A text whose last byte is set to NUL.
abbrev terminated : ℕ → Bytes → Bytes
terminated size buffer = take (size - 1) buffer ++ (0 ∷ [])

unfoldable pub parse_core_psinfo : NoteData → CorePsInfo → StatusCode × CorePsInfo
unfolding little_endian
parse_core_psinfo note result = if not (length note.d_buf == 136) then (error, result) else (
  success,
  record {
    state = number_at 0 1 note.d_buf;
    sname = number_at 1 1 note.d_buf;
    zomb = number_at 2 1 note.d_buf;
    nice = number_at 3 1 note.d_buf;
    flag = number_at 8 8 note.d_buf;
    uid = number_at 16 4 note.d_buf;
    gid = number_at 20 4 note.d_buf;
    pid = number_at 24 4 note.d_buf;
    ppid = number_at 28 4 note.d_buf;
    pgrp = number_at 32 4 note.d_buf;
    sid = number_at 36 4 note.d_buf;
    fname = terminated fname_size (take fname_size (drop 40 note.d_buf));
    psargs = terminated psargs_size (take psargs_size (drop 56 note.d_buf));
  },
)

-- What `{}` makes.
abbrev pub no_crash : CoreCrashInfo
no_crash = record {
  si_signo = 0;
  si_errno = 0;
  si_code = 0;
  sender_pid = 0;
  sender_uid = 0;
  failed_addr = 0;
}

abbrev zeros : ℕ → Bytes
zeros zero = []
zeros (suc n) = 0 ∷ zeros n

abbrev pub no_psinfo : CorePsInfo
no_psinfo = record {
  state = 0;
  sname = 0;
  zomb = 0;
  nice = 0;
  flag = 0;
  uid = 0;
  gid = 0;
  pid = 0;
  ppid = 0;
  pgrp = 0;
  sid = 0;
  fname = zeros fname_size;
  psargs = zeros psargs_size;
}

-- The number `si_code > 0` by its 32 bits.
abbrev pub is_positive : ℕ → Bool
is_positive n = not (n == 0) && ltb n (2 ^ 31)

-- SIGILL, SIGFPE, SIGSEGV and SIGBUS
abbrev pub is_fault : ℕ → Bool
is_fault signo = signo == 4 || (signo == 8 || (signo == 11 || signo == 7))

-- What stands after the three numbers and depends on them.
unfoldable pub read_sender : Elf → Bytes → CoreCrashInfo → Option CoreCrashInfo
unfolding read_obj
read_sender elf ptr result =
    if is_positive result.si_code
    then if is_fault result.si_signo
      then (read_obj elf.address_size 8 result.failed_addr ptr >>= λ failed_addr.
          some (record result { failed_addr = failed_addr.0 }))
      else some result
    else if result.si_code == 0
    then (read_obj elf.word_size 4 result.sender_pid ptr >>= λ sender_pid.
        read_obj elf.word_size 4 result.sender_uid sender_pid.1 >>= λ sender_uid.
        some (record result { sender_pid = sender_pid.0; sender_uid = sender_uid.0 }))
    else some result

unfoldable pub skip : ℕ → Bytes → Option Bytes
skip n ptr = if leb n (length ptr) then some (drop n ptr) else none

module _ (headers : Headers) where
  unfoldable pub parse_core_siginfo : NoteData → CoreCrashInfo → Option (StatusCode × CoreCrashInfo)
  unfolding read_obj read_sender skip
  parse_core_siginfo note result =
      if not (length note.d_buf == headers.siginfo_size)
      then some (error, result)
      else read_obj note.elf.word_size 4 result.si_signo note.d_buf >>= λ signo.
          read_obj note.elf.word_size 4 result.si_errno signo.1 >>= λ errno.
          read_obj note.elf.word_size 4 result.si_code errno.1 >>= λ code.
          skip (if note.elf.is_64 then 4 else 0) code.1 >>= λ ptr.
          read_sender note.elf ptr
            (record result { si_signo = signo.0; si_errno = errno.0; si_code = code.0 })
          >>= λ result. some (success, result)

  unfoldable pub parse_core_prstatus : NoteData → CoreCrashInfo → StatusCode × CoreCrashInfo
  unfolding little_endian
  parse_core_prstatus note result =
      if not (length note.d_buf == headers.prstatus_size) then (error, result) else (
        success,
        record no_crash {
          si_signo = number_at headers.signo_at 4 note.d_buf;
          si_errno = number_at headers.errno_at 4 note.d_buf;
          si_code = number_at headers.code_at 4 note.d_buf;
        },
      )

-- The loops over the notes of a type: up to the first that is not refused.
unfoldable pub first_success :
    {S : Type 0}
    → (NoteData → S → Option (StatusCode × S))
    → List NoteData
    → S
    → Option (StatusCode × S)
first_success parse [] s = some (error, s)
first_success parse (note ∷ notes) s =
    parse note s >>= λ r. elim r.0 [ success ↦ some r | error ↦ first_success parse notes r.1 ]

-- `getNoteData` of each type.
pub record CoreFile : Type 0 where
  pub elf : Elf
  pub siginfo_notes : List NoteData
  pub prstatus_notes : List NoteData
  pub psinfo_notes : List NoteData
  pub file_notes : List NoteData
  pub auxv_notes : List NoteData

unfoldable pub extract_failure_info : Headers → CoreFile → Option CoreCrashInfo
unfolding first_success parse_core_siginfo parse_core_prstatus
extract_failure_info headers core =
    first_success (parse_core_siginfo headers) core.siginfo_notes no_crash >>= λ r. elim r.0 [
      | success ↦ some r.1
      | error ↦
          first_success (λ note s. some (parse_core_prstatus headers note s)) core.prstatus_notes
            r.1
          >>= λ r. elim r.0 [ success ↦ some r.1 | error ↦ some no_crash ]
    ]

unfoldable pub extract_ps_info : CoreFile → Option CorePsInfo
unfolding first_success parse_core_psinfo
extract_ps_info core =
    first_success (λ note s. some (parse_core_psinfo note s)) core.psinfo_notes no_psinfo >>= λ r.
    elim r.0 [ success ↦ some r.1 | error ↦ some no_psinfo ]

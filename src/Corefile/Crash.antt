-- ===== src/Corefile/Crash.antt =====
-- `extractFailureInfo` of corefile.cpp reads what a 64-bit kernel writes of a signal.
use pystack.Prelude.{ℕ, ◌^◌, ◌<◌, ◌≡◌, ◌≢◌, ◌⊎◌, arith, true, false, some, ◌++◌}
use pystack.Memory.Maps.{Bytes}
use pystack.Version.Hex.{to_bytes}
use pystack.Corefile.{Elf, CoreCrashInfo, read_obj, is_positive, is_fault}
use pystack.Corefile.Reads.{read_obj-to_bytes}

-- Why a signal came: a fault at an address, a process that sent it, or something else.
pub data Cause : Type 0 where
  fault : ℕ → Cause
  sent : ℕ → ℕ → Cause
  other : Cause

-- Which causes the numbers of a signal go with, whose parts fit where the kernel writes them.
abbrev pub IsCause : ℕ → ℕ → Cause → Type 0
IsCause signo code (fault addr) =
    (is_positive code ≡ true) × (is_fault signo ≡ true) × (addr < 256 ^ 8)
IsCause signo code (sent pid uid) = (code ≡ 0) × (pid < 256 ^ 4) × (uid < 256 ^ 4)
IsCause signo code other =
    ((is_positive code ≡ true) × (is_fault signo ≡ false))
    ⊎ ((is_positive code ≡ false) × (code ≢ 0))

abbrev pub cause_bytes : Cause → Bytes → Bytes
cause_bytes (fault addr) rest = to_bytes 8 addr ++ rest
cause_bytes (sent pid uid) rest = to_bytes 4 pid ++ (to_bytes 4 uid ++ rest)
cause_bytes other rest = rest

-- The three numbers, four bytes that align, the cause, and the rest.
abbrev pub siginfo_bytes : ℕ → ℕ → ℕ → Cause → Bytes → Bytes
siginfo_bytes signo errno code cause rest =
    to_bytes 4 signo
    ++ (to_bytes 4 errno ++ (to_bytes 4 code ++ (to_bytes 4 0 ++ cause_bytes cause rest)))

abbrev pub crash_of : ℕ → ℕ → ℕ → Cause → CoreCrashInfo
crash_of signo errno code cause = elim cause [
  | fault addr ↦ record {
    si_signo = signo;
    si_errno = errno;
    si_code = code;
    sender_pid = 0;
    sender_uid = 0;
    failed_addr = addr;
  }
  | sent pid uid ↦ record {
    si_signo = signo;
    si_errno = errno;
    si_code = code;
    sender_pid = pid;
    sender_uid = uid;
    failed_addr = 0;
  }
  | other ↦ record {
    si_signo = signo;
    si_errno = errno;
    si_code = code;
    sender_pid = 0;
    sender_uid = 0;
    failed_addr = 0;
  }
]

pub record Is64 (elf : Elf) : Type 0 where
  pub word_size : elf.word_size ≡ 4
  pub address_size : elf.address_size ≡ 8
  pub is_64 : elf.is_64 ≡ true

read_word :
    (elf : Elf)
    → Is64 elf
    → (n : ℕ) (rest : Bytes) → n < 256 ^ 4
    → read_obj elf.word_size 4 0 (to_bytes 4 n ++ rest) ≡ some (n, rest)
read_word elf is n rest h = rw is.word_size (read_obj-to_bytes 4 4 n rest (omega arith) h)

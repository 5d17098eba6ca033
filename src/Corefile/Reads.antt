-- ===== src/Corefile/Reads.antt =====
-- What `read_obj` and the reading of names in corefile.cpp give on bytes that were written so.
use pystack.Prelude.{
  drop-append, ℕ, zero, suc, ◌+◌, ◌*◌, ◌/◌, ◌^◌, ◌<◌, ◌≤◌, ◌≡◌, ◌≢◌, refl, ap, arith, true, some,
  none, ==_false, [], ◌∷◌, ◌++◌, length, length-append, take-append, leb, ◌==◌,
}
use pystack.Memory.Maps.{Bytes}
use pystack.Version.Hex.{to_bytes, little_endian-to_bytes}
use pystack.Corefile.{Elf, read_obj}
use pystack.Corefile.Mapped.{c_string, after_nul, read_ulong}

pub length-to_bytes : (size n : ℕ) → length (to_bytes size n) ≡ size
length-to_bytes zero n = refl
length-to_bytes (suc size) n = ap suc (length-to_bytes size (n / 256))

-- A number is read back by the bytes it was written with.
pub read_obj-to_bytes :
    (size dest n : ℕ) (rest : Bytes)
    → size ≤ dest
    → n < 256 ^ size
    → read_obj size dest 0 (to_bytes size n ++ rest) ≡ some (n, rest)
unfolding read_obj
read_obj-to_bytes size dest n rest h k =
    let len = length-to_bytes size n in
    let fits : leb size (length (to_bytes size n ++ rest)) ≡ true =
      rw (length-append (to_bytes size n) rest, len) (ground arith) in
    let small : leb size dest ≡ true = ground arith in
    let clear : 0 / 256 ^ size * 256 ^ size + n ≡ n = omega arith in
    rw
      (
        small,
        fits,
        take-append (to_bytes size n) rest size len,
        drop-append (to_bytes size n) rest size len,
        little_endian-to_bytes size n k,
        clear,
      )
      refl

pub read_ulong-to_bytes :
    (elf : Elf) (n : ℕ) (rest : Bytes)
    → elf.address_size ≡ 8
    → n < 256 ^ 8
    → read_ulong elf (to_bytes 8 n ++ rest) ≡ some (n, rest)
unfolding read_ulong
read_ulong-to_bytes elf n rest e h =
    let is_8 : (elf.address_size == 8) ≡ true = rw e refl in
    rw is_8 (read_obj-to_bytes 8 8 n rest (omega arith) h)

-- A text has no NUL.
abbrev pub IsName : Bytes → Type 0
IsName [] = Unit {0}
IsName (c ∷ name) = (c ≢ 0) × IsName name

pub c_string-IsName : (name rest : Bytes) → IsName name → c_string (name ++ (0 ∷ rest)) ≡ some name
unfolding c_string
c_string-IsName [] rest h = refl
c_string-IsName (c ∷ name) rest (nonzero, h) =
    rw (==_false c 0 nonzero, c_string-IsName name rest h) refl

pub after_nul-IsName :
    (name rest : Bytes) → IsName name → after_nul (name ++ (0 ∷ rest)) ≡ some rest
unfolding after_nul
after_nul-IsName [] rest h = refl
after_nul-IsName (c ∷ name) rest (nonzero, h) =
    rw (==_false c 0 nonzero) (after_nul-IsName name rest h)

pub after_nul-none : (name : Bytes) → IsName name → after_nul name ≡ none
unfolding after_nul
after_nul-none [] h = refl
after_nul-none (c ∷ name) (nonzero, h) = rw (==_false c 0 nonzero) (after_nul-none name h)

pub IsName-append : (xs ys : Bytes) → IsName xs → IsName ys → IsName (xs ++ ys)
IsName-append [] ys h k = k
IsName-append (x ∷ xs) ys (nonzero, h) k = (nonzero, IsName-append xs ys h k)

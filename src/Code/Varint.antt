-- ===== src/Code/Varint.antt =====
-- The variable-length numbers of the location table, written and read back.
use pystack.Prelude.{
  ℕ, zero, suc, ◌+◌, ◌*◌, ◌/◌, ◌%◌, ◌^◌, ◌<◌, ◌≡◌, refl, ap, ◌∙◌, inl, inr, true, false, [], ◌∷◌,
  ◌++◌, arith, leb, ltb, ◌==◌, if◌then◌else◌, Bool-cases, bit_or-shifted, word32, sub32,
}
use native.Mathlib.Nat.{mul-le-mul_right}
use pystack.Memory.Maps.{Bytes}
use pystack.Code.Scan.{done, next, scan_groups, scan_varint, scan_signed_varint}

-- Groups of six bits, the lowest first; all but the last carry the bit 64. Six groups hold 32 bits.
unfoldable pub groups : ℕ → ℕ → Bytes
groups zero n = []
groups (suc fuel) n =
    let rest = groups fuel (n / 64) in if ltb n 64 then n ∷ [] else (n % 64 + 64) ∷ rest

unfoldable pub encode_varint : ℕ → Bytes
unfolding groups
encode_varint n = groups 6 n

-- A byte that does not go on ends the number.
scan_groups-last :
    (n val shift : ℕ) (rest : Bytes)
    → n < 64
    → shift + 6 < 32
    → val < 2 ^ (shift + 6)
    → n * 2 ^ (shift + 6) < word32
    → scan_groups val shift (n ∷ rest) ≡ done (val + n * 2 ^ (shift + 6), rest)
unfolding scan_groups
scan_groups-last n val shift rest last room small fits =
    rw
      (
        let e : leb 32 (shift + 6) ≡ false = ground arith in e,
        let e : (n / 64 % 2 == 1) ≡ false = ground arith in e,
        let e : n % 64 ≡ n = omega arith in e,
        let e : n * 2 ^ (shift + 6) % word32 ≡ n * 2 ^ (shift + 6) = omega arith in e,
        bit_or-shifted (shift + 6) val n small,
      )
      refl

-- A byte that goes on adds its six bits.
scan_groups-more :
    (n val shift : ℕ) (rest : Bytes)
    → shift + 6 < 32
    → val < 2 ^ (shift + 6)
    → n % 64 * 2 ^ (shift + 6) < word32
    → scan_groups val shift ((n % 64 + 64) ∷ rest)
      ≡ scan_groups (val + n % 64 * 2 ^ (shift + 6)) (shift + 6) rest
unfolding scan_groups
scan_groups-more n val shift rest room small fits =
    rw
      (
        let e : leb 32 (shift + 6) ≡ false = ground arith in e,
        let e : ((n % 64 + 64) / 64 % 2 == 1) ≡ true = ground arith in e,
        let e : (n % 64 + 64) % 64 ≡ n % 64 = omega arith in e,
        let e : n % 64 * 2 ^ (shift + 6) % word32 ≡ n % 64 * 2 ^ (shift + 6) = omega arith in e,
        bit_or-shifted (shift + 6) val (n % 64) small,
      )
      refl

-- The groups that fit above bit 30.
groups_at_30 :
    (n val : ℕ) (rest : Bytes)
    → n < 4
    → val < 2 ^ 30
    → scan_groups val 24 (groups 1 n ++ rest) ≡ done (val + n * 2 ^ 30, rest)
unfolding groups
groups_at_30 n val rest few small =
    rw (let e : ltb n 64 ≡ true = ground arith in e)
      (scan_groups-last n val 24 rest (omega arith) (omega arith) small (omega arith))

-- One group, where the groups after it are read back.
groups-step :
    (fuel n val shift : ℕ) (rest : Bytes)
    → shift + 6 < 32
    → val < 2 ^ (shift + 6)
    → n * 2 ^ (shift + 6) < word32
    → (scan_groups (val + n % 64 * 2 ^ (shift + 6)) (shift + 6) (groups fuel (n / 64) ++ rest)
        ≡ done (val + n * 2 ^ (shift + 6), rest))
    → scan_groups val shift (groups (suc fuel) n ++ rest) ≡ done (val + n * 2 ^ (shift + 6), rest)
unfolding groups
groups-step fuel n val shift rest room small fits later = elim (Bool-cases (ltb n 64)) [
  | inl last ↦ rw last (scan_groups-last n val shift rest (ground arith) room small fits)
  | inr more ↦ rw more (
      scan_groups-more n val shift (groups fuel (n / 64) ++ rest) room small
        (omega (arith, mul-le-mul_right {m = n % 64} {n = n} (2 ^ (shift + 6)) (omega arith)))
      ∙ later)
]

groups_at_24 :
    (n val : ℕ) (rest : Bytes)
    → n < 2 ^ 8
    → val < 2 ^ 24
    → scan_groups val 18 (groups 2 n ++ rest) ≡ done (val + n * 2 ^ 24, rest)
groups_at_24 n val rest few small = groups-step 1 n val 18 rest (omega arith) small (omega arith) (
    groups_at_30 (n / 64) (val + n % 64 * 2 ^ 24) rest (omega arith) (omega arith)
    ∙ ap (λ (t : ℕ). done (t, rest)) (omega arith))

groups_at_18 :
    (n val : ℕ) (rest : Bytes)
    → n < 2 ^ 14
    → val < 2 ^ 18
    → scan_groups val 12 (groups 3 n ++ rest) ≡ done (val + n * 2 ^ 18, rest)
groups_at_18 n val rest few small = groups-step 2 n val 12 rest (omega arith) small (omega arith) (
    groups_at_24 (n / 64) (val + n % 64 * 2 ^ 18) rest (omega arith) (omega arith)
    ∙ ap (λ (t : ℕ). done (t, rest)) (omega arith))

groups_at_12 :
    (n val : ℕ) (rest : Bytes)
    → n < 2 ^ 20
    → val < 2 ^ 12
    → scan_groups val 6 (groups 4 n ++ rest) ≡ done (val + n * 2 ^ 12, rest)
groups_at_12 n val rest few small = groups-step 3 n val 6 rest (omega arith) small (omega arith) (
    groups_at_18 (n / 64) (val + n % 64 * 2 ^ 12) rest (omega arith) (omega arith)
    ∙ ap (λ (t : ℕ). done (t, rest)) (omega arith))

groups_at_6 :
    (n val : ℕ) (rest : Bytes)
    → n < 2 ^ 26
    → val < 2 ^ 6
    → scan_groups val 0 (groups 5 n ++ rest) ≡ done (val + n * 2 ^ 6, rest)
groups_at_6 n val rest few small = groups-step 4 n val 0 rest (omega arith) small (omega arith) (
    groups_at_12 (n / 64) (val + n % 64 * 2 ^ 6) rest (omega arith) (omega arith)
    ∙ ap (λ (t : ℕ). done (t, rest)) (omega arith))

encode_varint-step :
    (n : ℕ) → encode_varint n ≡ (if ltb n 64 then n ∷ [] else (n % 64 + 64) ∷ groups 5 (n / 64))
unfolding encode_varint groups
encode_varint-step n = refl

-- A number of an `unsigned int`, encoded and followed by anything, is read back with what follows it.
pub scan_varint-encode_varint :
    (n : ℕ) (rest : Bytes) → n < word32 → scan_varint (encode_varint n ++ rest) ≡ done (n, rest)
unfolding scan_varint next
scan_varint-encode_varint n rest fits = elim (Bool-cases (ltb n 64)) [
  | inl last ↦
      rw
        (
          encode_varint-step n,
          last,
          let e : (n / 64 % 2 == 1) ≡ false = ground arith in e,
          let e : n % 64 ≡ n = ground arith in e,
        )
        refl
  | inr more ↦
      rw
        (
          encode_varint-step n,
          more,
          let e : ((n % 64 + 64) / 64 % 2 == 1) ≡ true = ground arith in e,
          let e : (n % 64 + 64) % 64 ≡ n % 64 = omega arith in e,
        )
        (groups_at_6 (n / 64) (n % 64) rest (omega arith) (omega arith)
          ∙ ap (λ (t : ℕ). done (t, rest)) (omega arith))
]

-- A difference of lines.
pub data Delta : Type 0 where
  forward backward : ℕ → Delta

-- The sign is the lowest bit.
unfoldable pub encode_signed_varint : Delta → Bytes
encode_signed_varint (forward k) = encode_varint (k * 2)
encode_signed_varint (backward k) = encode_varint (k * 2 + 1)

unfoldable pub distance : Delta → ℕ
distance (forward k) = k
distance (backward k) = k

-- What the `int` is.
unfoldable pub delta_value : Delta → ℕ
delta_value (forward k) = k
delta_value (backward k) = sub32 0 k

-- A difference of less than 2 ^ 31, encoded and followed by anything, is read back with what follows it.
pub scan_signed_varint-encode_signed_varint :
    (delta : Delta) (rest : Bytes)
    → distance delta < 2 ^ 31
    → scan_signed_varint (encode_signed_varint delta ++ rest) ≡ done (delta_value delta, rest)
unfolding scan_signed_varint encode_signed_varint delta_value distance
scan_signed_varint-encode_signed_varint (forward k) rest fits =
    rw
      (
        scan_varint-encode_varint (k * 2) rest (omega arith),
        let e : (k * 2 % 2 == 1) ≡ false = ground arith in e,
        let e : k * 2 / 2 ≡ k = omega arith in e,
      )
      refl
scan_signed_varint-encode_signed_varint (backward k) rest fits =
    rw
      (
        scan_varint-encode_varint (k * 2 + 1) rest (omega arith),
        let e : ((k * 2 + 1) % 2 == 1) ≡ true = ground arith in e,
        let e : (k * 2 + 1) / 2 ≡ k = omega arith in e,
      )
      refl

-- ===== src/Process/Strings.antt =====
-- `getStringFromAddress`, `getBytesFromAddress` and `getCStringFromAddress` of process.cpp.
use pystack.Prelude.{
  ℕ, zero, suc, ◌+◌, ◌/◌, ◌%◌, ◌^◌, ◌-◌, ◌<◌, ◌≡◌, ◌≢◌, refl, ◌∙◌, arith, Bool, true, false, not,
  ◌&&◌, ◌||◌, [], ◌∷◌, take, drop, leb, ◌==◌, if◌then◌else◌, add64, add64_exact, word,
}
use pystack.Memory.Exec.{ok}
use pystack.Memory.Maps.{Bytes}
use pystack.Memory.Process.Window.{window}
use pystack.Offsets.Layout.{
  py_unicode, py_unicode_o_state, py_unicode_o_length, py_unicode_o_ascii, py_bytes,
  py_bytes_o_ob_size, py_bytes_o_ob_sval,
}
use pystack.Process.{
  Process, runtime_error, invalid_remote_object, open_behaviour, out_of_fuel, Run, done, stop, pure,
  ◌>>=◌, is_at_least, read, read_field, field_address,
}
use pystack.Version.{little_endian}

-- The bit fields `kind` and `compact` are both 1, for the two layouts of the state.
unfoldable pub is_compact : Bool → ℕ → Bool
is_compact true state = state / 2 ^ 8 % 8 == 1 && state / 2 ^ 11 % 2 == 1
is_compact false state = state / 2 ^ 2 % 8 == 1 && state / 2 ^ 5 % 2 == 1

-- `buffer.resize(len)` throws on a negative size.
unfoldable pub copy_text : Process → ℕ → ℕ → Run Bytes
unfolding read
copy_text p addr len = if leb (2 ^ 63) len then stop runtime_error else read p addr len

-- `ob_size` of the header of a `Python2::_PyStringObject`, which has 40 bytes; the text is at 36.
unfoldable pub old_string_size : Bytes → ℕ
unfolding little_endian
old_string_size header = little_endian (take 8 (drop 16 header))

unfoldable pub get_string_from_address : Process → ℕ → Run Bytes
unfolding copy_text is_compact old_string_size read read_field field_address is_at_least
get_string_from_address p addr =
    if p.version.0 == 2
    then (do header ← read p addr 40; copy_text p (add64 addr 36) (old_string_size header))
    else (do
      state ← read_field p py_unicode addr py_unicode_o_state
      if not (is_compact (is_at_least p 3 14 && p.free_threaded) state)
          then stop invalid_remote_object
          else (do
            len ← read_field p py_unicode addr py_unicode_o_length
            copy_text p (field_address p addr py_unicode_o_ascii) len))

-- `std::string(buffer.begin(), buffer.end() - 1)`, which an empty buffer does not have.
unfoldable pub without_last : ℕ → Bytes → Run Bytes
without_last len buffer = if len == 0 then stop open_behaviour else done (take (len - 1) buffer)

unfoldable pub get_bytes_from_address : Process → ℕ → Run Bytes
unfolding copy_text without_last old_string_size read read_field field_address
get_bytes_from_address p addr =
    if p.version.0 == 2
    then (do
      header ← read p addr 40
      let len = add64 (old_string_size header) 1
      buffer ← copy_text p (add64 addr 36) len
      without_last len buffer)
    else (do
      size ← read_field p py_bytes addr py_bytes_o_ob_size
      let len = add64 size 1
      if len == 0 || leb (2 ^ 63) len then stop runtime_error else (do
        buffer ← copy_text p (field_address p addr py_bytes_o_ob_sval) len
        without_last len buffer))

-- The loop up to the NUL, with fuel.
unfoldable pub get_c_string_from_address : ℕ → Process → ℕ → Run Bytes
unfolding read little_endian
get_c_string_from_address zero p addr = stop out_of_fuel
get_c_string_from_address (suc fuel) p addr = do
  byte ← read p addr 1
  let character = little_endian byte
  if character == 0
      then done []
      else (do rest ← get_c_string_from_address fuel p (add64 addr 1); pure (character ∷ rest))

-- Every byte of the text can be read, and none is 0.
abbrev pub IsText : (ℕ → ℕ) → ℕ → ℕ → Type 0
IsText mem addr zero = mem addr ≡ 0
IsText mem addr (suc n) = (mem addr ≢ 0) × IsText mem (suc addr) n

little_endian-byte : (b : ℕ) → little_endian (b ∷ []) ≡ b
unfolding little_endian
little_endian-byte b = omega arith

module _ (p : Process) (mem : ℕ → ℕ) (readable : (a : ℕ) → p.copy a 1 ≡ ok (mem a ∷ [])) where
  read_byte : (addr : ℕ) → read p addr 1 ≡ done (mem addr ∷ [])
  unfolding read
  read_byte addr = rw (readable addr) refl

  -- A text of `n` characters before its NUL is read by `n + 1` copies, whatever its address and length.
  pub get_c_string-window :
      (n addr : ℕ)
      → IsText mem addr n
      → addr + n < word
      → get_c_string_from_address (suc n) p addr ≡ done (window mem addr n)
  unfolding get_c_string_from_address window
  get_c_string-window zero addr text small =
      rw (read_byte addr, get_c_string_from_address, little_endian-byte (mem addr), text) refl
  get_c_string-window (suc n) addr text small =
      let e : (mem addr == 0) ≡ false = ground (arith, text.0) in
      let e' : add64 addr 1 ≡ suc addr = add64_exact addr 1 (omega arith) ∙ omega arith in
      rw
        (
          read_byte addr,
          get_c_string_from_address,
          little_endian-byte (mem addr),
          e,
          e',
          get_c_string-window n (suc addr) text.1 (omega arith),
        )
        refl

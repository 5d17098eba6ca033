-- ===== src/Memory/Process/Window.antt =====
-- The contents of a memory as lists of bytes.
use pystack.Prelude.{
  ℕ, zero, suc, ◌+◌, ◌≤◌, ◌≡◌, refl, [], ◌∷◌, ◌++◌, ap, arith, length, take, drop,
}
use pystack.Memory.Maps.{Bytes}

-- The `n` bytes from address `a` on.
unfoldable pub window : (ℕ → ℕ) → ℕ → ℕ → Bytes
window mem a zero = []
window mem a (suc n) = mem a ∷ window mem (suc a) n

module _ (mem : ℕ → ℕ) where
  pub length-window : (n a : ℕ) → length (window mem a n) ≡ n
  unfolding window
  length-window zero a = refl
  length-window (suc n) a = ap suc (length-window n (suc a))

  pub window-append : (n m a : ℕ) → window mem a n ++ window mem (a + n) m ≡ window mem a (n + m)
  unfolding window
  window-append zero m a =
      let e : a + 0 ≡ a = omega arith in let e' : 0 + m ≡ m = omega arith in rw (e, e')
  window-append (suc n) m a =
      let e : a + suc n ≡ suc a + n = omega arith in
      let e' : suc n + m ≡ suc (n + m) = omega arith in
      rw (e, e') (ap (◌∷◌ (mem a)) (window-append n m (suc a)))

  take-window : (len n a : ℕ) → len ≤ n → take len (window mem a n) ≡ window mem a len
  unfolding window
  take-window zero n a h = refl
  take-window (suc len) zero a h = absurd (omega arith)
  take-window (suc len) (suc n) a h = ap (◌∷◌ (mem a)) (take-window len n (suc a) (omega arith))

  pub slice-window :
      (off len n a : ℕ)
      → off + len ≤ n
      → take len (drop off (window mem a n)) ≡ window mem (a + off) len
  unfolding window
  slice-window zero len n a h =
      let e : a + 0 ≡ a = omega arith in rw e (take-window len n a (omega arith))
  slice-window (suc off) len zero a h = absurd (omega arith)
  slice-window (suc off) len (suc n) a h =
      let e : a + suc off ≡ suc a + off = omega arith in
      rw e (slice-window off len n (suc a) (omega arith))

-- ===== src/Memory/Maps.antt =====
-- `VirtualMap` of mem.h and mem.cpp. Text is the list of its bytes.
use pystack.Prelude.{ℕ, Bool, false, List, [], ◌∷◌, ◌&&◌, ◌||◌, ltb, leb, ◌==◌, sub64}

abbrev pub Bytes : Type 0
Bytes = List ℕ

pub record VirtualMap : Type 0 where
  pub start : ℕ
  pub end : ℕ
  pub filesize : ℕ
  pub flags : Bytes
  pub offset : ℕ
  pub device : Bytes
  pub inode : ℕ
  pub path : Bytes

unfoldable pub contains_addr : VirtualMap → ℕ → Bool
contains_addr m addr = leb m.start addr && ltb addr m.end

-- `Size()`
unfoldable pub map_size : VirtualMap → ℕ
map_size m = sub64 m.end m.start

-- `flags.find(c) != npos`
unfoldable pub has_byte : ℕ → Bytes → Bool
has_byte c [] = false
has_byte c (b ∷ bs) = b == c || has_byte c bs

unfoldable pub is_executable : VirtualMap → Bool
unfolding has_byte
is_executable m = has_byte b'x' m.flags

unfoldable pub is_readable : VirtualMap → Bool
unfolding has_byte
is_readable m = has_byte b'r' m.flags

unfoldable pub is_writable : VirtualMap → Bool
unfolding has_byte
is_writable m = has_byte b'w' m.flags

unfoldable pub is_private : VirtualMap → Bool
unfolding has_byte
is_private m = has_byte b'p' m.flags

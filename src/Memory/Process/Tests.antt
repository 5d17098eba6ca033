-- ===== src/Memory/Process/Tests.antt =====
-- A concrete kernel that copies at most four bytes a call, and reads on it.
use Prim.Native.Nat.{min}
use pystack.Prelude.{
  Member, ℕ, ◌%◌, ◌-◌, ◌≤◌, ◌<◌, word, ◌≡◌, refl, inl, inr, false, none, some, [], ◌∷◌, sym, ap,
  arith, length, update,
}
use pystack.Memory.Maps.{Bytes, VirtualMap}
use pystack.Memory.Process.{Kernel, Manager, copied, init, copy_memory, read_chunk, cache_capacity}
use pystack.Memory.Process.Window.{window, length-window}
use pystack.Memory.Process.Reads.{IsFaithful, ReadsDirectly, read_chunk-Reads}
use pystack.Memory.Process.Refinement.{
  copy_memory-Reads, init-IsCoherent, AllRead, read_all, read_all-AllRead,
}
use pystack.Memory.Process.Coherence.{IsLayout, IsCoherent, ReadsCoherently}

abbrev mem : ℕ → ℕ
mem a = a % 256

abbrev slow : Kernel
slow = record {
  process_vm_readv = λ c a n. copied (window mem a (min n 4));
  open_mem = λ c. none;
  seek = λ c a. a;
  fread = λ c a n. window mem a n;
  no_vm_readv = false;
}

slow-IsFaithful : IsFaithful slow mem
slow-IsFaithful = record {
  readv_most = λ c a n bytes e. ground (arith, length-window mem (min n 4) a);
  readv_some = λ c a n bytes e h. ground (arith, length-window mem (min n 4) a);
  readv_bytes = λ c a n bytes e. ground (arith, length-window mem (min n 4) a);
  fread_bytes = λ c a n e. ap (window mem a) (sym (length-window mem n a));
}

abbrev heap : VirtualMap
heap = record {
  start = 64;
  end = 80;
  filesize = 16;
  flags = [];
  offset = 0;
  device = [];
  inode = 0;
  path = [];
}

ordered : (v : VirtualMap) → Member v (heap ∷ []) → (v.start ≤ v.end) × (v.end < word)
ordered v (inl e) = rw e (omega arith, omega arith)
ordered v (inr h) = absurd h

one_size : (v w : VirtualMap) → Member v (heap ∷ []) → Member w (heap ∷ []) → v.end ≡ w.end
one_size v w (inl e) (inl e') = rw (e, e')
one_size v w (inl e) (inr h) = absurd h
one_size v w (inr h) h' = absurd h

heap-IsLayout : IsLayout (heap ∷ [])
heap-IsLayout = record { ordered = λ v h. ordered v h; one_size = λ v w h h' e. one_size v w h h' }

abbrev fresh : Manager
fresh = init (heap ∷ [])

read_chunk-Reads_example : ReadsDirectly mem 64 10 fresh (read_chunk slow 64 10 fresh)
read_chunk-Reads_example =
    read_chunk-Reads slow mem slow-IsFaithful 64 10 fresh (omega arith) (omega arith)

copy_memory-Reads_example : ReadsCoherently mem (heap ∷ []) 70 5 (copy_memory slow 70 5 fresh)
copy_memory-Reads_example =
    copy_memory-Reads mem (heap ∷ []) heap-IsLayout slow slow-IsFaithful 70 5 fresh
      (init-IsCoherent mem (heap ∷ [])) (omega arith) (omega arith)

read_all-AllRead_example :
    AllRead mem
      ((70, 5) ∷ (64, 16) ∷ (200, 9) ∷ [])
      (read_all slow ((70, 5) ∷ (64, 16) ∷ (200, 9) ∷ []) fresh)
read_all-AllRead_example =
    read_all-AllRead mem (heap ∷ []) slow ((70, 5) ∷ (64, 16) ∷ (200, 9) ∷ []) heap-IsLayout
      slow-IsFaithful
      ((omega arith, omega arith, (omega arith, omega arith, (omega arith, omega arith, tt))))

-- The manager once the heap is cached.
abbrev warm : Manager
warm = record fresh {
  lru = record {
    nodes = record { key = 64; size = 16 } ∷ [];
    cache = update (λ _. none) 64 (window mem 64 16);
    capacity = cache_capacity;
    size = 16;
  };
}

whole :
    (v : VirtualMap) (b : Bytes)
    → Member v (heap ∷ [])
    → warm.lru.cache v.start ≡ some b
    → length b ≡ v.end - v.start
unfolding window
whole v b (inl e) h = ground arith
whole v b (inr absurdity) h = absurd absurdity

warm-IsCoherent : IsCoherent mem (heap ∷ []) warm
unfolding window init
warm-IsCoherent = record {
  maps = refl;
  valid = record {
    sum = refl;
    fits = omega arith;
    small = omega arith;
    linked = λ k. ground arith;
  };
  capacity = refl;
  bytes = λ key b e. ground arith;
  whole = λ v b h e. whole v b h e;
}

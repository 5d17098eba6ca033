-- ===== src/Memory/Process/Refinement.antt =====
-- `copyMemoryFromProcess`: the cache is invisible. A read is a read of the memory, whatever was read
-- before.
use pystack.Prelude.{
  Member, ℕ, ◌+◌, ◌-◌, ◌≤◌, ◌<◌, ◌^◌, ◌≡◌, refl, true, false, some, List, [], ◌∷◌, sym, ◌∙◌, ap,
  arith, length, sub64, word, inl, inr, Option-cases, Bool-cases,
}
use pystack.Memory.Exec.{Failure, invalid_remote_address, Result, ok, throw}
use pystack.Memory.Lru.{can_fit, exists}
use pystack.Memory.Maps.{Bytes, VirtualMap, map_size}
use pystack.Memory.Process.{
  Kernel, Manager, init, find_map, serve, cached, copy_from_map, copy_memory, read_chunk,
  on_invalid,
}
use pystack.Memory.Process.Window.{window, length-window}
use pystack.Memory.Process.Reads.{IsFaithful, IsException, Reads, ReadsDirectly, read_chunk-Reads}
use pystack.Memory.Process.Coherence.{
  IsLayout, IsCoherent, ReadsCoherently, find_map-Member, exists-cases, map_size_exact,
  contains_addr-bounds, can_fit-le, le-can_fit, direct, serve-Hit, store-Coherent,
}

module _ (mem : ℕ → ℕ) (vmaps : List VirtualMap) (layout : IsLayout vmaps) (k : Kernel)
    (faithful : IsFaithful k mem) where
  serve-Reads :
      (v : VirtualMap) (a n : ℕ) (m : Manager) (b : Bytes)
      → IsCoherent mem vmaps m
      → Member v vmaps
      → v.start ≤ a
      → a + n ≤ v.end
      → m.lru.cache v.start ≡ some b
      → ReadsCoherently mem vmaps a n (serve v.start (sub64 a v.start) n m)
  serve-Reads v a n m b c member low high hit =
      let (lru, e, coherent) = serve-Hit mem vmaps layout v a n m b c member low high hit in
      rw e (record { result = refl; coherent = coherent })

  read_chunk-Coherent :
      (a n : ℕ) (m : Manager)
      → IsCoherent mem vmaps m
      → n < 2 ^ 63
      → a + n < word
      → ReadsCoherently mem vmaps a n (read_chunk k a n m)
  read_chunk-Coherent a n m c small top =
      direct mem vmaps a n m _ c (read_chunk-Reads k mem faithful a n m small top)

  on_invalid-Reads :
      (a n : ℕ) (e : Failure) (m : Manager)
      → IsCoherent mem vmaps m
      → n < 2 ^ 63
      → a + n < word
      → IsException e
      → ReadsCoherently mem vmaps a n (on_invalid k a n e m)
  unfolding on_invalid
  on_invalid-Reads a n invalid_remote_address m c small top h =
      read_chunk-Coherent a n m c small top
  on_invalid-Reads a n _ m c small top h = record { result = h; coherent = c }

  copy_from_map-Reads :
      (v : VirtualMap) (a n : ℕ) (m : Manager)
      → IsCoherent mem vmaps m
      → Member v vmaps
      → v.start ≤ a
      → a + n ≤ v.end
      → n < 2 ^ 63
      → map_size v ≤ m.lru.capacity
      → ReadsCoherently mem vmaps a n (copy_from_map k v a n m)
  unfolding copy_from_map cached
  copy_from_map-Reads v a n m c member low high small fits = elim (exists-cases m.lru v.start) [
    | inl absent ↦ rw absent (
        go absent (read_chunk k v.start (map_size v) m).0 (read_chunk k v.start (map_size v) m).1 (
          read_chunk-Reads k mem faithful v.start (map_size v) m (omega (arith, size, c.capacity))
            (omega (arith, size, layout.ordered v member))))
    | inr (b, there, hit) ↦ rw there (serve-Reads v a n m b c member low high hit)
  ]
    where
      size : map_size v ≡ v.end - v.start
      size = map_size_exact v (layout.ordered v member)

      go :
          exists m.lru v.start ≡ false
          → (r : Result Bytes) (m' : Manager) → ReadsDirectly mem v.start (map_size v) m (r, m')
          → ReadsCoherently mem vmaps a n (cached k v.start a n r m')
      go absent (ok b) m' d =
          let c' = (direct mem vmaps v.start (map_size v) m (ok b, m') c d).coherent in
          let len : length b ≡ map_size v = ap length d.result ∙ length-window mem _ _ in
          let (lru, e, there, coherent) =
            store-Coherent mem vmaps layout v m' b c' member (rw d.lru absent)
              (omega (arith, c'.capacity, c.capacity)) (len ∙ size)
              (d.result ∙ ap (window mem v.start) (sym len)) in
          rw e (serve-Reads v a n (record m' { lru = lru }) b coherent member low high there)
      go absent (throw e) m' d =
          on_invalid-Reads a n e m'
            (direct mem vmaps v.start (map_size v) m (throw e, m') c d).coherent small
            (omega (arith, layout.ordered v member)) d.result

  -- On a faithful kernel, any read through a coherent cache returns the bytes of the memory, or throws
  -- one of the exceptions of the program, and leaves a coherent cache: no undefined behaviour, no
  -- missing key and no endless loop.
  pub copy_memory-Reads :
      (a n : ℕ) (m : Manager)
      → IsCoherent mem vmaps m
      → n < 2 ^ 63
      → a + n < word
      → ReadsCoherently mem vmaps a n (copy_memory k a n m)
  unfolding copy_memory
  copy_memory-Reads a n m c small top = elim (Option-cases (find_map a n m.vmaps)) [
    | inl none_fits ↦ rw (none_fits, copy_memory) (read_chunk-Coherent a n m c small top)
    | inr (v, found) ↦
        let (member, low, high) = find_map-Member a n m.vmaps v found in
        let inside = contains_addr-bounds v a n low high top in
        elim (Bool-cases (can_fit m.lru (map_size v))) [
          | inl fits ↦
              rw (found, copy_memory, fits)
                (copy_from_map-Reads v a n m c (rw (← c.maps) member) inside.0 inside.1 small
                  (can_fit-le m.lru (map_size v) fits))
          | inr large ↦ rw (found, copy_memory, large) (read_chunk-Coherent a n m c small top)
        ]
  ]

  -- A range of a cached map is served with no call of the operating system, and so without an
  -- exception.
  pub copy_memory-hit :
      (v : VirtualMap) (a n : ℕ) (m : Manager)
      → IsCoherent mem vmaps m
      → a + n < word
      → find_map a n m.vmaps ≡ some v
      → map_size v ≤ m.lru.capacity
      → exists m.lru v.start ≡ true
      → ((copy_memory k a n m).0 ≡ ok (window mem a n)) × ((copy_memory k a n m).1.calls ≡ m.calls)
  unfolding copy_memory copy_from_map
  copy_memory-hit v a n m c top found fits there = elim (exists-cases m.lru v.start) [
    | inl absent ↦ absurd (ground arith)
    | inr (b, _, cached_bytes) ↦
        let (member, low, high) = find_map-Member a n m.vmaps v found in
        let inside = contains_addr-bounds v a n low high top in
        let (lru, e, _) =
          serve-Hit mem vmaps layout v a n m b c (rw (← c.maps) member) inside.0 inside.1
            cached_bytes in
        rw (found, copy_memory, le-can_fit m.lru (map_size v) fits, there, e) (refl, refl)
  ]

-- A manager as it is built: the maps and an empty cache.
pub init-IsCoherent : (mem : ℕ → ℕ) (vmaps : List VirtualMap) → IsCoherent mem vmaps (init vmaps)
unfolding init
init-IsCoherent mem vmaps = record {
  maps = refl;
  valid = record {
    sum = refl;
    fits = omega arith;
    small = omega arith;
    linked = λ k. (refl, refl);
  };
  capacity = refl;
  bytes = λ key b e. cc;
  whole = λ v b h e. cc;
}

-- One read after the other, with what each gave.
pub read_all : Kernel → List (ℕ × ℕ) → Manager → List (Result Bytes)
read_all k [] m = []
read_all k ((a, n) ∷ reads) m = let (r, m') = copy_memory k a n m in r ∷ read_all k reads m'

abbrev pub InRange : List (ℕ × ℕ) → Type 0
InRange [] = Unit {0}
InRange ((a, n) ∷ reads) = (n < 2 ^ 63) × (a + n < word) × InRange reads

abbrev pub AllRead : (ℕ → ℕ) → List (ℕ × ℕ) → List (Result Bytes) → Type 0
AllRead mem [] [] = Unit {0}
AllRead mem ((a, n) ∷ reads) (r ∷ rs) = Reads mem a n r × AllRead mem reads rs
AllRead mem _ _ = ⊥

read_all-coherent :
    (mem : ℕ → ℕ) (vmaps : List VirtualMap) (layout : IsLayout vmaps) (k : Kernel)
    (faithful : IsFaithful k mem) (reads : List (ℕ × ℕ)) (m : Manager)
    → IsCoherent mem vmaps m
    → InRange reads
    → AllRead mem reads (read_all k reads m)
unfolding read_all
read_all-coherent mem vmaps layout k faithful [] m c h = tt
read_all-coherent mem vmaps layout k faithful ((a, n) ∷ reads) m c h =
    let v = copy_memory-Reads mem vmaps layout k faithful a n m c h.0 h.1 in
    (
      v.result,
      read_all-coherent mem vmaps layout k faithful reads (copy_memory k a n m).1 v.coherent h.2,
    )

-- Every read of a sequence, from a new manager on, gives the bytes of the memory or an exception,
-- whatever the reads before it brought into the cache and evicted from it.
pub read_all-AllRead :
    (mem : ℕ → ℕ) (vmaps : List VirtualMap) (k : Kernel) (reads : List (ℕ × ℕ))
    → IsLayout vmaps
    → IsFaithful k mem
    → InRange reads
    → AllRead mem reads (read_all k reads (init vmaps))
read_all-AllRead mem vmaps k reads layout faithful h =
    read_all-coherent mem vmaps layout k faithful reads (init vmaps) (init-IsCoherent mem vmaps) h

-- ===== src/Memory/Core/Dump.antt =====
-- `copyMemoryFromProcess` on memory that is in the core file.
use pystack.Prelude.{
  ℕ, ◌+◌, ◌-◌, ◌≤◌, ◌<◌, ◌≡◌, refl, sym, ap, ◌∙◌, arith, true, some, List, [], ◌∷◌, ◌++◌, Member,
  length, take, drop, add64, sub64, add64_exact, sub64_exact, word, drop-add, take-drop-take,
  take-add,
}
use pystack.Memory.Exec.{Result, ok}
use pystack.Memory.Maps.{Bytes, VirtualMap}
use pystack.Memory.Process.Window.{window, slice-window}
use pystack.Memory.Core.{
  Files, CoreManager, is_in_core, find_core_map, core_offset, get_memory_location_from_core,
  read_core, copy_memory,
}

-- The part of a map that is in the core file is the memory of the process.
pub record IsDumped (mem : ℕ → ℕ) (core : Bytes) (v : VirtualMap) : Type 0 where
  pub ends : v.start + v.filesize < word
  pub inside : v.offset + v.filesize ≤ length core
  pub small : length core < word
  pub bytes : take v.filesize (drop v.offset core) ≡ window mem v.start v.filesize

abbrev pub IsDump : (ℕ → ℕ) → CoreManager → Type 0
IsDump mem m = (v : VirtualMap) → Member v m.vmaps → IsDumped mem m.corefile v

find_core_map-Member :
    (addr : ℕ) (vs : List VirtualMap) (v : VirtualMap)
    → find_core_map addr vs ≡ some v
    → Member v vs × (is_in_core addr v ≡ true)
unfolding find_core_map
find_core_map-Member addr [] v h = cc
find_core_map-Member addr (w ∷ vs) v h = ground (arith, find_core_map-Member addr vs v)

in_core-bounds :
    (addr : ℕ) (v : VirtualMap)
    → is_in_core addr v ≡ true
    → v.start + v.filesize < word
    → (v.start ≤ addr) × (addr < v.start + v.filesize)
unfolding is_in_core
in_core-bounds addr v h ends = ground (arith, add64_exact v.start v.filesize)

core_offset_exact :
    (addr : ℕ) (v : VirtualMap)
    → v.start ≤ addr
    → v.offset + (addr - v.start) < word
    → v.offset < word
    → addr < word
    → core_offset addr v ≡ v.offset + (addr - v.start)
unfolding core_offset add64 sub64
core_offset_exact addr v low fits small top = omega arith

read_core-inside :
    (offset size : ℕ) (core : Bytes)
    → offset + size ≤ length core
    → length core < word
    → read_core offset size core ≡ ok (take size (drop offset core))
unfolding read_core
read_core-inside offset size core inside small = ground (arith, sub64_exact (length core) size)

-- A slice of the dumped part.
slice-IsDumped :
    (mem : ℕ → ℕ) (core : Bytes) (v : VirtualMap) (d n : ℕ)
    → IsDumped mem core v
    → d + n ≤ v.filesize
    → take n (drop d (drop v.offset core)) ≡ window mem (v.start + d) n
slice-IsDumped mem core v d n dumped h =
    sym (take-drop-take n d v.filesize (drop v.offset core) h)
    ∙ ap (λ (b : Bytes). take n (drop d b)) dumped.bytes
    ∙ slice-window mem d n v.filesize v.start h

module _ (mem : ℕ → ℕ) (files : Files) (m : CoreManager) (dump : IsDump mem m) where
  in_core :
      (addr : ℕ) (v : VirtualMap)
      → find_core_map addr m.vmaps ≡ some v
      → IsDumped mem m.corefile v × (v.start ≤ addr) × (addr < v.start + v.filesize)
  in_core addr v found =
      let (member, inside) = find_core_map-Member addr m.vmaps v found in
      let bounds = in_core-bounds addr v inside (dump v member).ends in
      (dump v member, bounds.0, bounds.1)

  copy_memory-located :
      (addr offset : ℕ) (destination : Bytes)
      → get_memory_location_from_core m addr ≡ some offset
      → copy_memory files addr destination m ≡ (read_core offset (length destination) m.corefile, m)
  unfolding copy_memory
  copy_memory-located addr offset destination h = rw (h, copy_memory) refl

  location :
      (addr : ℕ) (v : VirtualMap)
      → find_core_map addr m.vmaps ≡ some v
      → get_memory_location_from_core m addr ≡ some (v.offset + (addr - v.start))
  unfolding get_memory_location_from_core
  location addr v found =
      let (d, low, high) = in_core addr v found in
      let small = d.small in
      let ends = d.ends in
      let inside = d.inside in
      rw found (ap some (core_offset_exact addr v low (omega arith) (omega arith) (omega arith)))

  -- The bytes are those of the file, from the place of the address on.
  copy_memory-file :
      (addr : ℕ) (destination : Bytes) (v : VirtualMap)
      → find_core_map addr m.vmaps ≡ some v
      → v.offset + (addr - v.start) + length destination ≤ length m.corefile
      → copy_memory files addr destination m
        ≡ (ok (take (length destination) (drop (addr - v.start) (drop v.offset m.corefile))), m)
  copy_memory-file addr destination v found inside =
      let (d, low, high) = in_core addr v found in
      copy_memory-located addr (v.offset + (addr - v.start)) destination (location addr v found)
      ∙ ap (λ (r : Result Bytes). (r, m))
          (read_core-inside (v.offset + (addr - v.start)) (length destination) m.corefile inside
              d.small
            ∙ ap (λ (b : Bytes). ok (take (length destination) b))
                (drop-add v.offset (addr - v.start) m.corefile))

  -- A read within the part of a map that the core file has gives the bytes of the memory, and changes
  -- nothing, whatever the destination held.
  pub copy_memory-dump :
      (addr : ℕ) (destination : Bytes) (v : VirtualMap)
      → find_core_map addr m.vmaps ≡ some v
      → addr + length destination ≤ v.start + v.filesize
      → copy_memory files addr destination m ≡ (ok (window mem addr (length destination)), m)
  copy_memory-dump addr destination v found within =
      let (d, low, high) = in_core addr v found in
      let inside = d.inside in
      let e : v.start + (addr - v.start) ≡ addr = omega arith in
      copy_memory-file addr destination v found (omega arith)
      ∙ ap (λ (b : Bytes). (ok b, m))
          (slice-IsDumped mem m.corefile v (addr - v.start) (length destination) d (omega arith)
            ∙ ap (λ (t : ℕ). window mem t (length destination)) e)

  -- A read that starts in the dumped part of a map and goes on for `k` bytes past its end, where the
  -- core file holds another map `w` next, gives no exception: the `k` bytes are the first ones of `w`,
  -- wherever `w` was in memory.
  pub copy_memory-crosses :
      (addr k : ℕ) (destination : Bytes) (v w : VirtualMap)
      → find_core_map addr m.vmaps ≡ some v
      → Member w m.vmaps
      → w.offset ≡ v.offset + v.filesize
      → addr + length destination ≡ v.start + v.filesize + k
      → k ≤ w.filesize
      → copy_memory files addr destination m
        ≡ (ok (window mem addr (v.start + v.filesize - addr) ++ window mem w.start k), m)
  copy_memory-crosses addr k destination v w found member next past few =
      let (d, low, high) = in_core addr v found in
      let inside = (dump w member).inside in
      let D = drop v.offset m.corefile in
      let rest = v.start + v.filesize - addr in
      let size : length destination ≡ rest + k = omega arith in
      let e : v.start + (addr - v.start) ≡ addr = omega arith in
      let e' : addr - v.start + rest ≡ v.filesize = omega arith in
      let e'' : w.start + 0 ≡ w.start = omega arith in
      copy_memory-file addr destination v found (omega arith)
      ∙ ap (λ (b : Bytes). (ok b, m))
          (ap (λ (t : ℕ). take t (drop (addr - v.start) D)) size
            ∙ take-add rest k (drop (addr - v.start) D)
            ∙ ap (λ (b : Bytes). b ++ take k (drop rest (drop (addr - v.start) D)))
                (slice-IsDumped mem m.corefile v (addr - v.start) rest d (omega arith)
                  ∙ ap (λ (t : ℕ). window mem t rest) e)
            ∙ ap (λ (b : Bytes). window mem addr rest ++ b)
                (ap (λ (b : Bytes). take k b)
                    (sym (drop-add (addr - v.start) rest D)
                      ∙ ap (λ (t : ℕ). drop t D) e'
                      ∙ sym (drop-add v.offset v.filesize m.corefile)
                      ∙ ap (λ (t : ℕ). drop t m.corefile) (sym next))
                  ∙ slice-IsDumped mem m.corefile w 0 k (dump w member) (omega arith)
                  ∙ ap (λ (t : ℕ). window mem t k) e''))

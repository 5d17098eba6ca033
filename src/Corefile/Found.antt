-- ===== src/Corefile/Found.antt =====
-- What `populateMaps` and `extractExecutable` of corefile.cpp find.
use pystack.Prelude.{
  ℕ, ◌+◌, ◌-◌, ◌≡◌, ◌≢◌, ◌≤◌, ◌<◌, ◌⊎◌, inl, inr, refl, sym, ap, arith, Bool-cases, ◌&&◌, Option,
  none, some, List, [], ◌∷◌, ◌++◌, Member, drop, drop-append, drop-add, length, leb, ◌==◌, ==_false,
  add64, add64_exact, sub64_exact, word,
}
use mathlib.Core.List.{append_assoc}
use mathlib.Core.Path.{subst}
use pystack.Memory.Maps.{Bytes}
use pystack.Memory.Core.{SimpleVirtualMap}
use pystack.Memory.Process.Window.{window, length-window, window-append}
use pystack.Corefile.{NoteData, CoreFile}
use pystack.Corefile.Mapped.{CoreVirtualMap}
use pystack.Corefile.Reads.{IsName}
use pystack.Corefile.Segments.{
  SegmentHeader, is_within, filename_of, segment_map, segment_maps, find_exec_fn, extracted,
  map_around, get_line, location_of, extract_executable,
}

get_line-IsName : (name rest : Bytes) → IsName name → get_line (name ++ (0 ∷ rest)) ≡ name
unfolding get_line
get_line-IsName [] rest h = refl
get_line-IsName (c ∷ name) rest (nonzero, h) =
    rw (==_false c 0 nonzero) (ap (◌∷◌ c) (get_line-IsName name rest h))

-- The map has the address, and no other map has it, not even at its end.
abbrev pub IsOnly : ℕ → List CoreVirtualMap → CoreVirtualMap → Type 0
IsOnly addr maps v =
    Member v maps
    × (v.start ≤ addr)
    × (addr ≤ v.end)
    × ((m : CoreVirtualMap) → Member m maps → m.start ≤ addr → addr ≤ m.end → m ≡ v)

map_around-IsOnly :
    (addr : ℕ) (maps : List CoreVirtualMap) (v : CoreVirtualMap)
    → IsOnly addr maps v
    → map_around addr maps ≡ some v
unfolding map_around
map_around-IsOnly addr [] v (is, low, high, only) = absurd is
map_around-IsOnly addr (n ∷ maps) v (is, low, high, only) =
    elim (Bool-cases (leb n.start addr && leb addr n.end)) [
      | inl e ↦ rw e (ap some (only n (inl refl) (ground arith) (ground arith)))
      | inr e ↦ elim is [
        | inl same ↦ absurd (
            let low' : n.start ≤ addr = subst (λ (x : CoreVirtualMap). x.start ≤ addr) same low in
            let high' : addr ≤ n.end = subst (λ (x : CoreVirtualMap). addr ≤ x.end) same high in
            ground arith)
        | inr later ↦ rw e (map_around-IsOnly addr maps v (later, low, high, λ m h. only m (inr h)))
      ]
    ]

module _ (mem : ℕ → ℕ) where
  -- What is behind the first `k` bytes of a part of the memory starts with the next `n` bytes.
  drop-window :
      (start k n m : ℕ) (rest : Bytes)
      → drop k (window mem start (k + (n + m)) ++ rest)
        ≡ window mem (start + k) n ++ (window mem (start + k + n) m ++ rest)
  drop-window start k n m rest =
      rw
        (
          ← window-append mem k (n + m) start,
          append_assoc (window mem start k) (window mem (start + k) (n + m)) rest,
          drop-append (window mem start k) (window mem (start + k) (n + m) ++ rest) k
              (length-window mem k start),
          ← window-append mem n m (start + k),
        )
        (append_assoc (window mem (start + k) n) (window mem (start + k + n) m) rest)

  -- When the address that findExecFn found lies in one map only, whose part of the core file holds the
  -- memory, and a name stands at the address, with a NUL that is in the file too, then extractExecutable
  -- returns that name. The addresses and the place in the file do not wrap around.
  pub extract_executable-name :
      (sections : Option (List NoteData)) (core : CoreFile) (maps : List CoreVirtualMap)
      (content rest name : Bytes) (addr : ℕ) (v : CoreVirtualMap)
      → find_exec_fn sections core ≡ some addr
      → addr ≢ 0
      → IsOnly addr maps v
      → drop v.offset content ≡ window mem v.start v.filesize ++ rest
      → window mem addr (length name + 1) ≡ name ++ (0 ∷ [])
      → IsName name
      → addr + length name < v.start + v.filesize
      → v.offset + v.filesize < word
      → addr < word
      → extract_executable sections core maps (some content) ≡ extracted name
  unfolding extract_executable
  extract_executable-name sections core maps content rest name addr v found nonzero only holds named
        is inside small small' =
      rw (found, extract_executable, ==_false addr 0 nonzero, map_around-IsOnly addr maps v only)
        (ap extracted at_name)
    where
      k : ℕ
      k = addr - v.start

      m : ℕ
      m = v.filesize - (k + (length name + 1))

      at_place : location_of addr v ≡ v.offset + k
      at_place =
          let low = only.1 in
          unfold location_of in
          rw
            (
              sub64_exact addr v.start low small',
              add64_exact k v.offset (omega (arith, low, inside, small)),
            )
            (omega arith)

      sized : v.filesize ≡ k + (length name + 1 + m)
      sized = let low = only.1 in omega (arith, low, inside)

      starts : v.start + k ≡ addr
      starts = let low = only.1 in omega (arith, low)

      at_name : get_line (drop (location_of addr v) content) ≡ name
      at_name =
          rw
            (
              at_place,
              drop-add v.offset k content,
              holds,
              sized,
              drop-window v.start k (length name + 1) m rest,
              starts,
              named,
              append_assoc name (0 ∷ []) (window mem (addr + (length name + 1)) m ++ rest),
            )
            (get_line-IsName name (window mem (addr + (length name + 1)) m ++ rest) is)

-- A module that a segment lies in.
abbrev pub Holds : SimpleVirtualMap → ℕ → ℕ → Type 0
Holds m start end = (m.start ≤ start) × (end ≤ m.end)

filename_of-Holds :
    (start end : ℕ) (module_info : List SimpleVirtualMap)
    → (filename_of start end module_info ≡ [])
      ⊎ ((m : SimpleVirtualMap) × Member m module_info
          × Holds m start end
          × (filename_of start end module_info ≡ m.filename))
unfolding filename_of is_within
filename_of-Holds start end [] = inl refl
filename_of-Holds start end (m ∷ module_info) =
    elim (Bool-cases (leb m.start start && leb end m.end)) [
      | inl e ↦ inr (m, inl refl, (ground arith, ground arith), rw e refl)
      | inr e ↦ elim (filename_of-Holds start end module_info) [
        | inl f ↦ inl (rw e f)
        | inr (n, is, h, f) ↦ inr (n, inr is, h, rw e f)
      ]
    ]

-- Each map of a core file is that of a segment of type PT_LOAD, and is named after a module that the
-- segment lies in, or has no name.
pub segment_maps-Holds :
    (get_build_id : Bytes → Bytes) (module_info : List SimpleVirtualMap)
    (headers : List (Option SegmentHeader)) (v : CoreVirtualMap)
    → Member v (segment_maps get_build_id module_info headers)
    → (phdr : SegmentHeader) × Member (some phdr) headers
      × (phdr.p_type ≡ 1)
      × (v.start ≡ phdr.p_vaddr)
      × (v.end ≡ add64 phdr.p_vaddr phdr.p_memsz)
      × ((v.path ≡ [])
          ⊎ ((m : SimpleVirtualMap) × Member m module_info
              × Holds m v.start v.end
              × (v.path ≡ m.filename)))
unfolding segment_maps segment_map
segment_maps-Holds get_build_id module_info [] v h = absurd h
segment_maps-Holds get_build_id module_info (none ∷ headers) v h =
    let (phdr, is, a, b, c, k) = segment_maps-Holds get_build_id module_info headers v h in
    (phdr, inr is, a, b, c, k)
segment_maps-Holds get_build_id module_info (some phdr ∷ headers) v h =
    elim (Bool-cases (phdr.p_type == 1)) [
      | inr e ↦
          let (found, is, a, b, c, k) =
            segment_maps-Holds get_build_id module_info headers v (rw e at h) in
          (found, inr is, a, b, c, k)
      | inl e ↦
          let h : (v ≡ segment_map get_build_id module_info phdr)
              ⊎ Member v (segment_maps get_build_id module_info headers) =
            rw e at h in
          elim h [
            | inl same ↦ (
              phdr,
              inl refl,
              ground arith,
              ap (λ (x : CoreVirtualMap). x.start) same,
              ap (λ (x : CoreVirtualMap). x.end) same,
              subst
                  (λ (x : CoreVirtualMap).
                    (x.path ≡ [])
                    ⊎ ((m : SimpleVirtualMap) × Member m module_info
                        × Holds m x.start x.end
                        × (x.path ≡ m.filename)))
                  (sym same)
                  (filename_of-Holds phdr.p_vaddr (add64 phdr.p_vaddr phdr.p_memsz) module_info),
            )
            | inr h ↦
                let (found, is, a, b, c, k) =
                  segment_maps-Holds get_build_id module_info headers v h in
                (found, inr is, a, b, c, k)
          ]
    ]

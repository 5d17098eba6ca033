-- ===== src/Memory/Core/Segments.antt =====
-- The cached segments of the shared libraries: reads with the cache are reads without it.
use pystack.Prelude.{
  ℕ, ◌≡◌, refl, ap, ◌∙◌, arith, Option, none, some, List, [], ◌∷◌, inl, inr, add64, sub64, length,
  same_bytes, same_bytes_sound, same_bytes_refl, Option-cases, Bool-cases,
}
use mathlib.Core.Option
use pystack.Memory.Exec.{Result, ok}
use pystack.Memory.Maps.{Bytes, VirtualMap}
use pystack.Memory.Core.{
  Files, CoreManager, SimpleVirtualMap, ElfLoadSegment, open_core, read_segments, loaded_segments,
  nonempty, find_lib, find_segments, find_segment, locate_symbol, locate_cached,
  get_memory_location_from_core, get_memory_location_from_elf, read_core, read_stream, copy_memory,
}

-- Every cached list is what the file has.
abbrev pub IsCoherent : Files → CoreManager → Type 0
IsCoherent files m =
    (name : Bytes) (segments : List ElfLoadSegment)
    → find_segments name m.load_segments ≡ some segments
    → read_segments files name ≡ some segments

-- Where an address of a library is, without a cache: in the segment that holds its place in the file,
-- counted from the address of the first segment.
unfoldable pub place_in : SimpleVirtualMap → ℕ → List ElfLoadSegment → Option (Bytes × ℕ)
unfolding find_segment
place_in lib addr [] = none
place_in lib addr (first ∷ segments) =
    Option.map (λ offset. (lib.filename, offset))
      (find_segment (add64 (sub64 addr lib.start) first.vaddr) (first ∷ segments))

unfoldable pub elf_location : Files → List SimpleVirtualMap → ℕ → Option (Bytes × ℕ)
unfolding find_lib read_segments place_in
elf_location files libs addr =
    Option.bind (find_lib addr libs)
      λ lib. Option.bind (read_segments files lib.filename) λ segments. place_in lib addr segments

-- A read as a function of the files and of what the manager was opened with.
unfoldable pub read_uncached : Files → CoreManager → ℕ → Bytes → Result Bytes
unfolding get_memory_location_from_core elf_location read_core read_stream
read_uncached files m addr destination = elim (get_memory_location_from_core m addr) [
  | some offset ↦ read_core offset (length destination) m.corefile
  | none ↦ read_stream files destination (elf_location files m.shared_libs addr)
]

-- The same but for the cache.
pub record Keeps (files : Files) (m m' : CoreManager) : Type 0 where
  pub vmaps : m'.vmaps ≡ m.vmaps
  pub shared_libs : m'.shared_libs ≡ m.shared_libs
  pub corefile : m'.corefile ≡ m.corefile
  pub coherent : IsCoherent files m'

module _ (files : Files) where
  keeps : (m : CoreManager) → IsCoherent files m → Keeps files m m
  keeps m c = record { vmaps = refl; shared_libs = refl; corefile = refl; coherent = c }

  nonempty-some :
      (found segments : List ElfLoadSegment)
      → nonempty found ≡ some segments
      → (first : ElfLoadSegment) × (rest : List ElfLoadSegment) × (segments ≡ first ∷ rest)
  nonempty-some [] segments h = cc
  nonempty-some (first ∷ rest) segments h = (first, rest, cc)

  loaded_nonempty :
      (name : Bytes) (segments : List ElfLoadSegment)
      → read_segments files name ≡ some segments
      → (first : ElfLoadSegment) × (rest : List ElfLoadSegment) × (segments ≡ first ∷ rest)
  unfolding read_segments
  loaded_nonempty name segments h = elim (Bool-cases (files.open_elf name)) [
    | inr closed ↦ absurd (ground arith)
    | inl opened ↦ elim (Option-cases (files.program_headers name)) [
      | inl e ↦ absurd (ground arith)
      | inr (headers, e) ↦ nonempty-some (loaded_segments headers) segments (ground arith)
    ]
  ]

  -- The first segment exists.
  locate_symbol-place_in :
      (lib : SimpleVirtualMap) (addr : ℕ) (segments : List ElfLoadSegment)
      → read_segments files lib.filename ≡ some segments
      → locate_symbol lib addr segments ≡ ok (place_in lib addr segments)
  unfolding locate_symbol place_in
  locate_symbol-place_in lib addr segments h =
      let (first, rest, e) = loaded_nonempty lib.filename segments h in rw e refl

  cached-Coherent :
      (m : CoreManager) (name : Bytes) (segments : List ElfLoadSegment)
      → IsCoherent files m
      → read_segments files name ≡ some segments
      → IsCoherent files (record m { load_segments = (name, segments) ∷ m.load_segments })
  unfolding find_segments
  cached-Coherent m name segments c h other found found' =
      elim (Bool-cases (same_bytes other name)) [
        | inl same ↦ ground (arith, same_bytes_sound other name)
        | inr different ↦ c other found (ground arith)
      ]

  -- One look-up in the files: the answer of the uncached one, and a cache that stays right.
  pub get_location-Keeps :
      (addr : ℕ) (m : CoreManager)
      → IsCoherent files m
      → ((get_memory_location_from_elf files addr m).0 ≡ ok (elf_location files m.shared_libs addr))
        × Keeps files m (get_memory_location_from_elf files addr m).1
  unfolding get_memory_location_from_elf elf_location Option.bind find_segments
  get_location-Keeps addr m c = elim (Option-cases (find_lib addr m.shared_libs)) [
    | inl e ↦ rw (e, get_memory_location_from_elf) (refl, keeps m c)
    | inr (lib, e) ↦ elim (Option-cases (find_segments lib.filename m.load_segments)) [
      | inr (segments, hit) ↦
          rw (e, get_memory_location_from_elf, hit, c lib.filename segments hit)
            (locate_symbol-place_in lib addr segments (c lib.filename segments hit), keeps m c)
      | inl miss ↦ elim (Option-cases (read_segments files lib.filename)) [
        | inl failed ↦ rw (e, get_memory_location_from_elf, miss, failed) (refl, keeps m c)
        | inr (segments, h) ↦
            rw
              (
                e,
                get_memory_location_from_elf,
                miss,
                h,
                locate_cached,
                same_bytes_refl lib.filename,
              )
              (
                locate_symbol-place_in lib addr segments h,
                record {
                  vmaps = refl;
                  shared_libs = refl;
                  corefile = refl;
                  coherent = cached-Coherent m lib.filename segments c h;
                },
              )
      ]
    ]
  ]

  -- A read through the cache of segments gives what the read without it gives, on every branch, and
  -- leaves a cache that is right.
  pub copy_memory-Keeps :
      (addr : ℕ) (destination : Bytes) (m : CoreManager)
      → IsCoherent files m
      → ((copy_memory files addr destination m).0 ≡ read_uncached files m addr destination)
        × Keeps files m (copy_memory files addr destination m).1
  unfolding copy_memory read_uncached
  copy_memory-Keeps addr destination m c =
      elim (Option-cases (get_memory_location_from_core m addr)) [
        | inr (offset, e) ↦ rw (e, copy_memory, read_uncached) (refl, keeps m c)
        | inl e ↦
            let (found, kept) = get_location-Keeps addr m c in
            rw (e, copy_memory, read_uncached, found) (refl, kept)
      ]

-- The results of a sequence of reads, each after the ones before it.
abbrev pub read_all : Files → List (ℕ × Bytes) → CoreManager → List (Result Bytes)
read_all files [] m = []
read_all files ((addr, destination) ∷ reads) m =
    let (r, m') = copy_memory files addr destination m in r ∷ read_all files reads m'

-- The results of the reads without a cache.
abbrev pub all_uncached : Files → List (ℕ × Bytes) → CoreManager → List (Result Bytes)
all_uncached files [] m = []
all_uncached files ((addr, destination) ∷ reads) m =
    read_uncached files m addr destination ∷ all_uncached files reads m

same-read_uncached :
    (files : Files) (m m' : CoreManager) (addr : ℕ) (destination : Bytes)
    → Keeps files m m'
    → read_uncached files m' addr destination ≡ read_uncached files m addr destination
unfolding read_uncached get_memory_location_from_core
same-read_uncached files m m' addr destination k =
    ap (λ (vs : List VirtualMap). read_uncached files (record m' { vmaps = vs }) addr destination)
      k.vmaps
    ∙ ap
        (λ (libs : List SimpleVirtualMap).
          read_uncached files (record m' { vmaps = m.vmaps; shared_libs = libs }) addr destination)
        k.shared_libs
    ∙ ap
        (λ (core : Bytes).
          read_uncached files
            (record m' { vmaps = m.vmaps; shared_libs = m.shared_libs; corefile = core }) addr
            destination)
        k.corefile

same-all_uncached :
    (files : Files) (reads : List (ℕ × Bytes)) (m m' : CoreManager)
    → Keeps files m m'
    → all_uncached files reads m' ≡ all_uncached files reads m
same-all_uncached files [] m m' k = refl
same-all_uncached files ((addr, destination) ∷ reads) m m' k =
    rw (same-read_uncached files m m' addr destination k, same-all_uncached files reads m m' k) refl

read_all-coherent :
    (files : Files) (reads : List (ℕ × Bytes)) (m : CoreManager)
    → IsCoherent files m
    → read_all files reads m ≡ all_uncached files reads m
read_all-coherent files [] m c = refl
read_all-coherent files ((addr, destination) ∷ reads) m c =
    let (e, kept) = copy_memory-Keeps files addr destination m c in
    let m' = (copy_memory files addr destination m).1 in
    rw e (
      ap (λ (rs : List (Result Bytes)). read_uncached files m addr destination ∷ rs)
        (read_all-coherent files reads m' kept.coherent ∙ same-all_uncached files reads m m' kept))

-- Every read of a sequence, from the opened core file on, gives what the same read gives without a
-- cache, whatever libraries the reads before it loaded.
pub read_all-uncached :
    (files : Files) (bytes : Bytes) (libs : List SimpleVirtualMap) (vmaps : List VirtualMap)
    (m : CoreManager) (reads : List (ℕ × Bytes))
    → open_core (some bytes) libs vmaps ≡ some m
    → read_all files reads m ≡ all_uncached files reads m
unfolding open_core find_segments
read_all-uncached files [] libs vmaps m reads h = cc
read_all-uncached files (b ∷ bytes) libs vmaps m reads h =
    let e : m.load_segments ≡ [] = cc in
    read_all-coherent files reads m (λ name segments found. absurd (ground arith))

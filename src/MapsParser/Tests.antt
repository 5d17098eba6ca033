-- ===== src/MapsParser/Tests.antt =====
-- The maps of a small process, read as maps_parser.cpp reads them.
use pystack.Prelude.{
  ℕ, zero, suc, ◌≡◌, ◌≤◌, ◌⊎◌, ◌↔◌, inl, inr, refl, arith, Bool, true, false, Bool-cases, Option,
  none, some, List, [], ◌∷◌, ◌++◌, Member, leb, if◌then◌else◌, ◌==◌,
}
use pystack.Memory.Maps.{Bytes, VirtualMap}
use pystack.Corefile.Mapped.{CoreVirtualMap, named_map}
use pystack.MapsParser.{
  ProcessMemoryMapInfo, SectionInfo, parsed, find_in, add_load_points, parse_map_information,
  bss_map, load_points_of,
}
use pystack.MapsParser.CoreMaps.{parse_core_file_maps}
use pystack.MapsParser.LoadPoints.{IsNamed, add_load_points-IsLeast}
use pystack.MapsParser.Information.{IsInformation, parse_map_information-IsInformation}
use pystack.MapsParser.Ranges.{
  ranges, core_ranges, count, IsOrdered, IsSort, parse_core_file_maps-count,
}

-- The text behind the last slash.
abbrev filename_after : Bytes → Bytes → Bytes
filename_after seen [] = seen
filename_after seen (c ∷ path) =
    if c == b'/' then filename_after [] path else filename_after (seen ++ (c ∷ [])) path

abbrev filename : Bytes → Bytes
filename path = filename_after [] path

abbrev map_at : ℕ → ℕ → Bytes → VirtualMap
map_at start end path = record {
  start = start;
  end = end;
  filesize = 0;
  flags = b'r' ∷ [];
  offset = 0;
  device = [];
  inode = 0;
  path = path;
}

abbrev python_path : Bytes
python_path = b'/' ∷ b'p' ∷ b'y' ∷ []

abbrev heap_path : Bytes
heap_path = b'[' ∷ b'h' ∷ b'e' ∷ b'a' ∷ b'p' ∷ b']' ∷ []

abbrev maps : List VirtualMap
maps =
    map_at 4096 8192 python_path
    ∷ map_at 8192 12288 python_path
    ∷ map_at 12288 16384 []
    ∷ map_at 20480 24576 heap_path
    ∷ []

abbrev bss_section : Bytes → Option SectionInfo
bss_section path = some (record { corrected_addr = 8256; size = 32 })

abbrev info : ProcessMemoryMapInfo
info = record {
  heap = some (map_at 20480 24576 heap_path);
  bss = some (bss_map 12352 (record { corrected_addr = 8256; size = 32 }) (map_at 12288 16384 []));
  python = map_at 4096 8192 python_path;
  libpython = none;
}

info_of_maps : parse_map_information filename bss_section python_path maps none ≡ parsed info
unfolding parse_map_information pystack.Prelude.same_bytes
info_of_maps = refl

parse_map_information-IsInformation_example :
    IsInformation filename bss_section maps python_path (load_points_of filename none maps) info
parse_map_information-IsInformation_example =
    parse_map_information-IsInformation filename bss_section python_path maps none info info_of_maps

add_load_points-IsLeast_example :
    ((m : VirtualMap)
      → Member m maps
      → IsNamed filename (b'p' ∷ b'y' ∷ []) m
      → (point : ℕ) × (find_in (b'p' ∷ b'y' ∷ []) (add_load_points filename [] maps) ≡ some point)
        × (point ≤ m.start))
    × ((point : ℕ)
        → find_in (b'p' ∷ b'y' ∷ []) (add_load_points filename [] maps) ≡ some point
        → (m : VirtualMap) × Member m maps
          × IsNamed filename (b'p' ∷ b'y' ∷ []) m
          × (m.start ≡ point))
add_load_points-IsLeast_example = add_load_points-IsLeast filename maps (b'p' ∷ b'y' ∷ [])

-- A sort by the starts.
insert_map : CoreVirtualMap → List CoreVirtualMap → List CoreVirtualMap
insert_map m [] = m ∷ []
insert_map m (n ∷ ms) =
    let rest = insert_map m ms in if leb m.start n.start then m ∷ (n ∷ ms) else n ∷ rest

insertion_sort : List CoreVirtualMap → List CoreVirtualMap
insertion_sort [] = []
insertion_sort (m ∷ ms) = insert_map m (insertion_sort ms)

insert_map-count :
    (start end : ℕ) (m : CoreVirtualMap) (ms : List CoreVirtualMap)
    → count start end (core_ranges (insert_map m ms)) ≡ count start end (core_ranges (m ∷ ms))
unfolding insert_map count
insert_map-count start end m [] = refl
insert_map-count start end m (n ∷ ms) = elim (Bool-cases (leb m.start n.start)) [
  | inl e ↦ rw e refl
  | inr e ↦ rw e (omega (arith, insert_map-count start end m ms))
]

insertion_sort-count :
    (start end : ℕ) (ms : List CoreVirtualMap)
    → count start end (core_ranges (insertion_sort ms)) ≡ count start end (core_ranges ms)
unfolding insertion_sort count
insertion_sort-count start end [] = refl
insertion_sort-count start end (m ∷ ms) =
    omega
      (arith, insert_map-count start end m (insertion_sort ms), insertion_sort-count start end ms)

insert_map-IsOrdered :
    (m : CoreVirtualMap) (ms : List CoreVirtualMap)
    → IsOrdered (core_ranges ms)
    → IsOrdered (core_ranges (insert_map m ms))
unfolding insert_map
insert_map-IsOrdered m [] h = tt
insert_map-IsOrdered m (n ∷ []) h = elim (Bool-cases (leb m.start n.start)) [
  | inl e ↦ rw e (ground arith, tt)
  | inr e ↦ rw e (ground arith, tt)
]
insert_map-IsOrdered m (n ∷ (k ∷ ms)) (a, h) =
    let rest = insert_map-IsOrdered m (k ∷ ms) h in
    elim (Bool-cases (leb m.start n.start)) [
      | inl e ↦ rw e (ground arith, (a, h))
      | inr e ↦ elim (Bool-cases (leb m.start k.start)) [
        | inl f ↦ rw (e, f) (ground arith, (ground arith, h))
        | inr f ↦
            let rest : IsOrdered ((k.start, k.end) ∷ core_ranges (insert_map m ms)) =
              rw f at rest in
            rw (e, f) (a, rest)
      ]
    ]

insertion_sort-IsOrdered : (ms : List CoreVirtualMap) → IsOrdered (core_ranges (insertion_sort ms))
unfolding insertion_sort
insertion_sort-IsOrdered [] = tt
insertion_sort-IsOrdered (m ∷ ms) =
    insert_map-IsOrdered m (insertion_sort ms) (insertion_sort-IsOrdered ms)

insertion_sort-IsSort : IsSort insertion_sort
insertion_sort-IsSort = record { count = insertion_sort-count; ordered = insertion_sort-IsOrdered }

abbrev mapped_files : List CoreVirtualMap
mapped_files = named_map 8192 12288 0 (b'c' ∷ []) ∷ (named_map 4096 8192 0 (b'p' ∷ []) ∷ [])

abbrev memory_maps : List CoreVirtualMap
memory_maps = named_map 8192 12288 4096 [] ∷ []

parse_core_file_maps-count_example :
    ((start end : ℕ)
      → count start end (ranges (parse_core_file_maps some insertion_sort mapped_files memory_maps))
        ≡ (if count start end (core_ranges memory_maps) == 0
            then count start end (core_ranges mapped_files)
            else count start end (core_ranges memory_maps)))
    × IsOrdered (ranges (parse_core_file_maps some insertion_sort mapped_files memory_maps))
parse_core_file_maps-count_example =
    parse_core_file_maps-count some insertion_sort mapped_files memory_maps insertion_sort-IsSort

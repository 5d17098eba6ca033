-- ===== src/MapsParser.antt =====
-- `parseMapInformation` of maps_parser.cpp: which of the maps of a process are those of Python. The file
-- name of a path is `std::filesystem`'s, and the section .bss of a file libelf's; both are parameters.
pub mod CoreMaps
mod Ranges
mod Groups
mod LoadPoints
mod Information
mod Tests
use pystack.Prelude.{
  ℕ, ◌+◌, ◌-◌, Bool, true, false, not, ◌&&◌, ◌||◌, Option, none, some, List, [], ◌∷◌, ◌++◌, take,
  length, leb, ltb, ◌==◌, if◌then◌else◌, add64, sub64, word, same_bytes,
}
use pystack.Memory.Maps.{Bytes, VirtualMap, contains_addr, is_readable}

pub record ProcessMemoryMapInfo : Type 0 where
  pub heap : Option VirtualMap
  pub bss : Option VirtualMap
  pub python : VirtualMap
  pub libpython : Option VirtualMap

-- `SectionInfo`, as far as it is read.
pub record SectionInfo : Type 0 where
  pub corrected_addr : ℕ
  pub size : ℕ

-- The texts of `std::runtime_error`, by what is put in.
pub data MapsError : Type 0 where
  no_maps : MapsError
  unable_to_find : Bytes → Bytes → MapsError
  multiple_libpython : ℕ → MapsError

pub data Parsed (A : Type 0) : Type 0 where
  parsed : A → Parsed A
  failed : MapsError → Parsed A

infixl 5 ◌>>=◌
abbrev pub ◌>>=◌ : {A B : Type 0} → Parsed A → (A → Parsed B) → Parsed B
parsed a >>= f = f a
failed e >>= f = failed e

abbrev pub is_unnamed : Bytes → Bool
is_unnamed [] = true
is_unnamed (c ∷ s) = false

unfoldable pub starts_with : Bytes → Bytes → Bool
starts_with [] s = true
starts_with (c ∷ prefix) [] = false
starts_with (c ∷ prefix) (d ∷ s) = c == d && starts_with prefix s

-- `s.find(part) != npos`
unfoldable pub contains_text : Bytes → Bytes → Bool
unfolding starts_with
contains_text part [] = is_unnamed part
contains_text part (c ∷ s) = starts_with part (c ∷ s) || contains_text part s

abbrev pub libpython_text : Bytes
libpython_text = b'l' ∷ b'i' ∷ b'b' ∷ b'p' ∷ b'y' ∷ b't' ∷ b'h' ∷ b'o' ∷ b'n' ∷ []

abbrev pub heap_text : Bytes
heap_text = b'[' ∷ b'h' ∷ b'e' ∷ b'a' ∷ b'p' ∷ b']' ∷ []

-- Maps keyed by texts, such as `std::unordered_map<std::string, V>`.
unfoldable pub find_in : {V : Type 0} → Bytes → List (Bytes × V) → Option V
find_in name [] = none
find_in name ((key, v) ∷ table) = if same_bytes name key then some v else find_in name table

-- `maps_by_library[name].push_back(m)`
unfoldable pub push_map :
    Bytes → VirtualMap → List (Bytes × List VirtualMap) → List (Bytes × List VirtualMap)
push_map name m [] = (name, m ∷ []) ∷ []
push_map name m ((key, ms) ∷ table) =
    let rest = push_map name m table in
    if same_bytes name key then (key, ms ++ (m ∷ [])) ∷ table else (key, ms) ∷ rest

-- The least start is kept.
unfoldable pub add_load_point : Bytes → ℕ → List (Bytes × ℕ) → List (Bytes × ℕ)
add_load_point name start [] = (name, start) ∷ []
add_load_point name start ((key, point) ∷ points) =
    let rest = add_load_point name start points in
    if same_bytes name key
    then (key, if ltb start point then start else point) ∷ points
    else (key, point) ∷ rest

unfoldable pub first_named : List VirtualMap → Option VirtualMap
first_named [] = none
first_named (m ∷ ms) = if not (is_unnamed m.path) then some m else first_named ms

unfoldable pub get_base_map : List VirtualMap → Parsed VirtualMap
unfolding first_named
get_base_map [] = failed no_maps
get_base_map (m ∷ ms) = elim (first_named (m ∷ ms)) [ some n ↦ parsed n | none ↦ parsed m ]

unfoldable pub find_containing : ℕ → List VirtualMap → Option VirtualMap
unfolding contains_addr
find_containing addr [] = none
find_containing addr (m ∷ ms) = if contains_addr m addr then some m else find_containing addr ms

-- The map of a section that starts in a given map.
unfoldable pub bss_map : ℕ → SectionInfo → VirtualMap → VirtualMap
unfolding add64 sub64
bss_map start bss_info m = record {
  start = start;
  end = add64 start bss_info.size;
  filesize = bss_info.size;
  flags = [];
  offset = add64 m.offset (sub64 start m.start);
  device = [];
  inode = 0;
  path = [];
}

unfoldable pub first_unnamed : List VirtualMap → Option VirtualMap
unfolding is_readable
first_unnamed [] = none
first_unnamed (m ∷ ms) = if is_unnamed m.path && is_readable m then some m else first_unnamed ms

-- The paths of no shared objects, each with a comma.
unfoldable pub available_maps : List VirtualMap → Bytes
unfolding contains_text
available_maps [] = []
available_maps (m ∷ maps) =
    let rest = available_maps maps in
    if not (is_unnamed m.path) && not (contains_text (b'.' ∷ b's' ∷ b'o' ∷ []) m.path)
    then m.path ++ (b',' ∷ b' ' ∷ rest)
    else rest

unfoldable pub available_text : List VirtualMap → Bytes
unfolding available_maps
available_text maps =
    let available = available_maps maps in
    if leb 2 (length available) then take (length available - 2) available else available

unfoldable pub libpython_binaries : List (Bytes × List VirtualMap) → List Bytes
unfolding contains_text
libpython_binaries [] = []
libpython_binaries ((name, ms) ∷ table) =
    let rest = libpython_binaries table in
    if contains_text libpython_text name then name ∷ rest else rest

abbrev pub or_max : Option ℕ → ℕ
or_max none = word - 1
or_max (some point) = point

abbrev pub or_none : Option (List VirtualMap) → List VirtualMap
or_none none = []
or_none (some ms) = ms

abbrev pub first_of : Option (List VirtualMap) → Option VirtualMap
first_of none = none
first_of (some []) = none
first_of (some (m ∷ ms)) = some m

abbrev pub or_unnamed : List VirtualMap → Option VirtualMap → Option VirtualMap
or_unnamed elf_maps none = first_unnamed elf_maps
or_unnamed elf_maps (some bss) = some bss

module _ (filename : Bytes → Bytes) where
  unfoldable pub add_load_points : List (Bytes × ℕ) → List VirtualMap → List (Bytes × ℕ)
  unfolding add_load_point
  add_load_points points [] = points
  add_load_points points (m ∷ maps) =
      add_load_points
        (if is_unnamed m.path then points else add_load_point (filename m.path) m.start points) maps

  -- The name that a map goes by, after the one before it.
  abbrev pub path_name : Bytes → VirtualMap → Bytes
  path_name current_lib m = if is_unnamed m.path then current_lib else filename m.path

  unfoldable pub by_library :
      Bytes → List (Bytes × List VirtualMap) → List VirtualMap → List (Bytes × List VirtualMap)
  unfolding push_map
  by_library current_lib table [] = table
  by_library current_lib table (m ∷ maps) =
      let name = path_name current_lib m in by_library name (push_map name m table) maps

  abbrev pub load_points_of : Option (List (Bytes × ℕ)) → List VirtualMap → List (Bytes × ℕ)
  load_points_of none maps = add_load_points [] maps
  load_points_of (some points) maps = points

module _ (bss_section : Bytes → Option SectionInfo) where
  unfoldable pub get_bss : List VirtualMap → ℕ → Parsed (Option VirtualMap)
  unfolding get_base_map find_containing bss_map add64
  get_bss [] load_point = parsed none
  get_bss (m ∷ ms) load_point = get_base_map (m ∷ ms) >>= λ binary_map.
      if is_unnamed binary_map.path then parsed none else (elim (bss_section binary_map.path) [
        | none ↦ parsed none
        | some bss_info ↦
            let start = add64 load_point bss_info.corrected_addr in
            elim (find_containing start (m ∷ ms)) [
              | none ↦ parsed none
              | some first_matching_map ↦ parsed (some (bss_map start bss_info first_matching_map))
            ]
      ])

  -- The part after the binary's maps and the libraries have been found.
  unfoldable pub finish :
      Option VirtualMap
      → VirtualMap
      → Option VirtualMap
      → List VirtualMap
      → ℕ
      → Parsed ProcessMemoryMapInfo
  unfolding get_bss first_unnamed
  finish heap python libpython elf_maps load_point = get_bss elf_maps load_point >>= λ bss.
      parsed (record {
        heap = heap;
        bss = or_unnamed elf_maps bss;
        python = python;
        libpython = libpython;
      })

  -- By the names with "libpython" in them.
  unfoldable pub choose_elf :
      List Bytes
      → Bytes
      → List VirtualMap
      → List (Bytes × List VirtualMap)
      → List (Bytes × ℕ)
      → VirtualMap
      → Parsed ProcessMemoryMapInfo
  unfolding finish find_in get_base_map
  choose_elf [] binary_name binary_maps table points python =
      finish (first_of (find_in heap_text table)) python none binary_maps
        (or_max (find_in binary_name points))
  choose_elf (libpython_name ∷ []) binary_name binary_maps table points python =
      let libpython_maps = or_none (find_in libpython_name table) in
      get_base_map libpython_maps >>= λ libpython.
      finish (first_of (find_in heap_text table)) python (some libpython) libpython_maps
        (or_max (find_in libpython_name points))
  choose_elf (name ∷ (other ∷ names)) binary_name binary_maps table points python =
      failed (multiple_libpython (length (name ∷ (other ∷ names))))

module _ (filename : Bytes → Bytes) (bss_section : Bytes → Option SectionInfo) where
  unfoldable pub parse_map_information :
      Bytes → List VirtualMap → Option (List (Bytes × ℕ)) → Parsed ProcessMemoryMapInfo
  unfolding add_load_points by_library find_in available_text get_base_map libpython_binaries
      choose_elf
  parse_map_information binary maps load_point_by_module =
      let points = load_points_of filename load_point_by_module maps in
      let table = by_library filename [] [] maps in
      elim (find_in (filename binary) table) [
        | none ↦ failed (unable_to_find binary (available_text maps))
        | some binary_maps ↦ get_base_map binary_maps >>= λ python.
            choose_elf bss_section (libpython_binaries table) (filename binary) binary_maps table
              points python
      ]

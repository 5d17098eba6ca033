-- ===== src/MapsParser/CoreMaps.antt =====
-- `parseCoreFileMaps` of maps_parser.cpp: the segments of a core file together with the files that were
-- mapped. `std::filesystem::canonical`, which may throw, and `std::sort` are parameters.
use pystack.Prelude.{
  Bool, false, not, ◌&&◌, ◌||◌, Option, none, some, List, [], ◌∷◌, ◌++◌, map, ◌==◌, if◌then◌else◌,
  same_bytes,
}
use pystack.Memory.Maps.{Bytes, VirtualMap}
use pystack.Corefile.Mapped.{CoreVirtualMap}
use pystack.MapsParser.{is_unnamed, find_in}

-- Whether the range of a map is one of the maps'.
unfoldable pub has_range : CoreVirtualMap → List CoreVirtualMap → Bool
has_range m [] = false
has_range m (n ∷ maps) = (m.start == n.start && m.end == n.end) || has_range m maps

unfoldable pub missing_mapped_files :
    List CoreVirtualMap → List CoreVirtualMap → List CoreVirtualMap
unfolding has_range
missing_mapped_files memory_maps [] = []
missing_mapped_files memory_maps (m ∷ mapped_files) =
    let rest = missing_mapped_files memory_maps mapped_files in
    if has_range m memory_maps then rest else m ∷ rest

unfoldable pub has_path : Bytes → List Bytes → Bool
has_path path [] = false
has_path path (p ∷ paths) = same_bytes path p || has_path path paths

module _ (canonical : Bytes → Option Bytes) where
  abbrev resolved : Bytes → Bytes
  resolved path = elim (canonical path) [ none ↦ path | some resolved_path ↦ resolved_path ]

  unfoldable pub missing_map_paths : List CoreVirtualMap → List Bytes
  missing_map_paths [] = []
  missing_map_paths (m ∷ maps) =
      let rest = missing_map_paths maps in
      if not (is_unnamed m.path) then resolved m.path ∷ rest else rest

  -- The last path of a file stands first, and is the one that is found.
  unfoldable pub file_maps :
      List Bytes → List (Bytes × Bytes) → List CoreVirtualMap → List (Bytes × Bytes)
  unfolding has_path
  file_maps missing table [] = table
  file_maps missing table (m ∷ memory_maps) =
      file_maps missing
        (if is_unnamed m.path then table else (elim (canonical m.path) [
          | none ↦ table
          | some resolved_path ↦
              if has_path resolved_path missing then (resolved_path, m.path) ∷ table else table
        ]))
        memory_maps

  abbrev found_or : Bytes → Option Bytes → Bytes
  found_or path none = path
  found_or path (some other) = other

  unfoldable pub with_path : List (Bytes × Bytes) → CoreVirtualMap → VirtualMap
  unfolding find_in
  with_path table m = record {
    start = m.start;
    end = m.end;
    filesize = m.filesize;
    flags = m.flags;
    offset = m.offset;
    device = m.device;
    inode = m.inode;
    path =
        if not (is_unnamed m.path)
        then found_or m.path (find_in (resolved m.path) table)
        else m.path;
  }

  module _ (sort : List CoreVirtualMap → List CoreVirtualMap) where
    unfoldable pub parse_core_file_maps :
        List CoreVirtualMap → List CoreVirtualMap → List VirtualMap
    unfolding missing_mapped_files missing_map_paths file_maps with_path
    parse_core_file_maps mapped_files memory_maps =
        let missing = missing_mapped_files memory_maps mapped_files in
        map (with_path (file_maps (missing_map_paths missing) [] memory_maps))
          (sort (memory_maps ++ missing))

-- ===== src/MapsParser/Information.antt =====
-- What `parseMapInformation` of maps_parser.cpp finds among the maps of a process.
use pystack.Prelude.{
  ℕ, ◌≡◌, ◌≢◌, ◌⊎◌, inl, inr, refl, sym, ap, ◌∙◌, true, false, Option-cases, Option, none, some,
  List, [], ◌∷◌, Member,
}
use mathlib.Core.Path.{subst}
use pystack.Memory.Maps.{Bytes, VirtualMap}
use pystack.MapsParser.{
  ProcessMemoryMapInfo, SectionInfo, Parsed, parsed, failed, unable_to_find, ◌>>=◌, is_unnamed,
  contains_text, libpython_text, heap_text, find_in, get_base_map, get_bss, libpython_binaries,
  or_max, or_none, first_of, or_unnamed, finish, choose_elf, by_library, load_points_of,
  parse_map_information, available_text,
}
use pystack.MapsParser.Groups.{
  named, maps_of, maps_of-by_library, by_library-HasName, libpython_binaries-Member,
  libpython_binaries-contains, IsBase, get_base_map-IsBase,
}

bind-parsed :
    {A B : Type 0} (r : Parsed A) (f : A → Parsed B) (b : B)
    → (r >>= f) ≡ parsed b
    → (a : A) × (r ≡ parsed a) × (f a ≡ parsed b)
bind-parsed (parsed a) f b h = (a, refl, h)
bind-parsed (failed e) f b h = absurd cc

-- The first map of a list.
abbrev pub first_map : List VirtualMap → Option VirtualMap
first_map [] = none
first_map (m ∷ ms) = some m

module _ (filename : Bytes → Bytes) (bss_section : Bytes → Option SectionInfo) where
  -- The maps that go by a name.
  abbrev pub all_named : List VirtualMap → Bytes → List VirtualMap
  all_named maps name = named filename name [] maps

  -- The library, or the binary where no map is one of a libpython, and the maps that are searched.
  abbrev pub IsChoice :
      List VirtualMap → Bytes → List (Bytes × ℕ) → ProcessMemoryMapInfo → Bytes → Type 0
  IsChoice maps binary points info elf_name =
      (((elf_name ≡ filename binary) × (info.libpython ≡ none))
        ⊎ ((contains_text libpython_text elf_name ≡ true)
            × ((m : VirtualMap) × (info.libpython ≡ some m) × IsBase m (all_named maps elf_name))))
      × ((m : VirtualMap)
          → Member m maps
          → is_unnamed m.path ≡ false
          → contains_text libpython_text (filename m.path) ≡ true
          → (filename m.path ≡ elf_name) × (info.libpython ≢ none))
      × ((bss : Option VirtualMap) × (get_bss bss_section (all_named maps elf_name)
              (or_max (find_in elf_name points))
            ≡ parsed bss)
          × (info.bss ≡ or_unnamed (all_named maps elf_name) bss))

  abbrev pub IsInformation :
      List VirtualMap → Bytes → List (Bytes × ℕ) → ProcessMemoryMapInfo → Type 0
  IsInformation maps binary points info =
      IsBase info.python (all_named maps (filename binary))
      × (info.heap ≡ first_map (all_named maps heap_text))
      × ((elf_name : Bytes) × IsChoice maps binary points info elf_name)

  finish-parsed :
      (heap libpython : Option VirtualMap) (python : VirtualMap) (elf_maps : List VirtualMap)
      (load_point : ℕ) (info : ProcessMemoryMapInfo)
      → finish bss_section heap python libpython elf_maps load_point ≡ parsed info
      → (bss : Option VirtualMap) × (get_bss bss_section elf_maps load_point ≡ parsed bss)
        × (info ≡ record {
          heap = heap;
          bss = or_unnamed elf_maps bss;
          python = python;
          libpython = libpython;
        })
  unfolding finish
  finish-parsed heap libpython python elf_maps load_point info h =
      let (bss, e, h) = bind-parsed (get_bss bss_section elf_maps load_point) _ info h in
      (bss, e, sym (same_info _ _ h))
    where
      same_info : (a b : ProcessMemoryMapInfo) → parsed a ≡ parsed b → a ≡ b
      same_info a b h = cc

  module _ (maps : List VirtualMap) (binary : Bytes) (points : List (Bytes × ℕ))
      (info : ProcessMemoryMapInfo) (python : VirtualMap) where
    abbrev table : List (Bytes × List VirtualMap)
    table = by_library filename [] [] maps

    all_named-table : (name : Bytes) → maps_of name table ≡ all_named maps name
    unfolding find_in
    all_named-table name = maps_of-by_library filename name [] [] maps

    -- What the choice gives, beside the binary and the heap.
    abbrev IsChosen : Type 0
    IsChosen =
        (info.python ≡ python)
        × (info.heap ≡ first_of (find_in heap_text table))
        × ((elf_name : Bytes) × IsChoice maps binary points info elf_name)

    in_names :
        (names : List Bytes)
        → libpython_binaries table ≡ names
        → (m : VirtualMap) → Member m maps
        → is_unnamed m.path ≡ false
        → contains_text libpython_text (filename m.path) ≡ true
        → Member (filename m.path) names
    in_names names same m is e f =
        subst (λ names. Member (filename m.path) names) same
          (libpython_binaries-Member (filename m.path) table
            (by_library-HasName filename [] [] maps m is e) f)

    choose_elf-IsChosen :
        (names : List Bytes)
        → libpython_binaries table ≡ names
        → choose_elf bss_section names
            (filename binary)
            (all_named maps (filename binary))
            table
            points
            python
          ≡ parsed info
        → IsChosen
    unfolding choose_elf
    choose_elf-IsChosen [] same h =
        let (bss, e, is) =
          finish-parsed (first_of (find_in heap_text table)) none python
            (all_named maps (filename binary)) (or_max (find_in (filename binary) points)) info h in
        subst
          (λ (i : ProcessMemoryMapInfo).
            (i.python ≡ python)
            × (i.heap ≡ first_of (find_in heap_text table))
            × ((elf_name : Bytes) × IsChoice maps binary points i elf_name))
          (sym is)
          (
            refl,
            refl,
            (
              filename binary,
              (inl (refl, refl), (λ m is e f. absurd (in_names [] same m is e f)), (bss, e, refl)),
            ),
          )
    choose_elf-IsChosen (name ∷ []) same h =
        let (libpython, base, h) = bind-parsed (get_base_map (maps_of name table)) _ info h in
        let (bss, e, is) =
          finish-parsed (first_of (find_in heap_text table)) (some libpython) python
            (maps_of name table) (or_max (find_in name points)) info h in
        let libpythons = all_named-table name in
        subst
          (λ (i : ProcessMemoryMapInfo).
            (i.python ≡ python)
            × (i.heap ≡ first_of (find_in heap_text table))
            × ((elf_name : Bytes) × IsChoice maps binary points i elf_name))
          (sym is)
          (
            refl,
            refl,
            (
              name,
              (
                inr (
                  libpython_binaries-contains name table
                      (subst (λ names. Member name names) (sym same) (inl refl)),
                  (
                    libpython,
                    refl,
                    subst (λ ms. IsBase libpython ms) libpythons
                        (get_base_map-IsBase (maps_of name table) libpython base),
                  ),
                ),
                (λ m is e f. (
                  elim (in_names (name ∷ []) same m is e f) [ inl g ↦ g | inr g ↦ absurd g ],
                  (λ z. cc),
                )),
                (
                  bss,
                  subst (λ ms. get_bss bss_section ms (or_max (find_in name points)) ≡ parsed bss)
                      libpythons e,
                  ap (λ ms. or_unnamed ms bss) libpythons,
                ),
              ),
            ),
          )
    choose_elf-IsChosen (name ∷ (other ∷ names)) same h = absurd cc

  -- What parseMapInformation finds: the map of the binary is one that goes by its file name, with
  -- a path if any has one; the heap is the first map that goes by "[heap]". No two maps have different
  -- file names with "libpython" in them; the library's map is one of such a name, and if there is none,
  -- no map has such a file name. The bss is that of getBss for the library's maps, or the binary's
  -- where there is no library, at their load point, or else the first map of them that is readable and
  -- has no path.
  pub parse_map_information-IsInformation :
      (binary : Bytes) (maps : List VirtualMap) (load_point_by_module : Option (List (Bytes × ℕ)))
      (info : ProcessMemoryMapInfo)
      → parse_map_information filename bss_section binary maps load_point_by_module ≡ parsed info
      → IsInformation maps binary (load_points_of filename load_point_by_module maps) info
  unfolding parse_map_information
  parse_map_information-IsInformation binary maps lp info h =
      let points = load_points_of filename lp maps in
      let libraries = by_library filename [] [] maps in
      elim (Option-cases (find_in (filename binary) libraries)) [
        | inl e ↦ absurd (refused (available_text maps) (rw (parse_map_information, e) at h))
        | inr (binary_maps, e) ↦
            let is : binary_maps ≡ all_named maps (filename binary) =
              sym (ap or_none e)
              ∙ all_named-table maps binary points info (info.python) (filename binary) in
            let h : (get_base_map binary_maps >>= λ python.
            choose_elf bss_section (libpython_binaries libraries) (filename binary) binary_maps
              libraries points python)
                ≡ parsed info =
              rw (parse_map_information, e) at h in
            let (python, base, h) = bind-parsed (get_base_map binary_maps) _ info h in
            let h =
              subst
                (λ ms.
                  choose_elf bss_section (libpython_binaries libraries) (filename binary) ms
                    libraries points python
                  ≡ parsed info)
                is h in
            let (same, heap, chosen) =
              choose_elf-IsChosen maps binary points info python (libpython_binaries libraries) refl
                h in
            (
              subst (λ m. IsBase m (all_named maps (filename binary))) (sym same)
                  (subst (λ ms. IsBase python ms) is (get_base_map-IsBase binary_maps python base)),
              heap
                  ∙ first_same (find_in heap_text libraries)
                  ∙ ap first_map (all_named-table maps binary points info python heap_text),
              chosen,
            )
      ]
    where
      refused : (text : Bytes) → failed (unable_to_find binary text) ≡ parsed info → ⊥
      refused text h = cc

      first_same : (o : Option (List VirtualMap)) → first_of o ≡ first_map (or_none o)
      first_same none = refl
      first_same (some []) = refl
      first_same (some (m ∷ ms)) = refl

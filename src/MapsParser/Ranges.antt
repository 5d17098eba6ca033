-- ===== src/MapsParser/Ranges.antt =====
-- Which ranges `parseCoreFileMaps` of maps_parser.cpp gives, and in which order.
use pystack.Prelude.{
  ℕ, ◌+◌, ◌≡◌, ◌≤◌, inl, inr, refl, sym, ap, ◌∙◌, arith, not, ◌&&◌, Bool-cases, Option, List, [],
  ◌∷◌, ◌++◌, map, ◌==◌, if◌then◌else◌,
}
use mathlib.Core.Path.{subst}
use pystack.Memory.Maps.{Bytes, VirtualMap}
use pystack.Corefile.Mapped.{CoreVirtualMap}
use pystack.MapsParser.CoreMaps.{
  has_range, missing_mapped_files, missing_map_paths, file_maps, with_path, parse_core_file_maps,
}

-- The addresses at which a map starts and ends.
abbrev Range : Type 0
Range = ℕ × ℕ

abbrev pub ranges : List VirtualMap → List Range
ranges maps = map (λ (v : VirtualMap). (v.start, v.end)) maps

abbrev pub core_ranges : List CoreVirtualMap → List Range
core_ranges maps = map (λ (m : CoreVirtualMap). (m.start, m.end)) maps

-- How many of the ranges start and end there.
unfoldable pub count : ℕ → ℕ → List Range → ℕ
count start end [] = 0
count start end ((s, e) ∷ rest) = (if start == s && end == e then 1 else 0) + count start end rest

-- Ordered by the starts.
abbrev pub IsOrdered : List Range → Type 0
IsOrdered [] = Unit {0}
IsOrdered (a ∷ []) = Unit {0}
IsOrdered (a ∷ (b ∷ rest)) = (a.0 ≤ b.0) × IsOrdered (b ∷ rest)

-- What `std::sort` does with the maps: it keeps how often each range is there, and orders by the starts.
pub record IsSort (sort : List CoreVirtualMap → List CoreVirtualMap) : Type 0 where
  pub count :
      (start end : ℕ) (maps : List CoreVirtualMap)
      → count start end (core_ranges (sort maps)) ≡ count start end (core_ranges maps)
  pub ordered : (maps : List CoreVirtualMap) → IsOrdered (core_ranges (sort maps))

count-append :
    (start end : ℕ) (xs ys : List CoreVirtualMap)
    → count start end (core_ranges (xs ++ ys))
      ≡ count start end (core_ranges xs) + count start end (core_ranges ys)
unfolding count
count-append start end [] ys = omega arith
count-append start end (x ∷ xs) ys = omega (arith, count-append start end xs ys)

has_range-count :
    (m : CoreVirtualMap) (maps : List CoreVirtualMap)
    → has_range m maps ≡ not (count m.start m.end (core_ranges maps) == 0)
unfolding has_range count
has_range-count m [] = refl
has_range-count m (n ∷ maps) = ground (arith, has_range-count m maps)

-- A range that a segment has is not added.
count-missing :
    (memory_maps mapped_files : List CoreVirtualMap) (start end : ℕ)
    → count start end (core_ranges (missing_mapped_files memory_maps mapped_files)) ≡ (
        if count start end (core_ranges memory_maps) == 0
        then count start end (core_ranges mapped_files)
        else 0)
unfolding missing_mapped_files count
count-missing memory_maps [] start end = ground arith
count-missing memory_maps (n ∷ mapped_files) start end =
    elim (Bool-cases (start == n.start && end == n.end)) [
      | inl same ↦
          let s : start ≡ n.start = ground arith in
          let e : end ≡ n.end = ground arith in
          let counted : count start end (core_ranges memory_maps)
              ≡ count n.start n.end (core_ranges memory_maps) =
            rw (s, e) refl in
          elim (Bool-cases (has_range n memory_maps)) [
            | inl old ↦ rw old (
                ground (
                  arith,
                  has_range-count n memory_maps,
                  counted,
                  count-missing memory_maps mapped_files start end,
                ))
            | inr new ↦ rw new (
                ground (
                  arith,
                  has_range-count n memory_maps,
                  counted,
                  count-missing memory_maps mapped_files start end,
                ))
          ]
      | inr other ↦ elim (Bool-cases (has_range n memory_maps)) [
        | inl old ↦
            rw (old, other) (ground (arith, count-missing memory_maps mapped_files start end))
        | inr new ↦
            rw (new, other)
              (ground (arith, other, count-missing memory_maps mapped_files start end))
      ]
    ]

ranges-map :
    (canonical : Bytes → Option Bytes) (table : List (Bytes × Bytes)) (maps : List CoreVirtualMap)
    → ranges (map (with_path canonical table) maps) ≡ core_ranges maps
unfolding with_path
ranges-map canonical table [] = refl
ranges-map canonical table (m ∷ maps) =
    ap (λ (xs : List Range). (m.start, m.end) ∷ xs) (ranges-map canonical table maps)

-- parseCoreFileMaps gives each range of a segment as often as there are segments with it, whatever the
-- mapped files are; a range that no segment has as often as there are mapped files with it; and no other
-- range. They are ordered by their starts. Both hold if std::sort keeps how often each range is there, and
-- orders by the starts.
pub parse_core_file_maps-count :
    (canonical : Bytes → Option Bytes) (sort : List CoreVirtualMap → List CoreVirtualMap)
    (mapped_files memory_maps : List CoreVirtualMap)
    → IsSort sort
    → ((start end : ℕ)
        → count start end (ranges (parse_core_file_maps canonical sort mapped_files memory_maps))
          ≡ (if count start end (core_ranges memory_maps) == 0
              then count start end (core_ranges mapped_files)
              else count start end (core_ranges memory_maps)))
      × IsOrdered (ranges (parse_core_file_maps canonical sort mapped_files memory_maps))
unfolding parse_core_file_maps
parse_core_file_maps-count canonical sort mapped_files memory_maps is =
    let missing = missing_mapped_files memory_maps mapped_files in
    let table = file_maps canonical (missing_map_paths canonical missing) [] memory_maps in
    let all_maps = memory_maps ++ missing in
    let same = ranges-map canonical table (sort all_maps) in
    (
      (λ start end.
          ap (count start end) same
          ∙ is.count start end all_maps
          ∙ count-append start end memory_maps missing
          ∙ ground (arith, count-missing memory_maps mapped_files start end)),
      subst (λ xs. IsOrdered xs) (sym same) (is.ordered all_maps),
    )

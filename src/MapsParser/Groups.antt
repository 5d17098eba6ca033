-- ===== src/MapsParser/Groups.antt =====
-- The maps by library of `parseMapInformation` of maps_parser.cpp, and the names among them.
use pystack.Prelude.{
  ◌≡◌, ◌⊎◌, inl, inr, refl, sym, ap, ◌∙◌, true, false, Bool-cases, Option-cases, none, some, List,
  [], ◌∷◌, ◌++◌, Member, if◌then◌else◌, same_bytes, same_bytes_sound, same_bytes_refl,
}
use mathlib.Core.List.{append-nil, append_assoc}
use mathlib.Core.Path.{subst}
use pystack.Memory.Maps.{Bytes, VirtualMap}
use pystack.MapsParser.{
  is_unnamed, contains_text, libpython_text, find_in, push_map, first_named, get_base_map,
  libpython_binaries, or_none, path_name, by_library, Parsed, parsed,
}

-- The two names are the same, or differ for the table too.
pub Name-cases : (a b : Bytes) → (a ≡ b) ⊎ (same_bytes a b ≡ false)
Name-cases a b = elim (Bool-cases (same_bytes a b)) [
  | inl e ↦ inl (same_bytes_sound a b e)
  | inr e ↦ inr e
]

-- The maps of a name, in the order they are listed.
module _ (filename : Bytes → Bytes) where
  unfoldable pub named : Bytes → Bytes → List VirtualMap → List VirtualMap
  named name current_lib [] = []
  named name current_lib (m ∷ maps) =
      let label = path_name filename current_lib m in
      let rest = named name label maps in if same_bytes name label then m ∷ rest else rest

abbrev pub maps_of : Bytes → List (Bytes × List VirtualMap) → List VirtualMap
maps_of name table = or_none (find_in name table)

maps_of-push_map :
    (name label : Bytes) (m : VirtualMap) (table : List (Bytes × List VirtualMap))
    → maps_of name (push_map label m table)
      ≡ (if same_bytes name label then maps_of name table ++ (m ∷ []) else maps_of name table)
unfolding push_map find_in
maps_of-push_map name label m [] = elim (Bool-cases (same_bytes name label)) [
  | inl e ↦ rw e refl
  | inr e ↦ rw e refl
]
maps_of-push_map name label m ((key, ms) ∷ table) = elim (Name-cases label key) [
  | inl same ↦
      let e : same_bytes label key ≡ true = rw same (same_bytes_refl key) in
      elim (Bool-cases (same_bytes name key)) [
        | inl f ↦ rw (e, f, same) (rw f refl)
        | inr f ↦ rw (e, f, same) (rw f refl)
      ]
  | inr e ↦ elim (Name-cases name key) [
    | inl same ↦
        let f : same_bytes name key ≡ true = rw same (same_bytes_refl key) in
        elim (Name-cases name label) [
          | inl is ↦
              absurd
                (let g : same_bytes label key ≡ true = rw (← is, same) (same_bytes_refl key) in cc)
          | inr g ↦ rw (e, g, f) refl
        ]
    | inr f ↦ rw (e, f) (maps_of-push_map name label m table)
  ]
]

module _ (filename : Bytes → Bytes) where
  -- What the table had for a name, and then the maps that go by it.
  pub maps_of-by_library :
      (name current_lib : Bytes) (table : List (Bytes × List VirtualMap)) (maps : List VirtualMap)
      → maps_of name (by_library filename current_lib table maps)
        ≡ maps_of name table ++ named filename name current_lib maps
  unfolding by_library named find_in
  maps_of-by_library name current_lib table [] = sym (append-nil (maps_of name table))
  maps_of-by_library name current_lib table (m ∷ maps) =
      let label = path_name filename current_lib m in
      let step = maps_of-push_map name label m table in
      let rest = maps_of-by_library name label (push_map label m table) maps in
      elim (Bool-cases (same_bytes name label)) [
        | inl e ↦
            let step : maps_of name (push_map label m table) ≡ maps_of name table ++ (m ∷ []) =
              rw e at step in
            rw e (
              rest
              ∙ ap (λ ms. ms ++ named filename name label maps) step
              ∙ append_assoc (maps_of name table) (m ∷ []) (named filename name label maps))
        | inr e ↦
            let step : maps_of name (push_map label m table) ≡ maps_of name table = rw e at step in
            rw e (rest ∙ ap (λ ms. ms ++ named filename name label maps) step)
      ]

abbrev pub HasName : {V : Type 0} → Bytes → List (Bytes × V) → Type 0
HasName name [] = ⊥
HasName name ((key, v) ∷ table) = (name ≡ key) ⊎ HasName name table

push_map-HasName :
    (name label : Bytes) (m : VirtualMap) (table : List (Bytes × List VirtualMap))
    → (name ≡ label) ⊎ HasName name table
    → HasName name (push_map label m table)
unfolding push_map
push_map-HasName name label m [] (inl e) = inl e
push_map-HasName name label m [] (inr h) = absurd h
push_map-HasName name label m ((key, ms) ∷ table) h =
    let rest = push_map-HasName name label m table in
    elim (Name-cases label key) [
      | inl same ↦
          let e : same_bytes label key ≡ true = rw same (same_bytes_refl key) in
          rw e (elim h [ inl f ↦ inl (f ∙ same) | inr f ↦ f ])
      | inr e ↦ rw e (elim h [
        | inl f ↦ inr (rest (inl f))
        | inr (inl f) ↦ inl f
        | inr (inr f) ↦ inr (rest (inr f))
      ])
    ]

module _ (filename : Bytes → Bytes) where
  by_library-keeps :
      (name current_lib : Bytes) (table : List (Bytes × List VirtualMap)) (maps : List VirtualMap)
      → HasName name table
      → HasName name (by_library filename current_lib table maps)
  unfolding by_library
  by_library-keeps name current_lib table [] h = h
  by_library-keeps name current_lib table (m ∷ maps) h =
      let label = path_name filename current_lib m in
      by_library-keeps name label (push_map label m table) maps
        (push_map-HasName name label m table (inr h))

  -- Every map with a path has its file name in the table.
  pub by_library-HasName :
      (current_lib : Bytes) (table : List (Bytes × List VirtualMap)) (maps : List VirtualMap)
      (m : VirtualMap)
      → Member m maps
      → is_unnamed m.path ≡ false
      → HasName (filename m.path) (by_library filename current_lib table maps)
  unfolding by_library
  by_library-HasName current_lib table [] m h e = absurd h
  by_library-HasName current_lib table (n ∷ maps) m (inl same) e =
      let label = path_name filename current_lib n in
      by_library-keeps (filename m.path) label (push_map label n table) maps (
        push_map-HasName (filename m.path) label n table (
          inl (
            let named : path_name filename current_lib m ≡ filename m.path = rw e refl in
            sym named ∙ ap (path_name filename current_lib) same)))
  by_library-HasName current_lib table (n ∷ maps) m (inr h) e =
      let label = path_name filename current_lib n in
      by_library-HasName label (push_map label n table) maps m h e

pub libpython_binaries-Member :
    (name : Bytes) (table : List (Bytes × List VirtualMap))
    → HasName name table
    → contains_text libpython_text name ≡ true
    → Member name (libpython_binaries table)
unfolding libpython_binaries
libpython_binaries-Member name [] h e = absurd h
libpython_binaries-Member name ((key, ms) ∷ table) (inl same) e =
    let f : contains_text libpython_text key ≡ true = rw same at e in rw f (inl same)
libpython_binaries-Member name ((key, ms) ∷ table) (inr h) e =
    let rest = libpython_binaries-Member name table h e in
    elim (Bool-cases (contains_text libpython_text key)) [
      | inl f ↦ rw f (inr rest)
      | inr f ↦ rw f rest
    ]

pub libpython_binaries-contains :
    (name : Bytes) (table : List (Bytes × List VirtualMap))
    → Member name (libpython_binaries table)
    → contains_text libpython_text name ≡ true
unfolding libpython_binaries
libpython_binaries-contains name [] h = absurd h
libpython_binaries-contains name ((key, ms) ∷ table) h =
    elim (Bool-cases (contains_text libpython_text key)) [
      | inl f ↦
          let h : (name ≡ key) ⊎ Member name (libpython_binaries table) = rw f at h in
          elim h [ inl same ↦ rw same f | inr h ↦ libpython_binaries-contains name table h ]
      | inr f ↦ libpython_binaries-contains name table (rw f at h)
    ]

-- One with a path, or one of maps that all have none.
abbrev pub IsBase : VirtualMap → List VirtualMap → Type 0
IsBase m ms =
    Member m ms
    × ((is_unnamed m.path ≡ false) ⊎ ((n : VirtualMap) → Member n ms → is_unnamed n.path ≡ true))

first_named-Member :
    (ms : List VirtualMap) (m : VirtualMap)
    → first_named ms ≡ some m
    → Member m ms × (is_unnamed m.path ≡ false)
unfolding first_named
first_named-Member [] m h = absurd cc
first_named-Member (n ∷ ms) m h = elim (Bool-cases (is_unnamed n.path)) [
  | inl e ↦ let (is, f) = first_named-Member ms m (rw e at h) in (inr is, f)
  | inr e ↦
      let g : some n ≡ some m = rw e at h in
      let same : n ≡ m = cc in
      (inl (sym same), subst (λ (x : VirtualMap). is_unnamed x.path ≡ false) same e)
]

first_named-none :
    (ms : List VirtualMap) (m : VirtualMap)
    → first_named ms ≡ none
    → Member m ms
    → is_unnamed m.path ≡ true
unfolding first_named
first_named-none [] m h is = absurd is
first_named-none (n ∷ ms) m h is = elim (Bool-cases (is_unnamed n.path)) [
  | inl e ↦ elim is [
    | inl same ↦ subst (λ (x : VirtualMap). is_unnamed x.path ≡ true) (sym same) e
    | inr is ↦ first_named-none ms m (rw e at h) is
  ]
  | inr e ↦ absurd (let g : some n ≡ none = rw e at h in cc)
]

base_of : VirtualMap → Parsed VirtualMap → VirtualMap
base_of d (parsed m) = m
base_of d p = d

pub get_base_map-IsBase :
    (ms : List VirtualMap) (m : VirtualMap) → get_base_map ms ≡ parsed m → IsBase m ms
unfolding get_base_map base_of
get_base_map-IsBase [] m h = absurd cc
get_base_map-IsBase (n ∷ ms) m h = elim (Option-cases (first_named (n ∷ ms))) [
  | inl e ↦
      let same : n ≡ m =
        ap (base_of n) (let g : parsed n ≡ parsed m = rw (get_base_map, e) at h in g) in
      (inl (sym same), inr (λ k is. first_named-none (n ∷ ms) k e is))
  | inr (k, e) ↦
      let same : k ≡ m =
        ap (base_of n) (let g : parsed k ≡ parsed m = rw (get_base_map, e) at h in g) in
      let (is, f) = first_named-Member (n ∷ ms) m (e ∙ ap some same) in (is, inl f)
]

-- ===== src/MapsParser/LoadPoints.antt =====
-- The load points of `parseMapInformation` of maps_parser.cpp.
use pystack.Prelude.{
  ℕ, ◌≡◌, ◌≤◌, ◌⊎◌, inl, inr, refl, sym, ap, ◌∙◌, arith, true, false, Bool-cases, none, some, List,
  [], ◌∷◌, Member, ltb, if◌then◌else◌, same_bytes, same_bytes_refl,
}
use pystack.Memory.Maps.{Bytes, VirtualMap}
use pystack.MapsParser.{is_unnamed, find_in, add_load_point, add_load_points}
use pystack.MapsParser.Groups.{Name-cases}

-- The point of a name is at most this.
abbrev AtMost : Bytes → ℕ → List (Bytes × ℕ) → Type 0
AtMost name start points = (point : ℕ) × (find_in name points ≡ some point) × (point ≤ start)

add_load_point-AtMost :
    (name : Bytes) (start : ℕ) (points : List (Bytes × ℕ))
    → AtMost name start (add_load_point name start points)
unfolding add_load_point find_in
add_load_point-AtMost name start [] = (start, rw (same_bytes_refl name) refl, omega arith)
add_load_point-AtMost name start ((key, point) ∷ points) = elim (Name-cases name key) [
  | inl same ↦
      let e : same_bytes name key ≡ true = rw same (same_bytes_refl key) in
      rw e (rw e (if ltb start point then start else point, refl, ground arith))
  | inr e ↦ rw e (rw e (add_load_point-AtMost name start points))
]

add_load_point-keeps :
    (name other : Bytes) (start bound : ℕ) (points : List (Bytes × ℕ))
    → AtMost name bound points
    → AtMost name bound (add_load_point other start points)
unfolding add_load_point find_in
add_load_point-keeps name other start bound [] (point, e, h) = absurd cc
add_load_point-keeps name other start bound ((key, old) ∷ points) (point, found, h) =
    elim (Name-cases name key) [
      | inl same ↦
          let e : same_bytes name key ≡ true = rw same (same_bytes_refl key) in
          let f : some old ≡ some point = rw e at found in
          let is : old ≡ point = cc in
          elim (Bool-cases (same_bytes other key)) [
            | inl g ↦ rw g (rw e (if ltb start old then start else old, refl, ground (arith, is)))
            | inr g ↦ rw g (rw e (old, refl, omega arith))
          ]
      | inr e ↦
          let found : find_in name points ≡ some point = rw e at found in
          elim (Bool-cases (same_bytes other key)) [
            | inl g ↦ rw g (rw e (point, found, h))
            | inr g ↦
                rw g (rw e (add_load_point-keeps name other start bound points (point, found, h)))
          ]
    ]

-- The point that is found stood there, or is the new one of its name.
add_load_point-old :
    (name other : Bytes) (start point : ℕ) (points : List (Bytes × ℕ))
    → find_in name (add_load_point other start points) ≡ some point
    → (find_in name points ≡ some point) ⊎ ((name ≡ other) × (start ≡ point))
unfolding add_load_point find_in
add_load_point-old name other start point [] h = elim (Name-cases name other) [
  | inl same ↦
      let e : same_bytes name other ≡ true = rw same (same_bytes_refl other) in
      let f : some start ≡ some point = rw e at h in inr (same, cc)
  | inr e ↦ absurd (let f : none ≡ some point = rw e at h in cc)
]
add_load_point-old name other start point ((key, old) ∷ points) h = elim (Name-cases other key) [
  | inl is ↦
      let g : same_bytes other key ≡ true = rw is (same_bytes_refl key) in
      let h : find_in name ((key, if ltb start old then start else old) ∷ points) ≡ some point =
        rw g at h in
      elim (Name-cases name key) [
        | inl same ↦
            let e : same_bytes name key ≡ true = rw same (same_bytes_refl key) in
            let f : some (if ltb start old then start else old) ≡ some point = rw e at h in
            elim (Bool-cases (ltb start old)) [
              | inl k ↦ let f : some start ≡ some point = rw k at f in inr (same ∙ sym is, cc)
              | inr k ↦ let f : some old ≡ some point = rw k at f in inl (rw e f)
            ]
        | inr e ↦ inl (rw e (let f : find_in name points ≡ some point = rw e at h in f))
      ]
  | inr g ↦
      let h : find_in name ((key, old) ∷ add_load_point other start points) ≡ some point =
        rw g at h in
      elim (Bool-cases (same_bytes name key)) [
        | inl e ↦ inl (rw e (let f : some old ≡ some point = rw e at h in f))
        | inr e ↦ rw e (add_load_point-old name other start point points (rw e at h))
      ]
]

-- A map with a path whose file name this is.
abbrev pub IsNamed : (Bytes → Bytes) → Bytes → VirtualMap → Type 0
IsNamed filename name m = (is_unnamed m.path ≡ false) × (filename m.path ≡ name)

module _ (filename : Bytes → Bytes) where
  add_load_points-keeps :
      (name : Bytes) (bound : ℕ) (points : List (Bytes × ℕ)) (maps : List VirtualMap)
      → AtMost name bound points
      → AtMost name bound (add_load_points filename points maps)
  unfolding add_load_points
  add_load_points-keeps name bound points [] h = h
  add_load_points-keeps name bound points (m ∷ maps) h = elim (Bool-cases (is_unnamed m.path)) [
    | inl e ↦ rw e (add_load_points-keeps name bound points maps h)
    | inr e ↦ rw e (
        add_load_points-keeps name bound (add_load_point (filename m.path) m.start points) maps
          (add_load_point-keeps name (filename m.path) m.start bound points h))
  ]

  add_load_points-AtMost :
      (points : List (Bytes × ℕ)) (maps : List VirtualMap) (m : VirtualMap)
      → Member m maps
      → is_unnamed m.path ≡ false
      → AtMost (filename m.path) m.start (add_load_points filename points maps)
  unfolding add_load_points
  add_load_points-AtMost points [] m h e = absurd h
  add_load_points-AtMost points (n ∷ maps) m (inl same) e =
      let f : is_unnamed n.path ≡ false =
        ap (λ (x : VirtualMap). is_unnamed x.path) (sym same) ∙ e in
      rw (f, same)
        (add_load_points-keeps (filename n.path) n.start _ maps
          (add_load_point-AtMost (filename n.path) n.start points))
  add_load_points-AtMost points (n ∷ maps) m (inr h) e =
      add_load_points-AtMost
        (if is_unnamed n.path then points else add_load_point (filename n.path) n.start points) maps
        m h e

  add_load_points-start :
      (name : Bytes) (point : ℕ) (points : List (Bytes × ℕ)) (maps : List VirtualMap)
      → find_in name (add_load_points filename points maps) ≡ some point
      → (find_in name points ≡ some point)
        ⊎ ((m : VirtualMap) × Member m maps × IsNamed filename name m × (m.start ≡ point))
  unfolding add_load_points
  add_load_points-start name point points [] h = inl h
  add_load_points-start name point points (m ∷ maps) h = elim (Bool-cases (is_unnamed m.path)) [
    | inl e ↦ elim (add_load_points-start name point points maps (rw e at h)) [
      | inl f ↦ inl f
      | inr (n, is, named, k) ↦ inr (n, inr is, named, k)
    ]
    | inr e ↦
        elim (add_load_points-start name point (add_load_point (filename m.path) m.start points)
          maps (rw e at h)) [
            | inl f ↦ elim (add_load_point-old name (filename m.path) m.start point points f) [
              | inl g ↦ inl g
              | inr (same, k) ↦ inr (m, inl refl, (e, sym same), k)
            ]
            | inr (n, is, named, k) ↦ inr (n, inr is, named, k)
          ]
  ]

-- The load point that is computed of a file name is the least start of the maps of that name: each of
-- them has one, at most its own start, and a load point is the start of one of them.
pub add_load_points-IsLeast :
    (filename : Bytes → Bytes) (maps : List VirtualMap) (name : Bytes)
    → ((m : VirtualMap)
        → Member m maps
        → IsNamed filename name m
        → (point : ℕ) × (find_in name (add_load_points filename [] maps) ≡ some point)
          × (point ≤ m.start))
      × ((point : ℕ)
          → find_in name (add_load_points filename [] maps) ≡ some point
          → (m : VirtualMap) × Member m maps × IsNamed filename name m × (m.start ≡ point))
unfolding find_in
add_load_points-IsLeast filename maps name = (
  (λ m is (e, same). rw (sym same) (add_load_points-AtMost filename [] maps m is e)),
  (λ point h. elim (add_load_points-start filename name point [] maps h) [
    | inl f ↦ absurd cc
    | inr found ↦ found
  ]),
)

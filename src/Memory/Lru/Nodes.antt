-- ===== src/Memory/Lru/Nodes.antt =====
-- The list of nodes of `LRUCache`: what it holds for each key, in sums that forget the order.
use pystack.Prelude.{
  ℕ, ◌+◌, ◌≡◌, Option, none, some, List, [], ◌∷◌, ◌++◌, reverse, arith, ◌==◌, if◌then◌else◌,
  Bool-cases, inl, inr,
}
use mathlib.Core.List.{reverse-cons}

pub record ListNode : Type 0 where
  pub key : ℕ
  pub size : ℕ

unfoldable pub find : ℕ → List ListNode → Option ListNode
find k [] = none
find k (n ∷ ns) = if n.key == k then some n else find k ns

-- `erase` of the node that the iterator of `k` names.
unfoldable pub remove : ℕ → List ListNode → List ListNode
remove k [] = []
remove k (n ∷ ns) = if n.key == k then ns else n ∷ remove k ns

abbrev pub total : List ListNode → ℕ
total [] = 0
total (n ∷ ns) = n.size + total ns

-- How many nodes hold the key, and how many bytes they are charged for.
abbrev pub occurrences : ℕ → List ListNode → ℕ
occurrences k [] = 0
occurrences k (n ∷ ns) = (if n.key == k then 1 else 0) + occurrences k ns

abbrev pub charged : ℕ → List ListNode → ℕ
charged k [] = 0
charged k (n ∷ ns) = (if n.key == k then n.size else 0) + charged k ns

pub charged-absent : (k : ℕ) (ns : List ListNode) → occurrences k ns ≡ 0 → charged k ns ≡ 0
charged-absent k [] h = omega arith
charged-absent k (n ∷ ns) h = ground (arith, charged-absent k ns)

-- The three sums split over `++`.
sums-append :
    (k : ℕ) (ns ms : List ListNode)
    → (total (ns ++ ms) ≡ total ns + total ms)
      × (occurrences k (ns ++ ms) ≡ occurrences k ns + occurrences k ms)
      × (charged k (ns ++ ms) ≡ charged k ns + charged k ms)
sums-append k [] ms = omega arith
sums-append k (n ∷ ns) ms = omega (arith, sums-append k ns ms)

pub sums-reverse :
    (k : ℕ) (ns : List ListNode)
    → (total (reverse ns) ≡ total ns)
      × (occurrences k (reverse ns) ≡ occurrences k ns)
      × (charged k (reverse ns) ≡ charged k ns)
sums-reverse k [] = omega arith
sums-reverse k (n ∷ ns) =
    rw (reverse-cons n ns) (omega (arith, sums-append k (reverse ns) (n ∷ []), sums-reverse k ns))

-- Taking the node of a key out and putting it in front changes no sum.
pub sums-remove :
    (k j : ℕ) (ns : List ListNode) (n : ListNode)
    → find k ns ≡ some n
    → (n.key ≡ k)
      × (total ns ≡ n.size + total (remove k ns))
      × (occurrences j ns ≡ occurrences j (n ∷ remove k ns))
      × (charged j ns ≡ charged j (n ∷ remove k ns))
unfolding find remove
sums-remove k j [] n h = cc
sums-remove k j (m ∷ ns) n h = ground (arith, sums-remove k j ns n)

pub find-present :
    (k : ℕ) (ns : List ListNode) → occurrences k ns ≡ 1 → (n : ListNode) × (find k ns ≡ some n)
unfolding find
find-present k [] h = absurd (omega arith)
find-present k (n ∷ ns) h = elim (Bool-cases (n.key == k)) [
  | inl here ↦ (n, rw here)
  | inr later ↦ let (m, e) = find-present k ns (ground arith) in (m, rw later e)
]

-- ===== src/Memory/Lru/Invariant.antt =====
-- What holds of a `LRUCache` between calls, and what the eviction loop does to it.
use pystack.Prelude.{
  ℕ, ◌+◌, ◌-◌, ◌^◌, ◌≤◌, ◌<◌, ◌≡◌, refl, Option, none, some, List, [], ◌∷◌, arith, inl, inr, ltb,
  leb, ◌==◌, if◌then◌else◌, Bool-cases, length, add64, sub64, add64_exact, sub64_exact, Table,
  erase,
}
use pystack.Memory.Lru.{LruCache, Room, evict}
use pystack.Memory.Lru.Nodes.{ListNode, total, occurrences, charged, charged-absent}

abbrev pub present : Option (List ℕ) → ℕ
present none = 0
present (some _) = 1

abbrev pub bytes_of : Option (List ℕ) → ℕ
bytes_of none = 0
bytes_of (some bytes) = length bytes

-- A key has one node if it is in the map, charged for the length of its bytes, and else none.
abbrev pub Linked : List ListNode → Table (List ℕ) → Type 0
Linked nodes cache =
    (k : ℕ) → (occurrences k nodes ≡ present (cache k)) × (charged k nodes ≡ bytes_of (cache k))

pub record IsValid (c : LruCache) : Type 0 where
  pub sum : c.size ≡ total c.nodes
  pub fits : c.size ≤ c.capacity
  pub small : c.capacity < 2 ^ 63
  pub linked : Linked c.nodes c.cache

-- The longest part, dropping from the front of the list, whose nodes fit the budget.
abbrev pub keep : ℕ → List ListNode → List ListNode
keep budget [] = []
keep budget (n ∷ ns) = if leb (total (n ∷ ns)) budget then n ∷ ns else keep budget ns

-- The entries of the keys that some node holds.
abbrev pub restrict : List ListNode → Table (List ℕ) → Table (List ℕ)
restrict nodes cache j = if occurrences j nodes == 0 then none else cache j

Linked-restrict :
    (ns : List ListNode) (cache : Table (List ℕ)) (j : ℕ)
    → Linked ns cache
    → cache j ≡ restrict ns cache j
Linked-restrict ns cache j linked = ground (arith, linked j)

Linked-pop :
    (n : ListNode) (ns : List ListNode) (cache : Table (List ℕ))
    → Linked (n ∷ ns) cache
    → Linked ns (erase cache n.key)
Linked-pop n ns cache linked k = ground (arith, linked k, charged-absent k ns)

-- `evict` keeps exactly the nodes that fit beside `n` more bytes, and their entries.
pub record Evicts (capacity n : ℕ) (nodes : List ListNode) (cache : Table (List ℕ)) (r : Room)
    : Type 0 where
  pub kept : r.kept ≡ keep (capacity - n) nodes
  pub sum : r.size ≡ total r.kept
  pub fits : r.size + n ≤ capacity
  pub linked : Linked r.kept r.cache
  pub entries : (j : ℕ) → r.cache j ≡ restrict r.kept cache j

module _ (capacity n : ℕ) (fits : n ≤ capacity) (small : capacity < 2 ^ 63) where
  pub evict-Evicts :
      (nodes : List ListNode) (cache : Table (List ℕ)) (size : ℕ)
      → size ≡ total nodes
      → size ≤ capacity
      → Linked nodes cache
      → (r : Room) × (evict capacity n nodes cache size ≡ some r) × Evicts capacity n nodes cache r
  unfolding evict
  evict-Evicts [] cache size sum bound linked = (
    record { kept = []; cache = cache; size = size },
    ground (arith, add64_exact size n),
    record {
      kept = refl;
      sum = sum;
      fits = omega arith;
      linked = linked;
      entries = λ j. Linked-restrict [] cache j linked;
    },
  )
  evict-Evicts (b ∷ ns) cache size sum bound linked =
      elim (Bool-cases (ltb capacity (add64 size n))) [
        | inl full ↦
            let (r, e, v) =
              evict-Evicts ns (erase cache b.key) (sub64 size b.size)
                (omega (arith, sub64_exact size b.size)) (omega (arith, sub64_exact size b.size))
                (Linked-pop b ns cache linked) in
            (
              r,
              rw full e,
              record {
                kept = ground (arith, add64_exact size n, v.kept);
                sum = v.sum;
                fits = v.fits;
                linked = v.linked;
                entries = λ j. ground (arith, v.entries j, v.linked j);
              },
            )
        | inr room ↦ (
          record { kept = b ∷ ns; cache = cache; size = size },
          rw room refl,
          record {
            kept = ground (arith, add64_exact size n);
            sum = sum;
            fits = ground (arith, add64_exact size n);
            linked = linked;
            entries = λ j. Linked-restrict (b ∷ ns) cache j linked;
          },
        )
      ]

-- ===== src/Memory/Lru/Eviction.antt =====
-- `put` of a key that is not cached, and `get`: they succeed, keep the cache valid, and evict from the
-- back only.
use pystack.Prelude.{
  ℕ, ◌-◌, ◌≤◌, ◌≡◌, refl, false, none, some, List, ◌∷◌, reverse, arith, ◌==◌, if◌then◌else◌, length,
  add64_exact, ◌⊎◌, inl, inr, Option-cases,
}
use pystack.Memory.Lru.{LruCache, Room, exists, put, get, push_front}
use pystack.Memory.Lru.Nodes.{
  ListNode, remove, charged-absent, sums-reverse, sums-remove, find-present,
}
use pystack.Memory.Lru.Invariant.{IsValid, Linked, Evicts, keep, restrict, evict-Evicts}

abbrev pub node : ℕ → List ℕ → ListNode
node key value = record { key = key; size = length value }

-- The nodes, front first, that stay when `n` more bytes need room.
abbrev pub survivors : LruCache → ℕ → List ListNode
survivors c n = reverse (keep (c.capacity - n) (reverse c.nodes))

pub record Inserts (c : LruCache) (key : ℕ) (value : List ℕ) (c' : LruCache) : Type 0 where
  pub valid : IsValid c'
  pub capacity : c'.capacity ≡ c.capacity
  pub nodes : c'.nodes ≡ node key value ∷ survivors c (length value)
  pub entries :
      (j : ℕ)
      → c'.cache j
        ≡ (if key == j then some value else restrict (survivors c (length value)) c.cache j)

module _ (c : LruCache) (key : ℕ) (value : List ℕ) where
  push_front-Linked :
      (r : Room)
      → Linked r.kept r.cache
      → r.cache key ≡ none
      → Linked (push_front c key value r).nodes (push_front c key value r).cache
  unfolding push_front
  push_front-Linked r linked fresh k = ground (arith, linked k, sums-reverse k r.kept)

  push_front-Inserts :
      (r : Room)
      → IsValid c
      → c.cache key ≡ none
      → Evicts c.capacity (length value) (reverse c.nodes) c.cache r
      → Inserts c key value (push_front c key value r)
  unfolding push_front
  push_front-Inserts r v fresh e = record {
    valid = record {
      sum = omega (
        arith,
        add64_exact r.size (length value),
        sums-reverse key r.kept,
        v.small,
        e.fits,
        e.sum,
      );
      fits = omega (arith, add64_exact r.size (length value), v.small, e.fits);
      small = v.small;
      linked = push_front-Linked r e.linked (ground (arith, e.entries key));
    };
    capacity = refl;
    nodes = rw e.kept;
    entries = λ j. ground (arith, e.entries j, sums-reverse j r.kept, e.kept);
  }

  -- Putting a key that is not cached, with a value that fits the capacity, never pops an empty list,
  -- gives a valid cache of the same capacity, puts the new node in front, evicts from the back just
  -- the nodes that leave too little room, and keeps every other entry.
  pub put-Inserts :
      IsValid c
      → exists c key ≡ false
      → length value ≤ c.capacity
      → (c' : LruCache) × (put c key value ≡ some c') × Inserts c key value c'
  unfolding put
  put-Inserts v absent fits =
      let fresh : c.cache key ≡ none = ground arith in
      let (r, e, ev) =
        evict-Evicts c.capacity (length value) fits v.small (reverse c.nodes) c.cache c.size
          (omega (arith, sums-reverse key c.nodes, v.sum)) v.fits
          (λ k. omega (arith, sums-reverse k c.nodes, v.linked k)) in
      (push_front c key value r, rw absent (ground arith), push_front-Inserts r v fresh ev)

pub record Fronts (c : LruCache) (key : ℕ) (value : List ℕ) (c' : LruCache) : Type 0 where
  pub valid : IsValid c'
  pub capacity : c'.capacity ≡ c.capacity
  pub nodes : c'.nodes ≡ node key value ∷ remove key c.nodes
  pub cache : c'.cache ≡ c.cache

abbrev pub Gets : LruCache → ℕ → Type 0
Gets c key =
    ((exists c key ≡ false) × (get c key ≡ none))
    ⊎ ((value : List ℕ) × (c' : LruCache) × (c.cache key ≡ some value)
        × (get c key ≡ some (c', value))
        × Fronts c key value c')

-- On each branch of a valid cache: `get` fails on a key that is not cached, and a hit returns the
-- cached bytes, moves the node of the key to the front and changes no entry.
pub get-Gets : (c : LruCache) (key : ℕ) → IsValid c → Gets c key
unfolding get exists
get-Gets c key v = elim (Option-cases (c.cache key)) [
  | inl miss ↦ inl (rw (miss, exists), rw (miss, get))
  | inr (value, hit) ↦
      let (n, e) = find-present key c.nodes (ground (arith, v.linked key)) in
      inr (
        value,
        record c { nodes = n ∷ remove key c.nodes },
        hit,
        ground arith,
        record {
          valid = record {
            sum = omega (arith, sums-remove key key c.nodes n e, v.sum);
            fits = v.fits;
            small = v.small;
            linked = λ k. omega (arith, sums-remove key k c.nodes n e, v.linked k);
          };
          capacity = refl;
          nodes = ground (
            arith,
            sums-remove key key c.nodes n e,
            charged-absent key (remove key c.nodes),
            v.linked key,
          );
          cache = refl;
        },
      )
]

-- ===== src/Memory/Lru/Overcount.antt =====
-- `put` of a key that is cached already: `d_size` keeps the bytes of the entry that it replaces.
use pystack.Prelude.{
  ℕ, ◌+◌, ◌≤◌, ◌<◌, ◌^◌, ◌≡◌, none, some, List, [], ◌∷◌, reverse, arith, length, sub64, add64_exact,
  sub64_exact, Table, erase,
}
use pystack.Memory.Lru.{LruCache, Room, put, evict, push_front}
use pystack.Memory.Lru.Nodes.{
  ListNode, total, remove, charged-absent, sums-reverse, sums-remove, find-present,
}
use pystack.Memory.Lru.Invariant.{IsValid}

module _ (capacity n extra : ℕ) (fits : n ≤ capacity) (small : capacity < 2 ^ 63) where
  -- With `extra` bytes too many on the count, and no room beside them, the loop pops every node.
  evict-undefined :
      (nodes : List ListNode) (cache : Table (List ℕ)) (size : ℕ)
      → size ≡ total nodes + extra
      → size ≤ capacity
      → capacity < extra + n
      → evict capacity n nodes cache size ≡ none
  unfolding evict
  evict-undefined [] cache size sum bound full = ground (arith, add64_exact size n)
  evict-undefined (b ∷ ns) cache size sum bound full = ground (
    arith,
    add64_exact size n,
    evict-undefined ns (erase cache b.key) (sub64 size b.size)
        (omega (arith, sub64_exact size b.size)) (omega (arith, sub64_exact size b.size)) full,
  )

evict-roomy :
    (capacity n : ℕ) (nodes : List ListNode) (cache : Table (List ℕ)) (size : ℕ)
    → size + n ≤ capacity
    → capacity < 2 ^ 63
    → evict capacity n nodes cache size ≡ some (record { kept = nodes; cache = cache; size = size })
unfolding evict
evict-roomy capacity n [] cache size room small = ground (arith, add64_exact size n)
evict-roomy capacity n (b ∷ ns) cache size room small = ground (arith, add64_exact size n)

module _ (c : LruCache) (key : ℕ) (old value : List ℕ) where
  -- Without its node, the cache counts the bytes of the old entry too many.
  unlink_count :
      IsValid c → c.cache key ≡ some old → c.size ≡ total (remove key c.nodes) + length old
  unlink_count v hit =
      let (n, e) = find-present key c.nodes (ground (arith, v.linked key)) in
      ground (
        arith,
        sums-remove key key c.nodes n e,
        charged-absent key (remove key c.nodes),
        v.linked key,
        v.sum,
      )

  -- Putting a cached key again, with a value that fits the capacity, but not beside the bytes of the
  -- entry that it replaces, runs into `back()` of the empty list, whatever else is cached.
  pub put-undefined :
      IsValid c
      → c.cache key ≡ some old
      → length value ≤ c.capacity
      → c.capacity < length old + length value
      → put c key value ≡ none
  unfolding put
  put-undefined v hit fits full = ground (
    arith,
    evict-undefined c.capacity (length value) (length old) fits v.small
        (reverse (remove key c.nodes)) (erase c.cache key) c.size
        (omega (arith, sums-reverse key (remove key c.nodes), unlink_count v hit)) v.fits full,
  )

  -- Putting a cached key again with room to spare succeeds, and leaves the size of the cache higher
  -- than the sum of its nodes by the length of the entry that was replaced.
  pub put-overcounts :
      IsValid c
      → c.cache key ≡ some old
      → c.size + length value ≤ c.capacity
      → (c' : LruCache) × (put c key value ≡ some c') × (c'.size ≡ total c'.nodes + length old)
  unfolding put
  put-overcounts v hit room =
      let rest = remove key c.nodes in
      let cache = erase c.cache key in
      let kept : Room = record { kept = reverse rest; cache = cache; size = c.size } in
      let e = evict-roomy c.capacity (length value) (reverse rest) cache c.size room v.small in
      (
        push_front (record c { nodes = rest; cache = cache }) key value kept,
        ground (arith, e),
        omega (
          arith,
          add64_exact c.size (length value),
          sums-reverse key rest,
          sums-reverse key (reverse rest),
          unlink_count v hit,
          v.small,
        ),
      )

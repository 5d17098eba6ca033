-- ===== src/Memory/Lru.antt =====
-- `LRUCache` of mem.h and mem.cpp. The nodes of `d_cache_list` stand front first. A cache value holds
-- its bytes; its iterator names the one node with the same key, so the node is looked up by the key.
mod Nodes
pub mod Invariant
pub mod Eviction
pub mod Overcount
mod Tests
use pystack.Prelude.{
  ℕ, Bool, true, false, Option, none, some, List, [], ◌∷◌, reverse, length, ltb, leb, if◌then◌else◌,
  add64, sub64, Table, update, erase,
}
use mathlib.Core.Option
use Nodes.{ListNode, find, remove}

pub record LruCache : Type 0 where
  pub nodes : List ListNode
  pub cache : Table (List ℕ)
  pub capacity : ℕ
  pub size : ℕ

unfoldable pub init : ℕ → LruCache
init capacity = record { nodes = []; cache = λ _. none; capacity = capacity; size = 0 }

unfoldable pub can_fit : LruCache → ℕ → Bool
can_fit c n = leb n c.capacity

unfoldable pub exists : LruCache → ℕ → Bool
exists c key = elim (c.cache key) [ none ↦ false | some _ ↦ true ]

-- The first half of `put`: an old entry of the key leaves both structures.
unlink : LruCache → ℕ → LruCache
unfolding exists
unlink c key =
    if exists c key then record c { nodes = remove key c.nodes; cache = erase c.cache key } else c

pub record Room : Type 0 where
  pub kept : List ListNode
  pub cache : Table (List ℕ)
  pub size : ℕ

-- The `while` loop of `put`, over the nodes back first. `none` is `back()` of an empty list, which
-- C++ does not define.
pub evict : ℕ → ℕ → List ListNode → Table (List ℕ) → ℕ → Option Room
evict capacity n [] cache size =
    if ltb capacity (add64 size n)
    then none
    else some (record { kept = []; cache = cache; size = size })
evict capacity n (back ∷ rest) cache size =
    let popped = evict capacity n rest (erase cache back.key) (sub64 size back.size) in
    if ltb capacity (add64 size n)
    then popped
    else some (record { kept = back ∷ rest; cache = cache; size = size })

push_front : LruCache → ℕ → List ℕ → Room → LruCache
push_front c key value room = record c {
  nodes = record { key = key; size = length value } ∷ reverse room.kept;
  cache = update room.cache key value;
  size = add64 room.size (length value);
}

insert : LruCache → ℕ → List ℕ → Option LruCache
unfolding push_front
insert c key value =
    Option.map (push_front c key value)
      (evict c.capacity (length value) (reverse c.nodes) c.cache c.size)

pub put : LruCache → ℕ → List ℕ → Option LruCache
unfolding unlink insert can_fit
put c key value = if can_fit c (length value) then insert (unlink c key) key value else some c

to_front : ℕ → List ListNode → List ListNode
to_front key nodes = elim (find key nodes) [ none ↦ nodes | some n ↦ n ∷ remove key nodes ]

-- `none` is the `range_error` of a key that is not there.
pub get : LruCache → ℕ → Option (LruCache × List ℕ)
unfolding to_front
get c key = elim (c.cache key) [
  | none ↦ none
  | some bytes ↦ some (record c { nodes = to_front key c.nodes }, bytes)
]

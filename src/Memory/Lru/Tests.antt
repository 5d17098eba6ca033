-- ===== src/Memory/Lru/Tests.antt =====
-- `LRUCache` on a concrete cache: key 2 in front of key 1.
use pystack.Prelude.{ℕ, ◌≡◌, refl, none, some, List, [], ◌∷◌, arith, update, add64, sub64}
use mathlib.Core.Option
use pystack.Memory.Lru.{LruCache, init, evict, put}
use pystack.Memory.Lru.Invariant.{IsValid}
use pystack.Memory.Lru.Eviction.{Inserts, Gets, put-Inserts, get-Gets}

abbrev two : LruCache
two = record {
  nodes = record { key = 2; size = 3 } ∷ record { key = 1; size = 4 } ∷ [];
  cache = update (update (λ _. none) 1 (1 ∷ 1 ∷ 1 ∷ 1 ∷ [])) 2 (2 ∷ 2 ∷ 2 ∷ []);
  capacity = 10;
  size = 7;
}

two-IsValid : IsValid two
two-IsValid = record {
  sum = refl;
  fits = omega arith;
  small = omega arith;
  linked = λ k. ground arith;
}

abbrev five : List ℕ
five = 9 ∷ 9 ∷ 9 ∷ 9 ∷ 9 ∷ []

-- Key 1 is evicted, and key 2 stays.
put_evicts :
    Option.map (λ (c : LruCache). c.nodes) (put two 3 five)
    ≡ some (record { key = 3; size = 5 } ∷ record { key = 2; size = 3 } ∷ [])
unfolding put evict add64 sub64
put_evicts = refl

put_from_empty : Option.map (λ (c : LruCache). c.size) (put (init 10) 3 five) ≡ some 5
unfolding put init evict add64
put_from_empty = refl

put-Inserts_example : (c : LruCache) × (put two 3 five ≡ some c) × Inserts two 3 five c
unfolding put
put-Inserts_example = put-Inserts two 3 five two-IsValid refl (omega arith)

get-Gets_example : Gets two 1
get-Gets_example = get-Gets two 1 two-IsValid

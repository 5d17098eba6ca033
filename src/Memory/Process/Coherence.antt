-- ===== src/Memory/Process/Coherence.antt =====
-- What a cache of memory holds, and that hits and new entries keep it so.
use pystack.Prelude.{
  Member, ℕ, ◌+◌, ◌-◌, ◌≤◌, ◌<◌, ◌≡◌, true, false, some, List, [], ◌∷◌, ◌⊎◌, ◌∙◌, ap, arith, length,
  take, drop, add64, sub64, add64_exact, sub64_exact, word, inl, inr, Option-cases,
}
use pystack.Memory.Exec.{Result, ok}
use pystack.Memory.Lru.{LruCache, can_fit, exists}
use pystack.Memory.Lru.Invariant.{IsValid}
use pystack.Memory.Lru.Eviction.{Gets, put-Inserts, get-Gets}
use pystack.Memory.Maps.{Bytes, VirtualMap, contains_addr, map_size}
use pystack.Memory.Process.{Manager, cache_capacity, find_map, copy_out, serve, store}
use pystack.Memory.Process.Window.{window, slice-window}
use pystack.Memory.Process.Reads.{Reads, ReadsDirectly}

-- The maps of a process: no map ends before it starts or at the top of the address space, and two
-- that start at one address are as long.
pub record IsLayout (vmaps : List VirtualMap) : Type 0 where
  pub ordered : (v : VirtualMap) → Member v vmaps → (v.start ≤ v.end) × (v.end < word)
  pub one_size :
      (v w : VirtualMap) → Member v vmaps → Member w vmaps → v.start ≡ w.start → v.end ≡ w.end

-- What the cache holds are the bytes of whole maps.
pub record IsCoherent (mem : ℕ → ℕ) (vmaps : List VirtualMap) (m : Manager) : Type 0 where
  pub maps : m.vmaps ≡ vmaps
  pub valid : IsValid m.lru
  pub capacity : m.lru.capacity ≡ cache_capacity
  pub bytes : (key : ℕ) (b : Bytes) → m.lru.cache key ≡ some b → b ≡ window mem key (length b)
  pub whole :
      (v : VirtualMap) (b : Bytes)
      → Member v vmaps
      → m.lru.cache v.start ≡ some b
      → length b ≡ v.end - v.start

pub exists-cases :
    (c : LruCache) (key : ℕ)
    → (exists c key ≡ false) ⊎ ((b : Bytes) × (exists c key ≡ true) × (c.cache key ≡ some b))
unfolding exists
exists-cases c key = elim (Option-cases (c.cache key)) [
  | inl miss ↦ inl (rw (miss, exists))
  | inr (b, hit) ↦ inr (b, rw (hit, exists), hit)
]

pub map_size_exact :
    (v : VirtualMap) → (v.start ≤ v.end) × (v.end < word) → map_size v ≡ v.end - v.start
unfolding map_size
map_size_exact v h = sub64_exact v.end v.start h.0 h.1

pub find_map-Member :
    (addr len : ℕ) (vs : List VirtualMap) (v : VirtualMap)
    → find_map addr len vs ≡ some v
    → Member v vs
      × (contains_addr v addr ≡ true)
      × (contains_addr v (sub64 (add64 addr len) 1) ≡ true)
unfolding find_map
find_map-Member addr len [] v h = cc
find_map-Member addr len (w ∷ vs) v h = ground (arith, find_map-Member addr len vs v)

pub contains_addr-bounds :
    (v : VirtualMap) (a n : ℕ)
    → contains_addr v a ≡ true
    → contains_addr v (sub64 (add64 a n) 1) ≡ true
    → a + n < word
    → (v.start ≤ a) × (a + n ≤ v.end)
unfolding contains_addr
contains_addr-bounds v a n first last top = ground (arith, add64_exact a n, sub64_exact (a + n) 1)

pub le-can_fit : (c : LruCache) (n : ℕ) → n ≤ c.capacity → can_fit c n ≡ true
unfolding can_fit
le-can_fit c n h = ground arith

pub can_fit-le : (c : LruCache) (n : ℕ) → can_fit c n ≡ true → n ≤ c.capacity
unfolding can_fit
can_fit-le c n h = ground arith

-- A read: the bytes of the memory or an exception of the program, and a cache that is coherent again.
pub record ReadsCoherently (mem : ℕ → ℕ) (vmaps : List VirtualMap) (a n : ℕ)
    (p : Result Bytes × Manager) : Type 0 where
  pub result : Reads mem a n p.0
  pub coherent : IsCoherent mem vmaps p.1

pub direct :
    (mem : ℕ → ℕ) (vmaps : List VirtualMap) (a n : ℕ) (m : Manager) (p : Result Bytes × Manager)
    → IsCoherent mem vmaps m
    → ReadsDirectly mem a n m p
    → ReadsCoherently mem vmaps a n p
direct mem vmaps a n m p c d = record {
  result = d.result;
  coherent = record {
    maps = d.vmaps ∙ c.maps;
    valid = rw d.lru c.valid;
    capacity = rw d.lru c.capacity;
    bytes = rw d.lru c.bytes;
    whole = rw d.lru c.whole;
  };
}

-- The bytes from the cache, with another order of its nodes.
abbrev pub Hit : (ℕ → ℕ) → List VirtualMap → ℕ → ℕ → Manager → Result Bytes × Manager → Type 0
Hit mem vmaps a n m p =
    (lru : LruCache) × (p ≡ (ok (window mem a n), record m { lru = lru }))
    × IsCoherent mem vmaps (record m { lru = lru })

copy_out-window :
    (mem : ℕ → ℕ) (key offset n : ℕ) (b : Bytes)
    → b ≡ window mem key (length b)
    → offset + n ≤ length b
    → copy_out offset n b ≡ ok (window mem (key + offset) n)
unfolding copy_out
copy_out-window mem key offset n b e fits = ground (
  arith,
  slice-window mem offset n (length b) key fits,
  ap (λ (l : Bytes). take n (drop offset l)) e,
)

module _ (mem : ℕ → ℕ) (vmaps : List VirtualMap) (layout : IsLayout vmaps) where
  -- A hit.
  pub serve-Hit :
      (v : VirtualMap) (a n : ℕ) (m : Manager) (b : Bytes)
      → IsCoherent mem vmaps m
      → Member v vmaps
      → v.start ≤ a
      → a + n ≤ v.end
      → m.lru.cache v.start ≡ some b
      → Hit mem vmaps a n m (serve v.start (sub64 a v.start) n m)
  unfolding serve exists
  serve-Hit v a n m b c member low high hit = go (get-Gets m.lru v.start c.valid)
    where
      offset : sub64 a v.start ≡ a - v.start
      offset = sub64_exact a v.start low (omega (arith, layout.ordered v member))

      copied : copy_out (sub64 a v.start) n b ≡ ok (window mem a n)
      copied =
          let e : v.start + (a - v.start) ≡ a = omega arith in
          rw offset (
            copy_out-window mem v.start (a - v.start) n b (c.bytes v.start b hit)
              (omega (arith, c.whole v b member hit))
            ∙ ap (λ at. ok (window mem at n)) e)

      go : Gets m.lru v.start → Hit mem vmaps a n m (serve v.start (sub64 a v.start) n m)
      go (inl (absent, _)) = absurd (ground arith)
      go (inr (value, lru, hit', got, fronts)) =
          let same : value ≡ b = ground arith in
          (
            lru,
            rw (got, serve, same, copied),
            record {
              maps = c.maps;
              valid = fronts.valid;
              capacity = fronts.capacity ∙ c.capacity;
              bytes = rw fronts.cache c.bytes;
              whole = rw fronts.cache c.whole;
            },
          )

  -- The whole map goes into the cache.
  pub store-Coherent :
      (v : VirtualMap) (m : Manager) (b : Bytes)
      → IsCoherent mem vmaps m
      → Member v vmaps
      → exists m.lru v.start ≡ false
      → length b ≤ m.lru.capacity
      → length b ≡ v.end - v.start
      → b ≡ window mem v.start (length b)
      → (lru : LruCache) × (store v.start b m ≡ (ok tt, record m { lru = lru }))
        × (lru.cache v.start ≡ some b)
        × IsCoherent mem vmaps (record m { lru = lru })
  unfolding store
  store-Coherent v m b c member absent fits size bytes =
      let (lru, e, ins) = put-Inserts m.lru v.start b c.valid absent fits in
      (
        lru,
        rw (e, store),
        ground (arith, ins.entries v.start),
        record {
          maps = c.maps;
          valid = ins.valid;
          capacity = ins.capacity ∙ c.capacity;
          bytes = λ key b' h. ground (arith, ins.entries key, c.bytes key b');
          whole = λ w b' in_maps h. ground (
            arith,
            ins.entries w.start,
            c.whole w b' in_maps,
            layout.one_size v w member in_maps,
          );
        },
      )

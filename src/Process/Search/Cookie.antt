-- ===== src/Process/Search/Cookie.antt =====
-- What the search for `_Py_DebugOffsets` finds.
use pystack.Prelude.{
  ℕ, ◌+◌, ◌*◌, ◌/◌, ◌<◌, ◌≡◌, ◌≢◌, refl, sym, ap, ◌∙◌, arith, Bool, true, false, not, ◌&&◌, List,
  [], ◌∷◌, ◌++◌, length, ◌==◌, inl, inr, Bool-cases, add64, add64_exact, word, Member, ==_iff,
}
use pystack.Memory.Maps.{Bytes, VirtualMap, map_size, has_byte}
use pystack.Process.{
  Process, Run, done, stop, copy_failed, runtime_error, abort, open_behaviour, out_of_fuel,
  invalid_remote_object, read, catch_remote,
}
use pystack.Memory.Exec.{invalid_remote_address}
use pystack.Process.Interpreter.{cookie, find_cookie, words_of, is_debug_offsets}
use pystack.Process.Search.{
  is_empty, scan_memory_area_for_debug_offsets, scan_writable, find_debug_offsets_from_maps,
}
use pystack.Process.Runs.{length-words_of, bind-done}
use pystack.Process.Search.PointsBack.{done_same, or_else-done, last_word-done}

-- The word at an address of the area, followed by a version of 3.13 or later.
pub record HasCookie (start : ℕ) (words : List ℕ) (addr : ℕ) : Type 0 where
  pub before : List ℕ
  pub version : ℕ
  pub after : List ℕ
  pub parts : words ≡ before ++ (cookie ∷ (version ∷ after))
  pub recent : is_debug_offsets version ≡ true
  pub place : addr ≡ start + 8 * length before

both : (a b : Bool) → (a && b) ≡ true → (a ≡ true) × (b ≡ true)
both true b h = (refl, h)
both false b h = absurd (cc)

module _ (size : ℕ) where
  HasCookie-cons :
      (start : ℕ) (w : ℕ) (words : List ℕ) (addr : ℕ)
      → start + 8 < word
      → HasCookie (add64 start 8) words addr
      → HasCookie start (w ∷ words) addr
  HasCookie-cons start w words addr small c = record {
    before = w ∷ c.before;
    version = c.version;
    after = c.after;
    parts = ap (◌∷◌ w) c.parts;
    recent = c.recent;
    place = let e = add64_exact start 8 small in let p = c.place in omega (arith, e, p);
  }

  find_cookie-HasCookie :
      (words : List ℕ) (start addr : ℕ)
      → start + 8 * length words < word
      → addr ≢ 0
      → find_cookie size start words ≡ done addr
      → HasCookie start words addr
  unfolding find_cookie
  find_cookie-HasCookie [] start addr small ne h = absurd (ne (sym (last_word-done size 0 addr h)))
  find_cookie-HasCookie (w ∷ []) start addr small ne h = elim (Bool-cases (w == cookie)) [
    | inl e ↦ absurd (let k : stop open_behaviour ≡ done addr = rw e at h in cc)
    | inr e ↦ absurd (ne (sym (last_word-done size 0 addr (rw e at h))))
  ]
  find_cookie-HasCookie (w ∷ (version ∷ words)) start addr small ne h =
      elim (Bool-cases (w == cookie && is_debug_offsets version)) [
        | inl e ↦
            let (same, recent) = both (w == cookie) (is_debug_offsets version) e in
            let k : done start ≡ done addr = rw e at h in
            record {
              before = [];
              version = version;
              after = words;
              parts = ap (λ (v : ℕ). v ∷ (version ∷ words)) ((==_iff w cookie).0 same);
              recent = recent;
              place = sym (done_same k) ∙ omega arith;
            }
        | inr e ↦
            let k : find_cookie size (add64 start 8) (version ∷ words) ≡ done addr = rw e at h in
            let exact = add64_exact start 8 (omega arith) in
            HasCookie-cons start w (version ∷ words) addr (omega arith) (
              find_cookie-HasCookie (version ∷ words) (add64 start 8) addr (omega (arith, exact)) ne
                k)
      ]

-- The end of the area and the words before it are below 2 ^ 64.
abbrev pub Fits : VirtualMap → Type 0
Fits map = map.start + 8 * (map_size map / 8) < word

-- A writable map of a file that can be read, and has the cookie at the address.
pub record Located (p : Process) (maps : List VirtualMap) (addr : ℕ) : Type 0 where
  pub map : VirtualMap
  pub listed : Member map maps
  pub writable : has_byte b'w' map.flags ≡ true
  pub named : is_empty map.path ≡ false
  pub buffer : Bytes
  pub readable : read p map.start (map_size map) ≡ done buffer
  pub has_cookie : HasCookie map.start (words_of (map_size map / 8) buffer) addr

catch_remote-done :
    (r : Run ℕ) (addr : ℕ) → addr ≢ 0 → catch_remote r (done 0) ≡ done addr → r ≡ done addr
unfolding catch_remote
catch_remote-done (done a) addr ne h = h
catch_remote-done (stop (copy_failed invalid_remote_address)) addr ne h =
    absurd (ne (sym (done_same h)))
catch_remote-done (stop (copy_failed e)) addr ne h = h
catch_remote-done (stop invalid_remote_object) addr ne h = absurd (ne (sym (done_same h)))
catch_remote-done (stop runtime_error) addr ne h = absurd (cc)
catch_remote-done (stop abort) addr ne h = absurd (cc)
catch_remote-done (stop open_behaviour) addr ne h = absurd (cc)
catch_remote-done (stop out_of_fuel) addr ne h = absurd (cc)

module _ (p : Process) where
  Located-cons :
      (map : VirtualMap) (maps : List VirtualMap) (addr : ℕ)
      → Located p maps addr
      → Located p (map ∷ maps) addr
  Located-cons map maps addr l = record {
    map = l.map;
    listed = inr l.listed;
    writable = l.writable;
    named = l.named;
    buffer = l.buffer;
    readable = l.readable;
    has_cookie = l.has_cookie;
  }

  area-Located :
      (map : VirtualMap) (maps : List VirtualMap) (addr : ℕ)
      → Fits map
      → addr ≢ 0
      → (has_byte b'w' map.flags && not (is_empty map.path)) ≡ true
      → scan_memory_area_for_debug_offsets p map ≡ done addr
      → Located p (map ∷ maps) addr
  unfolding scan_memory_area_for_debug_offsets
  area-Located map maps addr fits ne e h =
      let (buffer, readable, h) = bind-done (read p map.start (map_size map)) _ addr h in
      let (writable, named) = both (has_byte b'w' map.flags) (not (is_empty map.path)) e in
      let n = length-words_of (map_size map / 8) buffer in
      record {
        map = map;
        listed = inl refl;
        writable = writable;
        named = unnot (is_empty map.path) named;
        buffer = buffer;
        readable = readable;
        has_cookie =
            find_cookie-HasCookie (map_size map) (words_of (map_size map / 8) buffer) map.start addr
              (rw n fits) ne h;
      }
    where
      unnot : (b : Bool) → not b ≡ true → b ≡ false
      unnot false h = refl
      unnot true h = absurd (cc)

  scan_writable-Located :
      (maps : List VirtualMap) (addr : ℕ)
      → ((map : VirtualMap) → Member map maps → Fits map)
      → addr ≢ 0
      → scan_writable p maps ≡ done addr
      → Located p maps addr
  unfolding scan_writable
  scan_writable-Located [] addr fits ne h = absurd (ne (sym (done_same h)))
  scan_writable-Located (map ∷ maps) addr fits ne h =
      let later = λ (k : scan_writable p maps ≡ done addr).
        Located-cons map maps addr (scan_writable-Located maps addr (λ m k. fits m (inr k)) ne k) in
      elim (Bool-cases (has_byte b'w' map.flags && not (is_empty map.path))) [
        | inr e ↦ later (rw e at h)
        | inl e ↦
            elim (or_else-done (catch_remote (scan_memory_area_for_debug_offsets p map) (done 0)) _
              addr (rw e at h)) [
                | inr k ↦ later k
                | inl (k, _) ↦
                    area-Located map maps addr (fits map (inl refl)) ne e
                      (catch_remote-done (scan_memory_area_for_debug_offsets p map) addr ne k)
              ]
      ]

-- Where the maps lie below 2 ^ 64, an address that the search for the debug offsets returns, if it is not
-- 0, lies a whole number of words behind the start of a writable map of a file; in what is read of the map
-- the cookie stands there, and behind it a version of 3.13 or a later 3.x.
pub find_debug_offsets_from_maps-Located :
    (p : Process) (addr : ℕ)
    → ((map : VirtualMap) → Member map p.memory_maps → Fits map)
    → addr ≢ 0
    → find_debug_offsets_from_maps p ≡ done addr
    → Located p p.memory_maps addr
unfolding find_debug_offsets_from_maps
find_debug_offsets_from_maps-Located p = scan_writable-Located p p.memory_maps

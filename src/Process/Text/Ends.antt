-- ===== src/Process/Text/Ends.antt =====
-- The readers of values, of pytypes.cpp, come to an end.
use pystack.Prelude.{
  ℕ, zero, suc, ◌+◌, ◌<◌, ◌≤◌, ◌≡◌, arith, Bool, true, false, [], ltb, Bool-cases, inl, inr, add64,
  add64_exact, word,
}
use pystack.Memory.Exec.{throw, invalid_remote_address}
use pystack.Process.{Process, read}
use pystack.Process.Ends.{
  HasEnded, given, stopped, ends, bind-HasEnded, if-HasEnded, read-HasEnded, read_field-HasEnded,
  get_string-HasEnded, get_bytes-HasEnded, read_words-HasEnded, tuple_items-HasEnded,
}
use pystack.Process.Strings.{get_c_string_from_address}
use pystack.Process.ObjectType.{ObjectType, Object}
use pystack.Process.CodeObject.{list_items}
use pystack.Process.LongObject.{Sum, value, overflowed, shift_too_far, of_sum, make_long}
use pystack.Process.DictObject.{
  key_table_size, read_entries, read_kind, get_dict_entries, load_from_python3, load_from_python2,
  make_dict,
}
use pystack.Process.Printing.{to_integer, to_bool, concrete_value}

-- From an address on, nothing can be read.
pub record MemoryEnds (p : Process) (limit : ℕ) : Type 0 where
  pub small : limit < word
  pub unreadable : (addr : ℕ) → limit ≤ addr → p.copy addr 1 ≡ throw invalid_remote_address

module _ (p : Process) where
  unreadable-HasEnded :
      (fuel addr : ℕ)
      → p.copy addr 1 ≡ throw invalid_remote_address
      → HasEnded (get_c_string_from_address (suc fuel) p addr)
  unfolding get_c_string_from_address read
  unreadable-HasEnded fuel addr e = rw (e, get_c_string_from_address) (stopped _ tt)

  pub c_string-HasEnded :
      (limit : ℕ)
      → MemoryEnds p limit
      → (fuel addr : ℕ) → limit ≤ addr + fuel
      → HasEnded (get_c_string_from_address (suc fuel) p addr)
  unfolding get_c_string_from_address
  c_string-HasEnded limit m zero addr h =
      unreadable-HasEnded zero addr (m.unreadable addr (omega arith))
  c_string-HasEnded limit m (suc fuel) addr h = elim (Bool-cases (ltb addr limit)) [
    | inr e ↦ unreadable-HasEnded (suc fuel) addr (m.unreadable addr (ground (arith, e)))
    | inl e ↦
        let below : addr < limit = ground (arith, e) in
        let next : add64 addr 1 ≡ addr + 1 = add64_exact addr 1 (m_small m below) in
        bind-HasEnded (read p addr 1) _ (read-HasEnded p addr 1) (λ byte.
          if-HasEnded _ _ _ (given []) (
            bind-HasEnded (get_c_string_from_address (suc fuel) p (add64 addr 1)) _
              (c_string-HasEnded limit m fuel (add64 addr 1) (omega (arith, next)))
              (λ rest. given _)))
  ]
    where
      m_small : MemoryEnds p limit → addr < limit → addr + 1 < word
      m_small e k = let s = e.small in omega (arith, s)

  of_sum-HasEnded : (negative : Bool) (s : Sum) → HasEnded (of_sum negative s)
  unfolding of_sum
  of_sum-HasEnded negative (value n) = given _
  of_sum-HasEnded negative (overflowed n) = given _
  of_sum-HasEnded negative shift_too_far = stopped _ tt

  make_long-HasEnded : (addr : ℕ) → HasEnded (make_long p addr)
  unfolding make_long
  make_long-HasEnded addr =
      search (ends, read-HasEnded, read_field-HasEnded, of_sum-HasEnded) depth 12

  list_items-HasEnded : (addr : ℕ) → HasEnded (list_items p addr)
  unfolding list_items
  list_items-HasEnded addr = search (ends, read_field-HasEnded, read_words-HasEnded) depth 12

  table_size-HasEnded : (new : Bool) (n : ℕ) → HasEnded (key_table_size new n)
  unfolding key_table_size
  table_size-HasEnded true n = search ends
  table_size-HasEnded false n = given n

  read_entries-HasEnded : (width addr n : ℕ) → HasEnded (read_entries p width addr n)
  unfolding read_entries
  read_entries-HasEnded width addr n = search (ends, read-HasEnded)

  read_kind-HasEnded : (addr : ℕ) → HasEnded (read_kind p addr)
  unfolding read_kind
  read_kind-HasEnded addr = search (ends, read_field-HasEnded)

  dict_entries-HasEnded : (addr : ℕ) → HasEnded (get_dict_entries p addr)
  unfolding get_dict_entries
  dict_entries-HasEnded addr =
      search
        (ends, read_field-HasEnded, table_size-HasEnded, read_kind-HasEnded, read_entries-HasEnded)
        depth 16

  python3-HasEnded : (addr : ℕ) → HasEnded (load_from_python3 p addr)
  unfolding load_from_python3
  python3-HasEnded addr =
      search (ends, dict_entries-HasEnded, read_field-HasEnded, read_words-HasEnded) depth 12

  python2-HasEnded : (addr : ℕ) → HasEnded (load_from_python2 p addr)
  unfolding load_from_python2
  python2-HasEnded addr = search (ends, read-HasEnded, read_entries-HasEnded) depth 12

  make_dict-HasEnded : (addr : ℕ) → HasEnded (make_dict p addr)
  unfolding make_dict
  make_dict-HasEnded addr = search (ends, python3-HasEnded, python2-HasEnded) depth 12

  to_integer-HasEnded : (addr : ℕ) → HasEnded (to_integer p addr)
  unfolding to_integer
  to_integer-HasEnded addr = search (ends, read-HasEnded)

  to_bool-HasEnded : (addr : ℕ) → HasEnded (to_bool p addr)
  unfolding to_bool
  to_bool-HasEnded addr = search (ends, to_integer-HasEnded)

  ruleset readers = (
    ends, read_field-HasEnded, get_string-HasEnded, get_bytes-HasEnded, tuple_items-HasEnded,
    make_long-HasEnded, list_items-HasEnded, make_dict-HasEnded, to_integer-HasEnded,
    to_bool-HasEnded,
  )

  pub concrete-HasEnded : (t : ObjectType) (o : Object) → HasEnded (concrete_value p t o)
  unfolding concrete_value
  concrete-HasEnded ObjectType.string o = search readers
  concrete-HasEnded ObjectType.bytes o = search readers
  concrete-HasEnded ObjectType.none_type o = given _
  concrete-HasEnded ObjectType.int o = search readers
  concrete-HasEnded ObjectType.int_bool o = search readers
  concrete-HasEnded ObjectType.long o = search readers
  concrete-HasEnded ObjectType.long_bool o = search readers
  concrete-HasEnded ObjectType.float o = search readers
  concrete-HasEnded ObjectType.tuple o = search readers
  concrete-HasEnded ObjectType.list o = search readers
  concrete-HasEnded ObjectType.dict o = search readers
  concrete-HasEnded ObjectType.code o = given _
  concrete-HasEnded ObjectType.other o = given _

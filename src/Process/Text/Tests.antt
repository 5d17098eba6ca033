-- ===== src/Process/Text/Tests.antt =====
-- The theorems about printing, on a list that holds itself.
use pystack.Prelude.{ℕ, ◌^◌, ◌≤◌, ◌≡◌, refl, arith, [], ◌∷◌, length, ◌⊎◌, sub64}
use pystack.Memory.Exec.{throw, invalid_remote_address}
use pystack.Memory.Maps.{Bytes}
use pystack.Version.{little_endian}
use pystack.Process.{done}
use pystack.Process.Sample.{nested}
use pystack.Process.Ends.{HasEnded}
use pystack.Process.ObjectType.{Object, make_object}
use pystack.Process.Printing.{list, to_concrete_object}
use pystack.Process.Text.{to_string, object_text}
use pystack.Process.Text.Fits.{is_limited, to_string-fits}
use pystack.Process.Text.Ends.{MemoryEnds}
use pystack.Process.Text.Nesting.{to_string-HasEnded}

abbrev print_double : ℕ → Bytes
print_double bits = []

abbrev itself : Object
itself = record { addr = 4096; type_addr = 4136; classname = []; flags = 2 ^ 25 }

-- "[...]"
abbrev printed : Bytes
printed = b'[' ∷ b'.' ∷ b'.' ∷ b'.' ∷ b']' ∷ []

is_itself : make_object 1 nested 4096 ≡ done itself
unfolding make_object sub64 little_endian
is_itself = refl

holds_itself : to_concrete_object nested itself ≡ done (list (4096 ∷ []))
unfolding to_concrete_object sub64 little_endian
holds_itself = refl

prints : to_string print_double 1 nested 9 8 4096 ≡ done printed
unfolding to_string sub64 little_endian
prints = refl

to_string-fits_example : (length printed ≤ 8) ⊎ (printed ≡ object_text itself)
unfolding is_limited
to_string-fits_example =
    to_string-fits print_double 1 nested 8 8 4096 itself (list (4096 ∷ [])) printed (omega arith)
      is_itself holds_itself refl prints

nested-MemoryEnds : MemoryEnds nested 4216
nested-MemoryEnds = record { small = omega arith; unreadable = beyond }
  where
    beyond : (addr : ℕ) → 4216 ≤ addr → nested.copy addr 1 ≡ throw invalid_remote_address
    beyond addr h = ground arith

to_string-HasEnded_example : HasEnded (to_string print_double 4217 nested 81 80 4096)
to_string-HasEnded_example =
    to_string-HasEnded print_double nested 4216 nested-MemoryEnds 81 80 4096 (omega arith)

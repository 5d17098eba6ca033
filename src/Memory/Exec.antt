-- ===== src/Memory/Exec.antt =====
-- Methods that change their object and may throw. What was changed before a throw stays changed, so
-- the object comes back beside the exception too.

-- The last three are no exceptions of the program: `range_error` is the cache's own, `undefined` is
-- behaviour that C++ leaves open, and `out_of_fuel` stands for a loop that goes on.
pub data Failure : Type 0 where
  invalid_remote_address permission_denied system_error open_failed : Failure
  range_error undefined out_of_fuel : Failure

pub data Result (A : Type 0) : Type 0 where
  ok : A → Result A
  throw : Failure → Result A

abbrev pub Exec : Type 0 → Type 0 → Type 0
Exec S A = S → Result A × S

abbrev pub after : {S A B : Type 0} → Result A → (A → Exec S B) → Exec S B
after (ok a) f s = f a s
after (throw e) f s = (throw e, s)

infixl 5 ◌>>=◌
abbrev pub ◌>>=◌ : {S A B : Type 0} → Exec S A → (A → Exec S B) → Exec S B
◌>>=◌ m f s = let (r, s') = m s in after r f s'

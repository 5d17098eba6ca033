-- ===== src/Process/Runs.antt =====
-- How a run that gives a result comes to it, and how many words it reads.
use pystack.Prelude.{ℕ, length, zero, suc, ◌≡◌, refl, ap, inl, inr, ◌⊎◌}
use pystack.Memory.Exec.{invalid_remote_address}
use pystack.Memory.Maps.{Bytes}
use pystack.Process.Interpreter.{words_of}
use pystack.Process.{Run, done, stop, copy_failed, invalid_remote_object, ◌>>=◌, catch_remote}

pub bind-done :
    {A B : Type 0} (r : Run A) (f : A → Run B) (b : B)
    → (r >>= f) ≡ done b
    → (a : A) × (r ≡ done a) × (f a ≡ done b)
bind-done (done a) f b h = (a, refl, h)
bind-done (stop e) f b h = absurd (cc)

pub catch_remote-cases :
    {A : Type 0} (r h : Run A) (a : A) → catch_remote r h ≡ done a → (r ≡ done a) ⊎ (h ≡ done a)
unfolding catch_remote
catch_remote-cases (done b) h a e = inl e
catch_remote-cases (stop (copy_failed invalid_remote_address)) h a e = inr e
catch_remote-cases (stop invalid_remote_object) h a e = inr e
catch_remote-cases (stop s) h a e = inl e

unwrap : {A : Type 0} → A → Run A → A
unwrap d (done a) = a
unwrap d (stop e) = d

pub same_done : {A : Type 0} {a b : A} → done a ≡ done b → a ≡ b
unfolding unwrap
same_done {A} {a} {b} h = ap (unwrap a) h

pub length-words_of : (n : ℕ) (buffer : Bytes) → length (words_of n buffer) ≡ n
unfolding words_of
length-words_of zero buffer = refl
length-words_of (suc n) buffer = ap suc (length-words_of n _)

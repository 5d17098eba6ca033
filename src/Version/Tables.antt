-- ===== src/Version/Tables.antt =====
-- `getCPythonOffsets` of version.cpp: which table of offsets a version has. The tables themselves are
-- computed from the headers of CPython. The warning about an unsupported version is output. The numbers are
-- not negative here.
use pystack.Prelude.{ℕ, Option, none, some, ◌==◌, if◌then◌else◌, ltb, ◌||◌, Bool, false}

pub data Table : Type 0 where
  python_v2 python_v3_3 python_v3_4 python_v3_6 python_v3_7 python_v3_8 python_v3_9 : Table
  python_v3_10 python_v3_11 python_v3_12 python_v3_13 python_v3_14 python_v3_15 : Table

-- The inner switch; its default falls through to the latest.
unfoldable pub python_3_table : ℕ → Table
python_3_table minor =
    if ltb minor 4
    then python_v3_3
    else if minor == 4 || minor == 5
    then python_v3_4
    else if minor == 6
    then python_v3_6
    else if minor == 7
    then python_v3_7
    else if minor == 8
    then python_v3_8
    else if minor == 9
    then python_v3_9
    else if minor == 10
    then python_v3_10
    else if minor == 11
    then python_v3_11
    else if minor == 12
    then python_v3_12
    else if minor == 13
    then python_v3_13
    else if minor == 14
    then python_v3_14
    else python_v3_15

-- `none` is the exception.
unfoldable pub get_cpython_offsets : ℕ → ℕ → Option Table
unfolding python_3_table
get_cpython_offsets major minor =
    if major == 2 then some python_v2 else if major == 3 then some (python_3_table minor) else none

-- Whether `warnAboutUnsuportedVersion` is called.
unfoldable pub is_unsupported : ℕ → ℕ → Bool
is_unsupported major minor =
    if major == 2
    then ltb minor 7 || ltb 7 minor
    else if major == 3
    then ltb minor 3 || ltb 15 minor
    else false

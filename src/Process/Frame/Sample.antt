-- ===== src/Process/Frame/Sample.antt =====
-- The frames of a small process, as test data.
use pystack.Prelude.{true, false, some, none, List, [], ◌∷◌}
use pystack.Code.LineNumbers.{unfilled}
use pystack.Process.CodeObject.{CodeObject}
use pystack.Process.Frame.{Frame}

-- The code at 4176.
abbrev code : CodeObject
code = record {
  filename = b'a' ∷ [];
  scope = b'a' ∷ [];
  location_info = unfilled;
  narguments = 7;
  varnames = [];
}

abbrev pub frames : List Frame
frames =
    (record { addr = 4096; frame_no = 0; is_shim = false; code = some code; is_entry = true })
    ∷ (record { addr = 4136; frame_no = 1; is_shim = true; code = none; is_entry = false })
    ∷ []

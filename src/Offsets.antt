-- ===== src/Offsets.antt =====
-- The offsets of CPython's structures: version.h, structure.h and the part of process.cpp that takes
-- them from the `_Py_DebugOffsets` of the other process.
pub mod Layout
pub mod Copy
pub mod Checks
pub mod Load
pub mod Structure
pub mod Bounds
pub mod Unchecked
pub mod Sample
mod Tests

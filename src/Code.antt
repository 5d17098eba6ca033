-- ===== src/Code.antt =====
-- Code objects: pycode.h and pycode.cpp.
pub mod Scan
pub mod LineTable
pub mod Varint
pub mod LineNumbers

-- ===== src/Memory.antt =====
-- The part of the program that reads the memory of the other process: mem.h and mem.cpp.
pub mod Exec
pub mod Lru
pub mod Maps
pub mod Process
pub mod Core

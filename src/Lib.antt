-- ===== src/Lib.antt =====
-- pystack prints the Python frames of another process, or of a core file. It reads the memory of that
-- process, finds the interpreter with the help of tables of structure offsets, and walks its threads,
-- frames, code objects and values. This library models the C++ extension under
-- src/pystack/_pystack/ and proves properties of the model.
--
-- How the parts fit together: every structure of the other process is read by `Structure::getField`,
-- whose offsets come from the tables of version.cpp or from the process itself (Python 3.13 and later),
-- and whose bytes come from `copyMemoryFromProcess`, which caches whole memory maps. The location of a
-- frame is decoded from the bytes of its code object.
--
-- Files, with the code they are about:
--
-- Prelude: names of the libraries, lists measured by native numbers, 32- and 64-bit words, `|`.
-- Memory/Maps: `VirtualMap` (mem.h, mem.cpp).
-- Memory/Exec: methods that change their object and may throw.
-- Memory/Lru and the files under it: `LRUCache` (mem.h, mem.cpp). `put` and `get` are `LRUCache::put`
--   and `LRUCache::get`; the list of nodes stands front first; `unlink`, `evict` and `push_front` are the
--   three parts of `put`. Lru/Invariant has what a valid cache is, Lru/Eviction what the operations do
--   on one, Lru/Overcount what `put` does on a key that is cached.
-- Memory/Process and the files under it: `ProcessMemoryManager` (mem.h, mem.cpp). `copy_memory` is
--   `copyMemoryFromProcess`, `read_chunk` is `readChunk`, `read_chunk_direct` and
--   `read_chunk_through_mem_file` the two ways it reads. `Kernel` holds the system calls, whose answers
--   may differ from call to call. Process/Reads is about the direct reads, Process/Coherence about the
--   cache as a copy of the memory, Process/Refinement about reads through the cache.
-- Memory/Core and the files under it: `CorefileRemoteMemoryManager` (mem.h, mem.cpp). `copy_memory` is
--   its `copyMemoryFromProcess`; `Files` holds the files and what libelf says of them. Core/Dump is about
--   memory in the core file, Core/Segments about the cached segments of libraries.
-- Offsets/Layout: the structures of version.h and the type of each field. Offsets/Copy,
--   Offsets/Checks and Offsets/Load: `copyDebugOffsets`, `validateDebugOffsets` and `clampSizes`, and
--   `loadDebugOffsets` of process.cpp. Offsets/Structure: `getField` of structure.h. Offsets/Bounds
--   and Offsets/Unchecked: what the checks of the offsets give, and the field that they leave out.
-- Tracer and the files under it: `ProcessTracer` (process.h, process.cpp). `stop_process` is its `while`
--   loop, `stop_all` the loop over the threads, `stop_thread` what is done with a new one. `Kernel` holds
--   the listing of /proc and the answers of `ptrace` (a detach may fail) and `waitpid`, which may differ
--   from call to call.
--   Tracer/Stops is about what is traced in the end, Tracer/Ends about the number of rounds, Tracer/Lost
--   about a `waitpid` that fails.
-- Process: what the rest of the program uses of `AbstractProcessManager`, as a record, and `Run`, the
--   results of its reads; Process/Strings: `getStringFromAddress` and its like (process.cpp);
--   Process/ObjectType: `Object` as far as its type (pytypes.cpp); Process/Interpreter and
--   Process/Search: `isValidInterpreterState`, the scans and the paths to the interpreter (process.cpp)
--   and `getInterpreterStateAddr` (thread_builder.cpp), with what they find in the files under Search.
-- Process/CodeObject: `CodeObject` (pycode.cpp) and the items of tuples and lists (pytypes.cpp).
-- Process/LongObject and Process/DictObject: `LongObject` and `DictObject` (pytypes.cpp);
--   LongObject/Digits is about the loop over the digits, DictObject/Lengths about keys and values.
-- Process/Printing and Process/Text: `toConcreteObject`, `Object::toString` and the functions under them
--   (pytypes.cpp); Text/Fits is about the length of the text, Text/Ends and Text/Nesting about its end.
-- Process/Frame: `FrameObject` (pyframe.cpp), `getStackAnchor` (pythread.cpp) and `buildFrameStack`
--   (thread_builder.cpp); the chain of shared pointers is a list, the frame itself first. Frame/Chain,
--   Frame/Stack, Frame/Anchor and Frame/Ends are about them. Process/Ends: what ends without fuel.
-- Frame/Locals: `resolveLocalVariables` (pyframe.cpp), with the two maps as a record; Frame/Variables is
--   about it.
-- Process/Thread: `PyThread` (pythread.cpp), likewise a list; Thread/Gil is about the lock, and
--   Thread/Threads about the list. Thread/TidOffset: `findPthreadTidOffset`; Thread/TidFound is about it.
-- Corefile: the notes of a core file with a signal or a process (corefile.cpp); Corefile/Mapped: the note of
--   the mapped files, `parse_core_file_note`; Corefile/Segments: `populateMaps` and `extractExecutable`;
--   Corefile/Notes: `getNoteData` (elf_common.cpp). Corefile/Encoded and Corefile/Crash are about notes
--   that a kernel wrote, Encoded also about one that ends within a name; Corefile/Names, Corefile/Found
--   and Corefile/Kept are about what is found in a file.
-- MapsParser: `parseMapInformation`, with the maps of each file name as a list of pairs, and
--   MapsParser/CoreMaps: `parseCoreFileMaps` (maps_parser.cpp). MapsParser/Groups, MapsParser/LoadPoints and
--   MapsParser/Information are about the former, MapsParser/Ranges about the latter.
-- Version/Tables: `getCPythonOffsets` (version.cpp), which names a table.
-- Version and Version/Hex: `parsePyVersionHex`, `findPythonVersion` and `setPythonVersion` of process.cpp.
-- Version/Debug and Debug/Settled: its `setPythonVersionFromDebugOffsets`; `Remote` holds the searches
--   for the runtime, its fields as `getField` reads them, and the tables of version.cpp.
-- Code/Scan and Code/LineTable: `parse_linetable` of pycode.cpp. Code/Varint writes its
--   variable-length numbers, LineTable/Entries and LineTable/Finds the whole table, and
--   LineTable/EndLine is about the field `end_lineno`. Code/LineNumbers: the rest of `getLocationInfo`,
--   the tables of lines before Python 3.11; LineNumbers/Finds and LineNumbers/Positions are about it.
--
-- Conventions. Memory and text are lists of bytes as natural numbers. A number of a 64-bit unsigned type
-- wraps at 2 ^ 64, one of `int` or `unsigned int` at 2 ^ 32. Behaviour that C++ leaves open is a value of
-- its own: `none` for the cache and the notes, `undefined` for the manager, a `Fault` for the table.
--
-- Fuel. The loop of `readChunkDirect` has one more round than bytes to read, and every round but the last
-- copies a byte, if the kernel copies any at all, as `IsFaithful` says. The loop of `parse_linetable` has
-- one more round than the table has bytes, and every round takes a byte at least. The loop of
-- `ProcessTracer` has one round more than there are threads to list. A chain of frames has as much fuel as
-- frames; `getStackAnchor` has the 4096 steps of the source. The name of a class and the list of threads
-- have any fuel; the search for the offset of the identifier has as much as threads, and its copy of 800
-- bytes is halved at most ten times. Printing has as much as the size that it may take, and one, since
-- what is nested gets two bytes less. The loop over the notes has one more round than the segment has
-- bytes, where `gelf_getnote` goes on.
--
-- Hypotheses about the system: `IsFaithful` says that the kernel's answers are bytes of one memory, that
-- the process is stopped, and that a copy makes progress; `IsLayout` says that the maps are ranges with
-- one size for each start; `IsSort` says that a sort orders by the starts and keeps how often each range
-- is there;
-- `GoesOn` says that a note is followed by a later one.
--
-- Simplifications. The other process is stopped, so a structure that is read field by field is read
-- from the same memory, although the source copies it once; this leaves aside what a structure holds
-- after a copy that failed. The three dictionaries of an interpreter are tested in one order, while the
-- source iterates over a hash map. `assert` is off, but one that fails in `parse_linetable` is a `Fault`.
-- `buildFrameStack` is modelled without the local variables, which Frame/Locals resolves for one frame.
-- The position that `getLocationInfo` leaves unset has any value. What can be read in the memory behind a
-- note is a field of the note, `beyond`.
--
-- Not modelled: the tables of version.cpp, the front end in Python, ELF and DWARF look-ups, the bindings
-- and the logging, which are input and output or other libraries, and the parts not yet reached: the lines
-- of /proc/PID/maps, the search for a version by file names, and the native unwinder.
pub mod Prelude
pub mod Memory
pub mod Offsets
pub mod Version
pub mod Code
pub mod Corefile
pub mod MapsParser
pub mod Process
pub mod Tracer

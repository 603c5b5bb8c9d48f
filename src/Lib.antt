-- ===== src/Lib.antt =====
-- ibcs-us runs binaries of other Unix systems (System V, SCO, Xenix, and so on) on Linux by
-- translating their system calls. It is one process without a C library of its own: the program's
-- main part is in ibcs/, the personalities in per-*/, the loaders in binfmt-*/, the 80286 emulator
-- in x286/. This library models the parts that compute, from the bottom up.
--
-- Prelude: names passed on from the libraries, Boolean tests, lists over native numbers, signed
--   integers, text as bytes.
-- Memory: memory by byte addresses, a C string in it, what is outside an area.
-- CString: ibcs/ibcs-lib.c, from memchr to strstr. A pointer is an address. A function that writes
--   returns the new memory. A loop that runs to a NUL takes fuel, and one more than the string's
--   length is enough each time. A `char` is signed, a byte is a number below 256 where a theorem
--   needs it.
-- Filemap: ibcs/filemap.c. `Filemap.Normalise` is normalise_path on lists of bytes: the output is
--   kept with its last byte first, as the code works at its end; the loop takes the length of the
--   path as fuel, which is enough as each round takes a byte, and what getcwd answers is a
--   parameter. `Filemap.Parse` is filemap_parse: reading the file is a parameter, the chain of
--   `struct filemap` is a list of entries, and a text of 65536 bytes or more, in which one of its
--   16-bit offsets may wrap, has an outcome of its own, in which what the chain is is not said.
--   `Filemap.Translate` is the lookup of filemap_map, on memory: the path stands in the caller's
--   buffer, the strings of the entries at their addresses, and CString's functions move and copy
--   the bytes. `Filemap.InPlace` is normalise_path again, as it writes to the buffer, and
--   filemap_map, which makes the path absolute there and looks it up; the memory that getcwd leaves
--   is a parameter.
--
-- ShortInode: ibcs/short-inode.c. The table is a function from slots to entries, its memory zeroed
--   by the allocator, which is a parameter. `ShortInode.Lru` has the ring of recent use, as the
--   links that a slot has or, if it was never written, would be given; `Search`, `Links`, `Taken`
--   and `Full` have the hash rings. The search takes fuel, and the table's size is enough while the
--   links run both ways. The semaphore is left out: a call is one step.
--
-- Options: ibcs/main.c, the command line and the environment, as lists of strings. getoption's
--   cursor is a record; a usage message, which ends the process, is an outcome. The loop that calls
--   it takes fuel, and the bytes of the command line and one more are enough. `Options.Flags` is
--   lookup_flag with simple_strtoul of ibcs/linux26-compat.c; a number wraps at 32 bits, and the
--   length of the argument is enough fuel.
--
-- Maps: ibcs/map.c. A table is a function from indices to values, a sigset_t the set of its
--   signals.
--
-- Format: ibcs/ibcs-lib.c, ibcs_vfmt and ibcs_vwritef. The arguments are a list of values, an
--   argument of the wrong kind is undefined, and so are a format read past its end, a number of
--   more bytes than the buffer of 20, and a width that an int does not hold. The loop takes the
--   length of the format as fuel, which is enough as every directive leaves a shorter format.
--   `Format.Expand` is the whole output of a format, without a bound.
--
-- Compat: ibcs/linux26-compat.c, what stands in for the kernel. `Compat.Domains` is the list of
--   execution domains as it is linked in memory, `Compat.Binfmt` that of the binary formats with
--   the lists of linux/list.h, and load_binfmt with the system's answers as a parameter;
--   `Compat.Chrdev` is the slots of the character devices; `Compat.Brk` is the break, on 32-bit
--   addresses; `Compat.Files` is the table of open files, its counts and flags, with the size of
--   the table wrapped at 32 bits. A loop along a list
--   takes fuel, and one more than its length is enough.
--
-- Malloc: ibcs/ibcs-lib.c, ibcs_malloc and ibcs_free, on the words of the headers in memory, with
--   the busy bit in them as the code has it. `Malloc.Chain` is the order of the headers. Merging
--   free blocks takes fuel, and any above the last header's address is enough; the search has no
--   bound, since there are arenas where it does not end.
--
-- X286: x286/ldt.c and x286/emu_memory.c, the segments of a program for the 80286: the decoding of
--   a descriptor, verify_area, and the growing of segments and of the stack. The calls of
--   modify_ldt are left out, and what is read of the program's stack is an argument.
--
-- Termios: per-svr4/termios.c, the settings of a terminal between System V, BSD and Linux, and
--   the flow control of termiox. A structure is a record, and the system's answer and
--   whether the caller's memory can be used are parameters.
--
-- A file under a module's name holds its proofs by what they prove; Tests modules hold runs of the
-- repository's own unit tests and the theorems at concrete inputs.
--
-- Not modelled: signals and raw system calls of ibcs/ibcs-lib.c;
-- the loaders, the rest of the emulator and the personalities, which are mostly wrappers of system
-- calls and tables.
pub mod Prelude
pub mod Memory
pub mod CString
pub mod Filemap
pub mod ShortInode
pub mod Options
pub mod Maps
pub mod Format
pub mod Compat
pub mod Malloc
pub mod X286
pub mod Termios

-- ===== src/Lib.antt =====
-- Verification of the course programs in this repository: a cache server (hw5), two ciphers (hw1),
-- a UTF converter (hw2), an allocator (hw3) and the other programs as far as the list below says.
--
-- Hashmap (hw5/src/hashmap.c, hw5/src/utils.c): `Hashmap` is `hashmap_t`. The types, `key_compare`,
-- `jenkins_one_at_a_time_hash`, `get_index` and `create_map` stand in Hashmap.antt; `put`, `get`,
-- `delete`, `clear_map` and `invalidate_map`, with their loops, in Hashmap/Operations. A `for` loop
-- over the slots recurs on the rounds that are left, so nothing runs out. Hashmap/Scan has the
-- search that the loops share, Hashmap/Loops what each loop computes by it, Hashmap/Slots the table
-- as a whole, Hashmap/Invariant the well-formed maps (`IsValid`) and the abstract map (`view`),
-- Hashmap/Writes the one write of `put`, and Hashmap/Put, Evict, Get, Delete and Clear the operations'
-- theorems. Sizes are `uint32_t` and wrap; indices are `int` and exact up to a capacity of 2 ^ 30,
-- which `IsValid` asks. The bytes behind keys are a function from addresses and do not change:
-- that the destructor frees them is not modelled. Each operation is one critical section.
--
-- Queue (hw5/src/queue.c): nodes on a heap, the semaphore as a count, and a function for each
-- critical section, so that interleavings are sequences of calls (Queue/Races). Queue/Heap has
-- chains of nodes, Queue/Order the refinement of a list, Queue/Invalidate the end of a queue; its
-- loop is given one round more than the semaphore counts. A NULL queue, which each function refuses before it
-- does anything, and `errno` are left out; a NULL `destroy_function` is modelled.
--
-- Cream (hw5/src/cream.c): `serve` is one round of `thread_routine`, over the hash map above. What
-- the sockets and `Calloc` do is an argument: the calls of csapp.c return, with EINTR or EPIPE in
-- `errno` or without, or end the process. Cream/Replies has what a client sees, Cream/Storage what a
-- round does to the map. `main`, `parse_args` and the signal handler are not modelled.
--
-- Ciphers (hw1/src/hw1.c, const.c, main.c): a string is the list of its bytes without the '\0'.
-- Cipher/Strings has the string functions, Cipher/Constants and Cipher/MorseTables the constants,
-- Cipher/Arguments `validargs`, Cipher/Polybius `cipher_pe` and `cipher_pd`, Cipher/Morse the
-- searches of the fractionated Morse cipher and its `fm_key`, Cipher/Fractionated `cipher_fe` and
-- `cipher_fd` with the buffer of symbols, Cipher/Program/Main `main` up to the calls.
-- Cipher/Arguments/Accepted and Bits, Cipher/Polybius/Table, Symbols, Writes, Cover and Trip,
-- Cipher/Strings/Equal and Cipher/Morse/Lookup have the lemmas, Cipher/Program what joins the
-- arguments and the cipher. Cipher/Fractionated/Buffer has the buffer as a list of symbols, Triples
-- the letters of groups of three, Encrypt the rounds of `cipher_fe`, Line and Refused its runs,
-- Decode a reading of symbols from the left, Drain, Taken, Read and Trip what `cipher_fd`
-- makes of them. A
-- `while` loop over the buffer is given 257 rounds, which are enough since each takes a symbol from
-- its 257 bytes. What lies in memory behind a string or a table that the code reads past is an
-- argument.
--
-- Utf (hw2/src/utf8.c, utf16le.c, utf16be.c, utf.c, wrappers.c, args.c): a file is the list of the
-- bytes left in it. Utf/Utf8 has the encoders and decoders of UTF-8, Utf/Utf16 those of UTF-16,
-- Utf/Convert the conversion loops, with a round more than the file has bytes, which is enough since
-- a round takes one at least; Utf/Choose the byte order mark, the choice of a conversion and the
-- strings of args.c. Utf/Reverse, Utf8/Trip, Utf16/Trip, Convert/FromUtf8, Convert/FromUtf16,
-- Choose/Formats, Choose/Joined and Utf/Pipeline have the theorems. The host is little-endian. `memeset`
-- and `memecpy` (wrappers.c) also write to where the stack pointer is: for `memecpy` those bytes are a
-- second buffer, for `memeset` they are left out, and in both cases the compiled code is taken to
-- need none of them. The conversions from
-- UTF-16 to UTF-8, which compare inodes and return -1, `transcribe`, `parse_args`, `print_state` and
-- `main` are not modelled.
--
-- Allocator (hw3/src/sfmm.c): memory is a function from addresses to rows of 64 bits, and the bit
-- fields are taken out of the rows. Allocator.antt has the words of a block, the four free lists and
-- the searches, Allocator/Free `sf_free`, Allocator/Malloc the search for a block in `sf_malloc` and
-- its splitting, Allocator/Grow `sf_malloc` as a whole with `mem_init` and the growing of the heap,
-- Allocator/Realloc `sf_realloc`. Allocator/FreeList and Unlink have a doubly linked list as a list
-- of addresses (`Links`), Allocator/Lists the four lists together (`IsFree`), Allocator/InUse the rows
-- of a block in use, and Allocator/Changes, Search, Release, Coalesce, Place, Abort, First, Resize and
-- Lost the theorems. A search is given fuel; more of it than the list has blocks is enough. The
-- `while` loop of `sf_malloc` is given a number of rounds: each takes a page, so that more rounds than
-- `sf_sbrk` has pages are enough. `sf_sbrk`, `get_heap_start` and `get_heap_end`, of the library that
-- the allocator is linked with, are arguments, and so is what lies behind an `int` that is copied as
-- eight bytes.
--
-- Not modelled: hw5/src/extracredit.c, hw4, the client in cream-client, and the three
-- copies of csapp.c, a library that the programs call.
pub mod Common
pub mod Hashmap
pub mod Queue
pub mod Utf
pub mod Allocator
pub mod Cipher
pub mod Cream

-- ===== src/Lib.antt =====
-- myos1 is a small x86-64 kernel in C. This library models its core subsystems as executable
-- functions over explicit state and proves what makes them correct.
--
-- Files and the code they model:
--   Base      shared helpers: Boolean tests and case lemmas (Tests), lists of naturals and sums
--             (Lists), bit operations of machine words (Bits, Or), searches of a table for the first
--             entry with a property (Search), texts as lists of bytes (Text), align_up_u64 and
--             align_down_u64 of
--             src/lib.c (Align), signed integers (Int).
--   Pmm       src/pmm.c, the physical page allocator: the page bitmap and the counters, one function
--             per C function. Bitmap and Count have the lemmas on single pages, Scan the search for a
--             run, Alloc allocation and release, Range the two range functions, Init the start from
--             the boot loader's memory map.
--   Kmalloc   src/kmalloc.c, the kernel's heap: a list of blocks. Find has what kmalloc gives, Merge what
--             freeing does to the list; Live sees the heap as a set of live pointers, Fresh has what
--             kmalloc does to it, and Release what kfree does. A block's header is its entry of the list,
--             so a program that writes over a header is outside the model.
--   Umalloc   user/malloc.c, the heap of a user program, over the program break. Tiles has the tiling of its
--             memory and what malloc gives, Frees what free does.
--   Memfs     src/memfs.c, reading and writing a file in memory: Grow has the loop that doubles the
--             capacity, Bytes what a write leaves and what is read of it.
--   Vfs       src/vfs.c, the tree of nodes and the resolution of paths, over a store of nodes by their
--             addresses. Nodes has the making and the removal of nodes of src/vfs.c and src/memfs.c.
--             Segments relates a path to its names, Resolution says what it leads to; Making, Dir, Link,
--             Entries and Removal see a directory as a map from names to nodes.
--   Tarfs     src/tarfs.c, the archive in memory: the lookup of a path here, the nodes that are made of
--             the entries in Populate. Octal has the sizes, Find what is found.
--   Devfs     src/devfs.c, the files of devices over an interface to the block driver: Disk and Store see the
--             disk's file as an array of bytes; Nodes makes the nodes of the devices.
--   Files     src/vfs.c, open files, which go to the operations of Memfs, Tarfs and Devfs. Share has two
--             open files of one node.
--   Elf       src/elf.c, the loader of programs: the format of the image here, Relocate the relocations, Load
--             the segments and the whole load, Copy what the copy of a segment leaves. The bytes of memory
--             are a function of physical addresses, apart from the tables of pages.
--   Syscall   src/syscall.c, the table of open files of a thread and anonymous mappings.
--   Vmm       src/vmm.c with include/vmm.h, page tables and the spaces of user processes. Memory is a
--             function from a table's address and an index to an entry. Entry has the bits of entries;
--             Tree the trees of tables and the map from pages to entries that each space stands for;
--             Fresh, Grow, Ensure, Leaf and Map what one change does to them, Pages and Walk mapping,
--             unmapping and resolving. Spaces models the list of spaces, the identity map of the kernel, the
--             destruction of a space and the user's heap; GiveBack, Clear and Destroy say what the
--             destruction frees and keeps; Refs, Lifetime and Create relate the list to a count of
--             references.
--   Sched     src/scheduler.c with include/thread.h: the thread table, the choice of the next thread
--             (Pick), waking of sleepers (Wake), what every entry point keeps (Invariant, Switch,
--             Steps), and what a parent learns of the end of a child (Exit). A thread pointer is an
--             index of the table; the lock makes an entry point one step.
--   Ring      the circular queues of src/net.c (and of src/input.c, the same code at another size and
--             entry): Fifo relates them to lists.
--   Net       src/net.c, the loopback sockets. The table of sockets is a function from indices. Calls
--             has the socket calls, Lookup what the loops over the table find, Invariant and Steps
--             what every call keeps, Deliver sending, receiving and closing, Link connecting and
--             accepting, Tables the tables of interfaces and routes, Routes what adding a route does.
--   Clock     src/time.c with the record of src/rtc.c: Calendar counts the seconds of the calendar,
--             Epoch compares the count with the one of the code. Chip decodes the registers of src/rtc.c.
--   Input     src/input.c: the handlers of the keyboard and the mouse; Packet has the bytes of a whole
--             mouse packet.
--   Gdb       src/gdb.c, the debugger's stub: packets and hexadecimal numbers here, breakpoints and the
--             single commands in Stub, the dispatch, the session and the exception handler in Session.
--             Packets has what is read of what was sent, Memory the access to memory, Breaks and Events
--             the breakpoints, Rounds the rounds of a session, Resume and Step going on from a breakpoint.
--
-- Conventions. A global variable is a part of an explicit state; a C function gives its result and
-- the new state; a pointer that may be null is an option. Unsigned words are naturals with their
-- wrap-around written out where the code can reach it; a signed status is an integer. Output to the
-- console is left out. Loops are structural recursion on the number of rounds that the C loop makes
-- (its bound less its start), so no loop needs more fuel than it has; the loop of the debugger's
-- session has fuel, one more than the length of its input, and the loop that doubles a file's capacity
-- has fuel for the 64 doublings that a word can take. The loops over a path have one more than its
-- length, since every round takes a character; the loops over an archive one more than its bytes, and
-- those over the bytes of the disk's file and of a segment one more than the length, since every round takes some.
--
-- How the parts meet: nodes, open files and the buffers of memory files come from the heap, and a new
-- node is told from the others by the heap's live pointers; a path is looked up in directories of memory
-- and of the archive alike; the devices' files read the disk and the queues of Input; page tables and the heap take
-- their pages from the page allocator; the page
-- allocator starts from the boot information and uses the alignment functions; the socket table holds
-- two queues for each socket, of messages and of pending connections; the calls use the queues through their four wrappers in Net. The theorems on page
-- tables are about the user region (from USER_REGION_BASE on): entry 0 of a root is the kernel's, whose
-- 2 MiB pages the code never maps again.
--
-- Not modelled: hardware set-up and drivers (src/arch, the disk, bus and serial drivers), boot code,
-- the shell, the user library but for its heap, the console and the log; of src/syscall.c all but the
-- table of open files and anonymous mappings, and of src/scheduler.c the creation of threads, fork and
-- waitpid. A node that is freed stays in the store as its memory does, so
-- the use of a freed node is in the model only until the memory is given out again.
pub mod Base
pub mod Pmm
pub mod Kmalloc
pub mod Umalloc
pub mod Memfs
pub mod Tarfs
pub mod Vfs
pub mod Devfs
pub mod Files
pub mod Elf
pub mod Syscall
pub mod Vmm
pub mod Sched
pub mod Ring
pub mod Net
pub mod Clock
pub mod Input
pub mod Gdb

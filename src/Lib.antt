-- ===== src/Lib.antt =====
-- A verification library for the memory manager, the linked list, the barrier and the allocation
-- tracer of this repository.
--
-- The program. memory_manager.c gives out pieces of one pool of bytes. A list of block headers,
-- each allocated with malloc, says which stretch of the pool is free or in use: mem_alloc takes
-- the first free block that is large enough and cuts it in two, mem_free marks a block free and
-- merges it with its free neighbours, mem_resize keeps or moves a block, and mem_init and
-- mem_deinit begin and end the pool. Each call but mem_init holds one mutex. linked_list.c keeps
-- its nodes in that pool. common_defs.h has the barrier at which the test threads meet. cM2.c is a
-- library of its own that stands before the C library's allocator and prints each call.
--
-- The model.
--   Prelude         shared names, Boolean tests, lists measured by native numbers
--   Machine         addresses, 64-bit words, stores, and commands: a command returns, faults
--                   (undefined behaviour), blocks on a mutex, ends the program, or runs
--                   out of fuel. Machine/Returns is total correctness of a run, Machine/Outcome
--                   that it returns right, faults or ends the program
--   Memory          memory_manager.c, function by function, under the names of the source. A
--                   Manager holds the globals and what malloc has given out: headers, pools,
--                   bytes (Memory/Base)
--   Memory/Chain    which headers form the block list; Memory/Becomes what a call changes and
--                   spares, Memory/Framed what many calls spare
--   Spans           the block list with the header addresses forgotten: alloc, release, find and
--                   resize are its operations, and its children prove what they keep
--   Memory/Carve, Alloc, Merge, Release, Copy, Resize, Lifetime
--                   the C functions carry out the operations on spans
--   Memory/Ready    the invariant between calls; Memory/Calls, Contract, Limits what callers
--                   can rely on, and where they cannot; Memory/Tests runs and instances
--   Memory/Partial, Moves
--                   the same where malloc may have no room and the arguments are arbitrary: a call
--                   does as on spans, or faults. Memory/Body cuts each call into lock, body, unlock
--   LinkedList      linked_list.c, function by function, over Memory. A Program holds the manager,
--                   the node stored at each address, the list's mutex, the head, and what was printed
--                   (LinkedList/Base)
--   LinkedList/Linked, Ready
--                   which nodes form the list, each of them a block in use; LinkedList/Link, Init,
--                   Insert, After, Delete, Walks, Range, Roundtrip, Leak, Cleanup, Limits are about
--                   the calls, LinkedList/Partial and Behind about those that may fault; LinkedList/Body cuts
--                   a call into lock, body, unlock, and no body touches the mutex (LinkedList/Mutex);
--                   LinkedList/Tests runs the list of LinkedList/Bench
--   Barrier         my_barrier_wait of common_defs.h as steps of any number of threads;
--                   Barrier/Invariant, Safety, Progress, Tests, Barrier/Tally, which counts who
--                   waits, and Barrier/Destroy, about my_barrier_destroy
--   Monitor         an object behind a mutex and threads that call it, three steps a call: the lock,
--                   the body in one step, and the unlock. That nothing of another thread comes
--                   into a body is what the mutex is for, and is taken from it here. Monitor/Invariant
--                   has the contract of such an object, Serves, Monitor/Serial what then holds between
--                   the steps, and Monitor/Runs calls of whole functions one after the other
--   Threads         mem_alloc, mem_free and mem_resize: Threads/Serves fills the contract,
--                   Threads/Runs is about the whole functions called one after the other,
--                   Threads/Serial about threads, and Threads/Lifetime about mem_init before and
--                   mem_deinit after them (with Memory/Whole, where the heap is as it was)
--   ListThreads     the list likewise, with list_insert, list_insert_before, list_insert_after,
--                   list_delete, list_search, list_count_nodes and list_display_range from the
--                   head; ListThreads/Good is its invariant, ListThreads/Sequence the abstract
--                   list, a sequence of numbers and the text printed, ListThreads/Runs is about the
--                   functions called one after the other, and ListThreads/Lifetime about list_init
--                   and list_cleanup
--   Tracer          cM2.c, function by function. A State holds the pointers to the real functions, the
--                   fill of the buffer, the flags, memory, and what was printed (Tracer/Base);
--                   Tracer/Answers and Nesting the look-ups within look-ups, Tracer/Buffer what comes out of the buffer,
--                   Tracer/Forward the calls that go on, Tracer/Tests
--
-- Conventions. A pointer is a number, NULL is 0. Sizes and pointer sums wrap at 2^64, as size_t
-- does. The int field free holds 0 or 1. Loops take fuel, and k rounds are enough for a list of
-- fewer than k blocks. malloc and the pthread functions are a parameter, a Platform, whose laws
-- are their documented behaviour: malloc returns NULL or an address that is not in use, a free
-- mutex can be locked and a held one cannot. Headers, pools and the bytes of the pool are
-- separate stores, so that no write to the one reaches the other. A node is read and written
-- whole, at the address where it begins; sizeof(Node) is a parameter, and the nodes of a list in
-- order lie in blocks of that size, which do not overlap, so that nodes stored by address are what
-- C reads and writes. A caller passes pointers to nodes that the list has made. A node that was
-- deleted can overlap those of a pool that was cut anew,
-- so list_insert_after, the one function that writes through such a pointer, stands only where its
-- node is in the list, or where the pool has served nodes only, which all begin at multiples of
-- their size. A value is the uint16_t that the call receives. The fuel of a call made by a
-- thread exceeds the number of blocks at the start and of calls so far, since a call adds one
-- block at most; in the list, of nodes too. A thread at the barrier takes one step for each
-- stretch between two events that others can see: taking the mutex, the counting up to the wait
-- or the broadcast, waking, and the unlock. In the tracer the code at each address is a parameter, and
-- dlsym is a script of the calls that it makes; each look-up within a look-up takes one unit of
-- fuel, and two are enough, one for each function that begins a look-up.
--
-- Not modelled. The return codes of the pthread functions, which the source ignores; the
-- alignment of pointers; two lists at once and the mutex inside a node; threads that call
-- mem_init, mem_deinit, list_init or list_cleanup while others are in a call: these begin and end
-- the pool, before and after the threads; threads that call list_display_range from a node, which
-- another thread may have deleted, so that its links may lead anywhere; what another thread does
-- while a body runs, which the mutex keeps out; threads that call the
-- memory manager beside the list, whose blocks would have to be kept apart by their callers; the
-- macros of common_defs.h, and the bounds of the message buffers of cM2.c; the test drivers and
-- the build files.
pub mod Prelude
pub mod Machine
pub mod Spans
pub mod Memory
pub mod LinkedList
pub mod Tracer
pub mod Barrier
pub mod Monitor
pub mod Threads
pub mod ListThreads

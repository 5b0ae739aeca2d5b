-- ===== src/Lib.antt =====
-- A verification library for the kernel in this repository, a Pintos in C. It models the parts
-- below as functions on explicit state and proves what makes them correct.
--
-- Prelude: Boolean tests on the native numbers, Option, lists over those numbers, memory as a
--   function from addresses to bytes, and the bits of a word (Prelude/Bits).
-- Str: src/lib/string.c. Str/Block has memcpy, memmove, memset, memcmp and memchr; Str/Scan has
--   strlen, strnlen, strchr, strcmp, strspn and strcspn; Str/Copy has strlcpy and strlcat;
--   Str/Token has strtok_r, by which userprog/process.c splits a command line. Str/Compare,
--   Str/Span and Str/Token/Split hold proofs. A pointer is its address; a null pointer that a
--   routine returns is `none`, and the assertions that an argument is not null are left out. A loop that ends at a terminator runs on fuel, the argument `limit`;
--   for a string of n characters any limit above n is enough, and the theorems say so.
-- Bitmap: src/lib/kernel/bitmap.c, an array of 32-bit words as a list. A failed assertion is
--   `none`. Bitmap/Bits reads it as an array of Booleans, Bitmap/Range treats the operations on
--   ranges and Bitmap/Scan the search for a group.
-- Palloc: src/threads/palloc.c over Bitmap and Str/Block: the kernel pool and the user pool, and
--   the memory that is zeroed or filled. palloc_get_multiple() scans a pool's bitmap;
--   palloc_free_multiple() finds the pool of a page by its number. Palloc/Valid says when pools are
--   well formed, Palloc/Get and Palloc/Free treat the two calls, Palloc/Regions and Palloc/Live any
--   sequence of them; Palloc/Init has the pools that palloc_init() makes.
-- Thread: src/threads/thread.c and process_wait() of src/userprog/process.c. The state is the
--   table of threads by the address of their page, the list of all threads, the ready list and the
--   current thread. An operation that runs with interrupts off is one step, up to its switch; what
--   its thread does when it runs again is its next step. The page of a dying thread is freed in
--   thread_schedule_tail(). Thread/Inv has the invariant of the scheduler and the switch,
--   Thread/Steps the operations, Thread/Exit the end of a thread from its intr_disable() on, and
--   Thread/RoundRobin the order of service. thread_create() and process_wait() run with interrupts
--   on: Thread/Create and Thread/Wait model them as steps between which other threads may run, and
--   Thread/Race has such a run. The page that thread_create() gets from the page allocator is an
--   argument, with hypotheses that say it is not in use by a thread.
-- Synch: src/threads/synch.c, semaphores and locks, as a step relation of any number of threads on
--   one lock; a part that runs with interrupts off is one step, so a thread may be preempted between
--   sema_down() and the line of lock_acquire() that sets the holder. Synch/Exclusion has the
--   invariant and Synch/Safety what follows from it.
-- Sort: sort() of src/lib/stdlib.c, a heap sort of an array of bytes in memory. The comparison is a
--   parameter, a total preorder by hypothesis. heapify() runs on fuel, the number of elements, which
--   is enough since the index grows in each round. Sort/Swap treats do_swap(), Sort/Heap, Sort/Sift
--   and Sort/Heapify treat heapify(), and Sort/Build and Sort/Order the two loops.
-- Search: binary_search() of src/lib/stdlib.c on such an array. The comparison of the key with an
--   element is a parameter, by hypothesis in the order of the elements. The loop runs on fuel, one
--   more than the number of elements, which is enough since each round leaves fewer.
-- Intq: src/devices/intq.c, the queue between interrupt handlers and threads, one turn of a loop at a
--   time; Intq/Fifo refines it to a sequence of bytes and Intq/Stream runs it.
-- KernelList: src/lib/kernel/list.c, doubly linked lists on a heap of two pointers for each element.
--   KernelList/Chain says that a list holds a sequence of elements; Detach, Attach and Splice treat
--   the assignments that unlink and link a range, and Positions, Ops and Ends the operations at a
--   place and at the two ends. Walk has the operations that run through a list (list_size(),
--   list_max(), list_min(), list_insert_ordered(), list_reverse(), list_unique()) and Merge the
--   merge sort; Less has the comparison, a strict weak order by hypothesis, and Steps the next and the
--   previous element. Every loop runs on fuel, and any fuel above the number of elements is enough.
-- HashTable: src/lib/kernel/hash.c. A bucket is the sequence of the elements that its list holds, as
--   KernelList shows of the operations used; the hash function and the comparison are parameters.
--   rehash() runs in every insertion and deletion; whether it gets memory for new buckets is an
--   argument. HashTable/Find and Buckets have the elements of a bucket and of all of them, Move and
--   Rehash the change of the number of buckets, Laws and Views the operations as those of a set,
--   Iterate the iterator, and Fnv the hash functions. round_down, the loop of rehash() that turns
--   bits off, has fuel above the number it starts from, which falls in each round.
-- FreeMap: src/filesys/free-map.c over Bitmap: the map of used sectors, and the device as the bytes
--   of its sectors. bitmap_write() writes the map to its file through the buffer cache, which is not
--   modelled: whether it succeeds and the device that it leaves, any device, are the arguments
--   `written` and `flushed` of the operations that call it. FreeMap/Outcome has what an allocation
--   and a release do.
-- Inode: src/filesys/inode.c over FreeMap: inodes on the device and the table of the open ones. The list of open inodes is a sequence of addresses; the memory that malloc() gives,
--   or 0, is an argument. Inode/Opening has the invariant of the table and inode_open(), Closing
--   inode_close(), Disk inode_create() and Writes the denial of writes.
-- File: src/filesys/file.c over Inode: open files by their address, each with its inode, its position
--   and whether it denies writes. File/Valid ties the files to the counts of their inodes,
--   File/Allowing and File/Denying treat file_allow_write() and file_deny_write(), File/Closing
--   file_close() and File/Opening file_open().
-- Syscall: the table of descriptors in src/userprog/syscall.c, over File. A call returns, ends the
--   process or fails, which is an assertion or a place outside of the table. Syscall/Closing has the
--   invariant of the table and close(), Syscall/Lookup filesize(), seek() and tell().
--
-- The modules named Tests run the theorems on concrete data.
--
-- Machine integers are natural numbers with the wrap-around written out where an operation of the
-- code can reach it; addresses and sizes are below 2 ^ 32 by the hypotheses of well-formedness.
--
-- Not modelled: the transfer of file data through the buffer cache, directories and the set-up of
-- the file system, the loader of programs, the system calls other than these four, process_exit(),
-- page tables, malloc, the device drivers, boot code and formatted output. hash_destroy() and
-- bitmap_destroy() only free memory. The locks inside the page allocator and the interrupt queue are
-- left out because an operation is one step there.
pub mod Prelude
pub mod Search
pub mod Sort
pub mod Str
pub mod Bitmap
pub mod FreeMap
pub mod HashTable
pub mod Inode
pub mod File
pub mod Intq
pub mod KernelList
pub mod Palloc
pub mod Synch
pub mod Syscall
pub mod Thread

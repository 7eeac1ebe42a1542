-- ===== src/Lib.antt =====
-- JinxOS: a verification library of the kernel's data structures and synchronisation.
--
-- The kernel keeps its bookkeeping in a small library of containers under klib/: a resizeable array,
-- a priority queue over it, a linked list, a FIFO queue over that, a hash table of lists, and a
-- bitmap. Its threads wait for each other by the spinlocks, wait channels, semaphores, locks and
-- condition variables of synch/, processes get their numbers from proc/pidreg.c, and the memory
-- for all of it lies between the two breaks of mem/. Each part is modelled by functions that take
-- the state and return the new one, guard for guard as the C code.
--
-- Base passes on the names of the libraries and holds the Boolean tests, the lists over native
-- numbers and the outcome of a routine (Base/Outcome): a value, a halted machine (`panic`, for a
-- failed assert or a call of panic), an undefined access (`fault`), or spent fuel. Kernel holds the
-- error numbers of klib/errno.h, 32-bit wrap-around, and `kmalloc` as its clients see it: an oracle
-- says which sizes are served, and a block that is served holds zeros.
--
-- Array is klib/array.c (array_init, array_num, array_get, array_set, array_setsize, array_add,
-- array_remove, array_cleanup). `v` is the block behind the C pointer, a list of words. Its growth
-- loop runs on 34 rounds, enough for every size up to 2 ^ 31; above that the C loop wraps to 0 and
-- does not end. memcpy and memmove are the forward loops of klib/string.c, a word at a time.
-- Heap is klib/heap.c over Array; the comparator is a parameter. Its loops run on one round more
-- than there are entries.
-- LinkedList is klib/list.c over a store, a function from addresses to nodes; the list object is a
-- record that is returned anew, and the address that kmalloc returns is an argument. Its loops run
-- on one round more than the list's size says. Queue is klib/queue.c over LinkedList.
-- Bitmap is klib/bitmap.c on bytes; bit_and and bit_or are the library's.
--
-- ThreadList is thread/threadlist.c, the doubly linked list of threads, over the nodes at every
-- address; only an access through NULL is undefined there. The address of a thread's node,
-- `&t->listnode`, is a parameter. Time is klib/time.c: spans of time, and the table of 128 timers as
-- a list of slots. What pit_ticks returns is an argument; differences of ticks wrap in 32 bits.
-- Strings is klib/string.c but for strstr and memsetw, and the whole of klib/atoi.c, on
-- NUL-terminated bytes: a pointer is the list of the bytes from there to the end of its block.
--
-- HashTable is klib/hashtable.c over the chains' values; its hash and comparator are parameters, and
-- HashTable/Keys has the source's on strings. A call of hashtable_add may come again through grow
-- and rehash: its first argument bounds that depth, and 2 is enough, since a table that has just
-- grown does not grow again.
--
-- Spinlock is synch/spinlock.c on one processor: its count of spinlocks, its interrupt flag, and the
-- static `iflag`. WaitChannel is the sleeping and waking of synch/wchan.c, on the list of the
-- threads that a channel holds. Semaphore and Lock are synch/semaphore.c and synch/lock.c: a call
-- is one step up to its end or to where its thread sleeps, and Semaphore/Steps and Lock/Steps let
-- the steps of any number of threads follow each other in any order. CondVar is synch/cv.c over
-- Lock and WaitChannel.
--
-- PidRegistry is proc/pidreg.c over Bitmap: which process numbers are in use, which wait to be used
-- again, and the caller's takes of the registrar's lock. Memory is mem/mem.c and kpalloc of
-- mem/kmm.c: the break of the heap and that of the pages, which grow towards each other.
--
-- Thread is thread/thread.c on one processor, whose run queue, exited threads and channels are
-- lists: Thread has the threads and their stacks, Thread/Switching thread_switch and its callers,
-- and Thread/Fork thread_fork. The switch ends where the next thread's context is loaded. Its loop
-- that frees exited threads runs on one round more than there are. cpu/cpu.c gives the boot thread no
-- stack, and thread_checkstack of it writes at the address 0, which is undefined here; the theorems
-- ask a stack of the threads that switch only, and let the boot thread sleep. The part of thread_exit
-- for a thread that another waits for, thread_join, and the names of threads are left out.
--
-- Print is the number printing of klib/snprintf.c, Print/Format its vsnprintfmt with the directives,
-- and vsnprintf: what is put goes through any `putch`. The loop over the digits runs on two rounds
-- more than the buffer has bytes, which the buffer's end stops before, and that over the format on
-- one round more than the format has characters, each of which takes one. Frames is pp_alloc,
-- pp_free and pa_alloc of mem/pmm.c over Bitmap, and Paging is the page directories of mem/vmm.c
-- (pgdir_walk, page_insert, boot_map), with a table named by its frame.
--
-- Not modelled: the synchronised containers of klib/, processes, the allocator of mem/mm.c, the
-- drivers under hw/, the boot code, printing to the screen, and the tests. Checks that a pointer
-- argument is not NULL are left out, since an object is a value here.
mod Base
mod Kernel
pub mod Array
pub mod Heap
pub mod LinkedList
pub mod Queue
pub mod Bitmap
pub mod ThreadList
pub mod Time
pub mod Strings
pub mod Spinlock
pub mod WaitChannel
pub mod Semaphore
pub mod Lock
pub mod HashTable
pub mod PidRegistry
pub mod Memory
pub mod CondVar
pub mod Thread
pub mod Print
pub mod Frames
pub mod Paging
mod Tests

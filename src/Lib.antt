-- ===== src/Lib.antt =====
-- Nachos with a distributed lock service: the server that machines share, the system calls with
-- which user programs reach it, and the demand paging under those programs.
--
-- Server() of nachos-csci402/code/network/nettest.cc keeps three tables, of locks, condition
-- variables and monitor variables. It takes one request of at most 40 bytes at a time from its
-- mailbox, runs the case of the operation code in the first byte, and answers by mail; a client
-- whose answer is put off waits in the queue of a lock or of a condition variable. With more
-- servers, a name that one does not know is asked of the others first (codes 13 and 14). The system
-- calls of nachos-csci402/code/userprog/exception.cc write the requests. The programs run in
-- address spaces (nachos-csci402/code/userprog/addrspace.cc), whose pages are brought into memory
-- by the page faults of nachos-csci402/code/userprog/exception.cc, with a bit map
-- (nachos-csci402/code/userprog/bitmap.cc) of the frames and one of the places in the swap file,
-- and with the TLB that nachos-csci402/code/machine/translate.cc looks through. Under all of these
-- are the locks of nachos-csci402/code/threads/synch.cc and the lists of
-- nachos-csci402/code/threads/list.cc that their waiters queue in.
--
--   Network/Server/State       the tables, the objects and their constructors, PostOffice::Send
--   Network/Server/Locks       CreateLock, getLockFromTable, DestroyLock, Acquire, Release
--   Network/Server/Conditions  CreateCV, Signal, Broadcast, Wait, DestroyCV
--   Network/Server/Variables   CreateMV, SetMV, GetMV, DestroyMV
--   Network/Server/Requests    what the cases of Server() read from a request, and their answers
--   Network/Server/Handlers    the cases of Server(), one round (`step`) and its loop (`run`)
--   Network/Server/Invariant, Replies, Locking, Broadcast, Names   proofs about these
--   Userprog/BitMap            BitMap, with its constructor, Mark, Clear, Test, Find, NumClear
--   Userprog/Paging/State      page tables, the inverted page table, the TLB, memory and swap file
--   Userprog/Paging/Spaces     AddrSpace: constructor, SaveState, RestoreState, clearMem, clearStack,
--                              allocateStack, getNumPages, IPTMiss, swappedPage, evictedPage
--   Userprog/Paging/Faults     updateTLB, HandleMemoryFull, HandleIPTMiss, HandlePageFault
--   Userprog/Paging/Translation   Machine::Translate with a TLB
--   Userprog/Paging/Contents, Eviction, Frames, Transparency, Stays, Residence, Sizes   proofs about
--                              these
--   Userprog/Clients           CreateLock_Syscall to GetMV_Syscall
--   Userprog/Clients/Requests  how they fit the cases of Server()
--   Userprog/Tables            Table: Get, Put, Remove; `Entries` has the proofs
--   Userprog/FileCalls         Open_Syscall, Write_Syscall, Read_Syscall, Close_Syscall; `Closing` has
--                              the proofs
--   Userprog/Dispatch          ExceptionHandler
--   Userprog/Processes         StartProcess, Exec_Syscall, Fork_Syscall, Fork_Thread, Exit_Syscall
--   Userprog/Processes/Stacks, Settlement, Sizes, Keeping, Calls, Failures   proofs about these
--   Threads/Lists              List: Append, Prepend, SortedInsert, SortedRemove, IsEmpty
--   Threads/Locks              Lock: Acquire, Release; its `Worlds` are the steps of many threads
--   Threads/Semaphores         Semaphore: P, V; its `Worlds` are the steps of many threads, and
--                              `Supply` the proofs
--   Threads/Conditions         Condition: Wait, Signal, Broadcast; `Waking` has the proofs
--   Threads/Lists/Sorted, Threads/Locks/Invariant, Threads/Locks/Exclusion   proofs about these
--   Machine/Interrupts         Interrupt: Schedule, CheckIfDue, OneTick, Idle, SetLevel, YieldOnReturn; the
--                              timer; `Time` has the proofs
--   Filesys/Headers            FileHeader: Allocate, Deallocate, ByteToSector
--   Filesys/Directories        Directory: FindIndex, Find, Add, Remove, over strncmp and strncpy
--   Filesys/System             FileSystem: the formatting constructor, Create, Open, Remove
--   Filesys/Files              OpenFile: Seek, Read, Write, ReadAt, WriteAt, over sectors of the disk
--   Filesys/Headers/Sectors, Filesys/Directories/Laws, Filesys/System/Claims, Consistency, Creation,
--   Removal and Format, Filesys/Files/Reading, Writing and Layout   proofs about these
--   Prelude                    results with faults, lists, C integers, bits, tables of pointers
--
-- A C++ int is an integer (`pos`, `negsuc`), or a natural number where the code only has numbers
-- from 0 on (ids of requests, frames, pages); a char is the byte that it stores, and is signed when
-- it is read as an int; an unsigned int wraps at 2 ^ 32 where it is computed, and the int sums of
-- ReadAt and WriteAt that can overflow are a fault. What stops the
-- program or is undefined is a `fault`: an ASSERT that fails, a vector index out of range, a
-- deleted or null pointer that is followed, an array that is overrun, a halt. A vector of pointers
-- is a list of slots, and a slot is `none` once its object is deleted.
--
-- A loop over an array or a count has the rounds that are left as an argument, which starts at the
-- loop's bound, so that no bound is made up. The loops over the interrupts that are due take fuel;
-- each round that goes on takes one that is due off the list, so that one round more than are due is
-- enough. So does the loop of Condition::Broadcast, during which other threads may run: what they do to the
-- condition is an argument, and undisturbed each round takes a waiter off the queue.
-- The loop of the server's Broadcast makes numWaiters rounds, since
-- each takes one from that count. The loop of Server() is the recursion on the list of requests
-- served.
--
-- The kernel runs the code for pages with interrupts off and under locks, so that an operation is
-- one step; Exec and Fork_Thread, which may sleep between taking a stack and entering it, are three
-- steps and two; and the tables of kernel locks and
-- conditions that Exit goes through are empty, since nothing fills them. What `rand()` returns, what `new` finds in memory, what copyin copied and what a mail
-- answers are arguments. The swap file is a function from positions to bytes, 0 where nothing was
-- written, and a read of the executable past its end leaves the zeros that were put there.
--
-- Not modelled: the printing, and the result of Send, which the server only prints; the field
-- `from` of the server's own mail; the mailboxes and the postal worker; Translate without a TLB,
-- which this kernel does not use; Create, Print, GetID and
-- the loops of copyin and copyout, the scheduler, and the simulated processor with its registers (so the DelayedLoad of CheckIfDue) and the devices. In the file system, a sector of a header is the
-- header that it holds, the files of the map and of the directory are what they hold, sizes and
-- positions are not negative, and a buffer is the bytes that it holds by index. Signal and Broadcast on a
-- queue that is empty although its counter is not would queue a null pointer, and are a fault at
-- once here.
--
-- In the comments of the other files, paths are from nachos-csci402/code.
pub mod Prelude
pub mod Network
pub mod Userprog
pub mod Threads
pub mod Machine
pub mod Filesys

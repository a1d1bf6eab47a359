-- ===== src/Lib.antt =====
-- A model of the kernel of a small operating system for one processor: its process queues, its
-- scheduler, its semaphores, its pipes, its keyboard driver, its memory manager, its system calls,
-- and the parser of its shell.
--
-- How the parts interact. The scheduler keeps the processes in five queues (ready by priority,
-- blocked, finished). A semaphore parks the process that runs by blocking it in the scheduler, and
-- unblocks the one that has waited longest. A pipe guards a circular buffer by three semaphores: a
-- mutex, one for the items and one for the spaces.
--
-- Files, and the code that they model:
--   Base        tests on numbers, writes to a field, lists
--   Queue       Kernel/proc/process.c, process_queue_init to process_queue_is_empty: the doubly
--               linked queues. Queue/Chain says what list a queue holds; Queue/Unlink, Detach and
--               Push prove the operations against it
--   State       Kernel/include/process.h and the variables of Kernel/proc/scheduler.c
--   Scheduler   Kernel/proc/scheduler.c. Scheduler/Places takes the five queues together
--               (`Represents s f`: the queue of each place holds the list `f` of that place, and each
--               process is in the state, and of the priority, of its place); the other children
--               prove the operations: Moves, Enqueue, Wake, Block, Priority, Find
--   Semaphore   Kernel/ipc/semaphore.c. Semaphore/Waiters is the queue of waiting processes;
--               Signal, Wait and Set the operations on the value, Moved the processes that Set
--               wakes; Slots the table; Frame and Values what an operation on one semaphore leaves
--               of the others, Descriptors that none writes the open files
--   Pipe        Kernel/ipc/pipe.c. Pipe/Transfer has the reads and the writes; Pipe/Window the
--               bytes that a pipe holds as a list; Fifo the reads against it, Store the writes;
--               Calm and Ends bound the rounds of both
--   Memory      Kernel/mm/mm_simple.c. Memory/Tiles takes the blocks as a list that fills the
--               heap, Ring the free list, WellFormed both together; FreeList, Flags, Cut, Split,
--               Join, Merge and Merges prove the steps against them, Alloc, Grant and Allocation
--               mm_alloc, Free mm_free, Init mm_init
--   Files       Kernel/proc/process.c, process_close_fds
--   Lifecycle   Kernel/proc/scheduler.c, schedule, save_context, scheduler_kill_by_pid and
--               scheduler_finish_current. Lifecycle/Dispatch is the choice of the next process,
--               Saving where the last one goes, Ending the end of a process, Waiters and Woken
--               the processes that wait for it, Foreground scheduler_get_foreground_pid, whom
--               Ctrl-C ends
--   Process     Kernel/proc/process.c, process_create and process_destroy, and
--               scheduler_spawn_process; the memory manager is a parameter. Process/Family is the
--               list of the children of a process, Listing what the shell shows of the processes
--   Syscalls    Kernel/syscalls/syscalls_kernel.c. Syscalls/Packing is the creation of a process and
--               the word that lib_process.c of the user land packs, Waiting syscall_wait, Ends the
--               calls on pipes (Ends/Open, Dup and Release what they make of a descriptor), Streams
--               the reads and the writes, Streams/Lines what a read of the terminal takes
--   Userland    Userland/SampleCodeModule/lib/utils, strings and numbers: Userland/Strings compares,
--               Userland/Numbers reads back what is printed, Userland/Format is sprintf
--   Shell       Userland/SampleCodeModule/shell/command_parser.c; Shell/Words has the arguments
--   Bytes       Kernel/lib/lib.c, memset, memcpy and strlen
--   Buddy       Kernel/mm/mm_buddy.c, allocation and release; Buddy/Xor has the exclusive or of an
--               offset and a size, Orders the orders and the buddies
--   Keyboard    Kernel/drivers/keyBoardDriver.c. Keyboard/Ring is its circular buffer, Keys the
--               translation of scan codes, Handler the interrupt handler
--   Tests       the theorems at concrete inputs
--
-- Correspondence. An operation keeps the name of its C function, takes the state first and returns
-- the new one with the answer; parts of a long function have names of their own. A pointer is a
-- number, 0 for NULL, and `p->f` is `f p`: there is a map from addresses to values for each field,
-- so that processes that two structures share are one process. A slot of a table is its index. An
-- enumeration is a data type, and a flag is a Bool. `none` stands for a pointer that is NULL where
-- the pointer would be a slot. The priorities are 0 to 2, and the code takes the largest number
-- for the highest; README.md, where it describes `nice`, says 0 to 4 with 0 for the highest.
--
-- Time and interleaving. Each operation runs as one step: the code masks interrupts or holds a spin
-- lock that one processor never finds taken. A call that may block answers `returns` or
-- `parks`; in the second case the process goes on behind the call when it is scheduled again. The
-- tick counter is the argument `now`.
--
-- Bounds. Numbers are natural numbers. The counters of 64 bits and the priorities of 8 bits wrap
-- as in C; the values of semaphores, the reference counts and the counts of readers and writers
-- are from 0 up to the largest `int`, and a negative initial value of a semaphore is not modelled.
-- Loops over tables run over their sizes (64 semaphores, 64 pipes). A walk along a queue has as
-- fuel the size of the heap, 0x20000000: the addresses of a queue are different and below it, so
-- no queue is longer. The transfers of a pipe take fuel as an argument and say `cut_off` where it
-- is used up, as does a read of the terminal. The aging of a ready queue has the fuel 32768 *
-- 32768: every process needs a stack of 16 KB, so that fewer than 32768 fit in the heap, and each
-- round moves on or shortens the queue. The free list of the heap and the lists of the buddies are
-- walked with the same fuel as a queue; a block of the buddies merges at most 32 times, a level at
-- a time, and the highest is 31. The block that `order_for` doubles stays below 2^64 for the base of
-- 64 bytes, and its wrap is not written out.
--
-- Not modelled. The contents of the stacks of a process, the dispatch table of the system calls
-- and those that draw, halt or sleep, mm_init of the buddy manager, the drivers of the screen,
-- interrupts, assembly, the boot loader, and the programs of the user land beside the parser of
-- the shell and the strings and numbers that it uses. `atoi` has no result where a sum
-- overflows an `int`. `schedule` names the processes that it destroys, and whether it clears the
-- keyboard buffer; the word that an interrupt pushes for the frame pointer is an argument.
pub mod Base
pub mod Queue
pub mod State
pub mod Scheduler
pub mod Semaphore
pub mod Pipe
pub mod Keyboard
pub mod Memory
pub mod Bytes
pub mod Buddy
pub mod Files
pub mod Lifecycle
pub mod Process
pub mod Syscalls
pub mod Userland
pub mod Shell
pub mod Tests

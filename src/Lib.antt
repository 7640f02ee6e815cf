-- ===== src/Lib.antt =====
-- The verification library of the repository: C code of two of its parts, the thread schedulers of
-- Threading-Scheduler, and the file system, the memory and the locks of FileSystem-RAID/kernel.
--
-- Threading-Scheduler/threads_sched.c has one function for each policy, which a user-level thread
-- library calls with the current time, the run queue and the release queue. Sched.antt has `struct
-- thread`, the arguments and the result; the threads are a heap from addresses to records, which only
-- the CBS scheduler changes, and a queue is a list of addresses. Sched/SmallestId is
-- `schedule_default` and `__check_deadline_miss`, Sched/Hrrn is `schedule_hrrn`, Sched/PriorityRr is
-- `schedule_priority_rr`, Sched/Dm is `schedule_dm`, Sched/Edf is `schedule_edf_cbs`; their children
-- hold the proofs, and Sched/Pick is the search for a best thread that the loops share. An int is an
-- exact integer, since overflow is undefined in C. The use of a null thread is `none`. The do-while
-- loop of `schedule_edf_cbs` runs on fuel, one round more than the queue has threads: each round that
-- goes on postpones the deadline of a thread that breaks its bandwidth and fills its budget, and from
-- then on that thread keeps its bandwidth. The `list_move_tail` of
-- Kernel-Memory/kernel/list.h, a copy of the list library of Linux, is a parameter.
--
-- FileSystem-RAID/kernel/bio.c is Bio.antt: `bcache` as 30 buffers, the list of their indices, the
-- most recently used first, and the disk. Bio/Raid and Bio/Recovery are about the two copies that
-- `bwrite` writes and `bread` chooses from under the simulated faults, Bio/Get about `bget`,
-- Bio/Invariant and Bio/Reach about all operations in any order. A call that meets a sleep lock of
-- another process has taken its reference by then, and returns that state; the process tries the lock
-- again later. Reference counts wrap around at 2 ^ 32.
--
-- FileSystem-RAID/kernel/log.c is Log.antt. It uses the buffer cache by `bread` and `bwrite` alone:
-- the cached contents and the disk are two functions, since pinned buffers are not evicted, and one
-- `bwrite` is one write of the disk. A crash is a run whose `power`, the number of disk writes that
-- are still made, ends. Log/Writes gives each procedure as a list of writes, Log/Values what lists of
-- writes leave, Log/Crash the disks that a crash can leave, Log/Commit and Log/Replay the commit and
-- the recovery, Log/Atomic the theorems, and Log/Space the reservation of `begin_op`. A waiting call
-- `sleeps` and is made again; spin locks make each step atomic.
--
-- FileSystem-RAID/kernel/pipe.c is Pipe.antt: the ring and its two counters, which wrap around at
-- 2 ^ 32. Pipe/Queue is the queue of bytes that it holds, Pipe/Transfer the two transfers. The user
-- memory that `copyin` and `copyout` reach is a parameter. A call that goes to sleep `waits`, and its
-- loop is made again from there.
--
-- Blocks.antt is the part of FileSystem-RAID/kernel/fs.c on blocks: `balloc`, `bfree`, `bmap` and
-- `itrunc`, inside a transaction with space in the log, so that the blocks are those of the buffer
-- cache. The loop of `balloc` over the blocks of the free map runs on as much fuel as the disk has
-- blocks, and one more. Blocks/Free is about the free map, Blocks/Map about `bmap`.
--
-- Icache.antt is the inode cache of the same file: `iget`, `idup`, `iupdate`, `ilock`, `iunlock`, `iput`
-- and `iunlockput`, with the inodes of the disk as a function from their numbers. Icache/Get is about
-- `iget`.
--
-- FileSystem-RAID/kernel/kalloc.c is Kalloc.antt: the free list as a list of addresses. `freerange`
-- runs on as much fuel as there are pages below its end, and one more; `end` of the linker script is
-- an argument. Kalloc/Pages is about `kfree` and `kalloc`.
--
-- FileSystem-RAID/kernel/string.c is Strings.antt, on a memory of bytes: Strings/Move is `memmove`,
-- Strings/Bounded the functions for strings with a bound. `strlen` runs on fuel, and gives nothing
-- where that ends before a zero byte.
--
-- FileSystem-RAID/kernel/file.c and the descriptors of FileSystem-RAID/kernel/sysfile.c are Files.antt:
-- `ftable` as a function from indices, and the descriptors of all processes as slots, descriptor `fd`
-- of process `pid` at `pid * 16 + fd`. Locks make each call a single step. Files/Count counts the
-- slots that refer to a file, Files/Returns has what each call leaves, Files/Steps that each call, and
-- the loop of `fork` in FileSystem-RAID/kernel/proc.c over the descriptors, keeps the counts right,
-- Files/Reach the calls in any order. Files/Transfer is `fileread`, `filewrite` and `filestat`, which compose the pipes, the inodes
-- and the memory of the process, with the table of the drivers as an argument, and Files/Pipes is
-- `sys_pipe`.
--
-- FileSystem-RAID/kernel/vm.c is Vm.antt: `walk`, `walkaddr`, `mappages`, `uvmunmap` and the kernel
-- mappings, Vm/User is the memory of a process, Vm/Copy the copies between the kernel and the user. A
-- page is used for entries or for bytes, which are two functions. `mappages` has as much fuel as there
-- are pages below MAXVA, and one more, since `walk` panics beyond. Vm/Transfer is about `copyin`,
-- Vm/Out about `copyout`, Vm/Mapped and Vm/Walk about a page that was mapped.
-- `freewalk` calls itself as deep as its argument `depth` allows; three levels are a whole table.
--
-- Contents.antt is `readi`, `writei` and `stati` of FileSystem-RAID/kernel/fs.c, with `either_copyout`
-- and `either_copyin` of FileSystem-RAID/kernel/proc.c: it composes `bmap` of Blocks.antt, the inode
-- cache of Icache.antt and the copies of Vm/Copy. The loops run on as much fuel as there are bytes to
-- copy, since each turn copies one at least. Contents/Layout to Contents/Mapped are about the blocks
-- that `bmap` gives to the positions of an inode, Contents/Bytes and Contents/Written about its bytes,
-- Contents/Loops about the loops, Contents/Extended about `writei`, Contents/RoundTrip about both.
--
-- Paths.antt is `dirlookup`, `skipelem` and `namex` of the same file, on the readi of Contents.antt and
-- the inode cache; a symbolic link before the end of a path makes `namex` call itself, as deep as its
-- argument `depth`, the stack of the kernel, allows. Paths/Elem is about `skipelem`. Names.antt is
-- `ialloc`, `dirlink` and `create`, Names/Calls the calls of FileSystem-RAID/kernel/sysfile.c that
-- change directories, Names/Modes `sys_chmod` and the links at the end of a path, which are followed
-- ten times at most. Open.antt is `sys_open`, from the path to the descriptor of Files.antt:
-- Open/Permission is about the file that a call installs, Open/Granted about the tests of the mode.
--
-- Wakeup.antt is `sleep` and `wakeup` of FileSystem-RAID/kernel/proc.c, as `acquiresleep` and
-- `releasesleep` of FileSystem-RAID/kernel/sleeplock.c call them. A process is at a turn between two
-- operations on spin locks, and a step is one such operation with what follows it, so that the
-- hand-over from the lock of the sleep lock to that of the process can be cut anywhere. Wakeup/Turns
-- and Wakeup/Sleeps are what each step keeps, Wakeup/Waiters the loop of `wakeup`.
--
-- Prelude.antt passes on the names that the modules share, with tests and lists over the native
-- numbers, integers and stores. Links.antt has the linked lists without their pointers.
--
-- Not modelled: the rest of the kernel (the life of processes, traps, device drivers,
-- `sys_exec`, the calls on raw blocks), the user programs and the image builder, the empty stubs of
-- Kernel-Memory/kernel/slab.c, and the second copy of the kernel in Kernel-Memory.
pub mod Prelude
pub mod Links
pub mod Blocks
pub mod Icache
pub mod Kalloc
pub mod Pipe
pub mod Strings
pub mod Sched
pub mod Bio
pub mod Log
pub mod Files
pub mod Vm
pub mod Contents
pub mod Paths
pub mod Names
pub mod Open
pub mod Wakeup

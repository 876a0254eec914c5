-- ===== src/Lib.antt =====
-- The kernel of the repository, an xv6 for RISC-V with system calls of its own (shared memory,
-- tracing, read-only and zero-filled regions), part by part, with what makes each part correct.
--
-- The files and the code they are about:
--   Base                numbers, Booleans, options, lists, results that may panic, integers
--   Kernel.Params       kernel/param.h, riscv.h, memlayout.h, fs.h: constants and rounding
--   Kernel.Strings      kernel/string.c on a memory, a function from addresses to bytes
--   Kernel.Kalloc       kernel/kalloc.c: the free list of pages, its links held apart from the
--                       bytes of memory
--   Kernel.Pipe         kernel/pipe.c: the ring buffer
--   Kernel.Log          kernel/log.c, bwrite of kernel/bio.c: the write-ahead log
--   Kernel.Proc         kernel/proc.c, proc.h: the process table
--   Kernel.Bio          kernel/bio.c, buf.h: the buffer cache
--   Kernel.Console      kernel/console.c: line editing
--   Kernel.Locks        kernel/spinlock.c, sleeplock.c
--   Kernel.Blocks       kernel/fs.c: the block bitmap, on-disk inodes, the blocks of a file
--   Kernel.Inode        kernel/fs.c: the table of inodes in memory
--   Kernel.Path         kernel/fs.c: skipelem, the elements of a path
--   Kernel.File         kernel/file.c and fdalloc of kernel/sysfile.c: open files
--   Kernel.FileData     kernel/fs.c: readi and writei, on the bytes of a file
--   Kernel.FileIo       kernel/file.c, stati of kernel/fs.c: fileread, filewrite, filestat
--   Kernel.Sysfile      kernel/sysfile.c: the system calls on a descriptor
--   Kernel.Dir          kernel/fs.c: dirlookup and dirlink, and isdirempty of kernel/sysfile.c, on the
--                       entries of a directory
--   Kernel.Virtio       kernel/virtio_disk.c, virtio.h: descriptors and requests of the disk's queue
--   Kernel.Pagetable    kernel/vm.c: page tables. The machine's memory is the allocator's, with a
--                       second view of it as page-table entries
--   Kernel.Uvm          kernel/vm.c: a process's memory grows, shrinks, is copied and is freed
--   Kernel.Transfer     kernel/vm.c: vmfault and the copies between a process and the kernel
--   Kernel.Space        kernel/proc.c, kernel/crear_memoria_compartida.c: a process's memory and the
--                       page that parent and child share
--   Kernel.Sysproc      kernel/sysproc.c: the system calls on a process's memory
--   User.Grep           user/grep.c: the matcher
--   User.Ulib           user/ulib.c: strings, numbers and byte moves
--   User.Printf         user/printf.c: printint, as the bytes that it writes
-- A definition has the name of the C function or type it models; a field has the name of the
-- member. The files below a part's own hold its theorems, and its Tests file runs them on small
-- states.
--
-- How state and control are modelled. A function that changes state takes the state and returns
-- it. panic() is a result of its own (Outcome). A function that may sleep ends its run with the
-- state in which it goes to sleep; the run after it wakes is another run. Locks are left out: what
-- a function does between taking a lock and letting it go is one step, as no other code that
-- takes the lock sees a state in between. Kernel.Log.Protocol has the steps of several processes
-- in any order; Kernel.Log.Crash keeps every state that the disk goes through. A uint wraps
-- around at 2 ^ 32, written out where the C code wraps. An int that only counts upwards from 0
-- within fixed bounds is a natural number.
--
-- How the parts interact. The log works on the cache's blocks and counts on bpin to keep them;
-- pipes take their page from the allocator and give it back; the console, pipes and the log put
-- processes to sleep and wake them on channels, which Kernel.Proc models.
--
-- Page tables get their pages from the allocator. The theorems about them go by roles: every page is
-- free, the root, a page table of level 1 or 0 for its indices, or the memory behind one page of
-- addresses (Owner). Sound says that the free pages and the tree of page tables keep to the roles,
-- Framed that so does the memory behind the addresses below a bound, which for a process is the
-- trapframe's page, as the trampoline above it is for the kernel's own code; lookup is the meaning of
-- an address.
--
-- Files count on inodes and pipes, which they let go of when the last reference is closed; inodes
-- keep their blocks by the bitmap.
--
-- A file's blocks stand in slots: twelve direct ones, the indirect block, and the 256 that it lists.
-- Placed says that they are in use and that none is in two slots, so that a write to one cannot change
-- another. The content of a file is a function from offsets to bytes, and reading, writing, directory
-- entries and the writes in pieces by filewrite are all stated on it. The theorems about what readi and
-- writei do to a file are for memory from which every byte can be copied; the definitions take any copy.
--
-- The volume notes each call of log_write in `logged`, the last one first. What the log does with
-- these calls, its panics included, is Kernel.Log's log_write: Kernel.Log.Replay runs a list of calls on
-- a log, and Kernel.Blocks.Logging and Kernel.FileData.Logging count the calls, at most six for each
-- block that writei writes and one for the inode. filewrite's transactions are those of Kernel.Log, whose
-- begin_op and end_op stand around each piece. The theorems about directories leave the log's room
-- aside.
--
-- Loops run by structural recursion on the rounds they have left, or on fuel: a string's length
-- up to a bound that the theorem asks for; freerange on the number of pages below its end; the
-- erasing of a line on its length; uvmalloc on the pages of the new size; copyin, copyout and
-- copyinstr on the number of bytes; skipelem on the length of the path; readi, writei and
-- filewrite on the number of bytes; dirlookup, dirlink and isdirempty on the bytes of the
-- directory; a chain of descriptors on their number; printint on 64 digits; balloc on the number of
-- blocks. The theorems about them show that this is enough; copyout's loop, which has none, takes rounds
-- like copyin's.
--
-- Parameters stand for what the code does not decide: what copyin and copyout give at each byte,
-- and whether the process is found killed; what a pipe or a device gives to fileread and filewrite,
-- behind the table devsw; where the disk driver's own data lies in memory.
--
-- Not modelled: device registers, start-up code and assembly; traps, the kernel's printing and exec;
-- the set-up of the kernel's own page table and vmprint; the dispatch of system calls; the walk along
-- a path and the system calls that take one; of printing, all but printint; malloc; the user programs but
-- grep's matcher; the disk image builder. Of a process, Kernel.Proc has the state, and Kernel.Space
-- the memory; trap frame, stack and open files are left out, so that freeproc and kfork are modelled
-- on the other members, and kexit from where it takes wait_lock on (kexit_locked): its test for init, the
-- closing of the files and the release of the directory come before.
pub mod Base
pub mod Kernel
pub mod User

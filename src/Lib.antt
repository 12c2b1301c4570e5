-- ===== src/Lib.antt =====
-- DamnOS and its file system DamnFS: a model of the C code, and what is proved of it.
--
-- The program is a small kernel with a user-level file server. The kernel keeps physical pages,
-- page tables and environments, schedules them, and serves their system calls; the file server
-- keeps the disk's super block, inodes and blocks in memory, and writes them back; pipes and the C
-- library functions run in every process.
--
-- * Fs (src/damnfs.c, src/damnfs.h): the state is the image in memory and the one on disk
--   (Fs/State); the bitmaps and the write-back of a block (Fs/Bitmap), the slots of a file
--   (Fs/Block), directories (Fs/Dir), path names and the operations that take one (Fs/Path), and
--   reading and writing (Fs/File). The operations have the names of the C functions, and return a
--   value, an error code, or a panic. A block is named by its number, and block 1 holds all inodes,
--   as in the code. Fs/Bitmap/Laws and Fs/Bitmap/Inodes, Fs/Block/Slots, and the modules below
--   Fs/File hold the proofs, each resting on those before.
-- * Cache (src/damnfs.c): the block cache below Fs, with the page table bits of its pages, the page
--   fault that brings a block in and the write-back. Fs itself works on whole images; Cache/Refine
--   relates the two. The answers of the kernel's calls and of the disk driver are a parameter.
-- * CString and Memory (src/string.c): strings are lists of bytes, with a read behind the end
--   written out; memory is a function from addresses to bytes, and the string instructions of the
--   assembly version step through it.
-- * Kernel (src/pmap.c, src/env.c, src/sched.c, src/trap.c): the state is the table of
--   environments, the current one, the pages with their counts and links, and the words of
--   physical memory (Kernel/State). Kernel/Pages, Kernel/Env and Kernel/Syscall hold the functions,
--   Kernel/Boot the set-up of memory, and Kernel/Trap the gates, the dispatch and the page fault of
--   a process, with the console, the devices and the memory of a process as a parameter. A call
--   returns, fails, panics, enters user mode, halts, or falls into the monitor.
-- * Pipe (src/pipe.c): the ring of 32 bytes. A read or a write runs until it returns or
--   yields. Pipe/Ends makes and closes the two ends, on the descriptor area of Descriptor.
-- * Format (src/stdio.c): the characters that vprintfmt puts, and what the several putch functions
--   do with them (Format/Sinks): into a buffer, to the console, to a descriptor.
-- * Console (src/console.c): the screen buffer with its cursor, the ring of input characters, and
--   the keyboard (Console/Keyboard).
-- * Server (src/serv.c): the table of open files, a handler for each request over the operations of
--   Fs, and the dispatch. The page that is shared with a client is a field of its entry, with the
--   number of references to it.
-- * Arguments (src/args.c): the state of the argument parser, with the strings behind the name of
--   the program. Arguments/Flags describes what a program reads with it.
-- * Descriptor (src/fd.c, src/file.c): the descriptor area of a process as pages, over a table of
--   devices with state of any type; Descriptor/File is the device of open files, over the messages
--   to the server, which are a parameter. Descriptor/Dup is about dup.
-- * Shell (src/sh.c): the tokens of a line (Shell/Token), the current directory (Shell/Path), and
--   the loop of runcmd with the choice of a command (Shell/Command). A write of cd behind the end
--   of an array is a result of its own. What the kernel and the file server answer is a parameter.
-- * Lock (src/spinlock.c): the big kernel lock as a step relation over any number of processors.
-- * User (src/fork.c, src/pgfault.c, src/ipc.c, src/wait.c): fork with copy-on-write on the page
--   tables of the process and its child; User/Entries follows one page, User/Cow the loop,
--   User/Fault a fault; User/Messages has the messages. What the kernel answers is a parameter.
-- * Bits and Prelude: words bit by bit, and the shared helpers.
--
-- Loops run on fuel that the code's own bound gives: the number of blocks or inodes for the
-- allocators, the number of bytes left for reading and writing (a round moves at least one), 1024
-- environments for the scheduler, the length of the format for vprintfmt, the value and one for the
-- digits of a number, the length of the line or path for the shell, the pages below USTACKTOP for
-- fork. Sizes and slots of an inode, and the slot that file_write asks for, are taken modulo 2 ^ 16,
-- counts of references modulo 2 ^ 16, and counts of runs, the numbers of open files and the end of a
-- write modulo 2 ^ 32. Offsets in a file are taken to be none below 0.
--
-- Not modelled: device and port I/O, assembly and start-up code other than the set-up of memory,
-- loading of programs (load_icode, spawn), reading of lines, what the shell and the monitor only
-- print, and the host tool src/damn_operate.c, whose header is not in the repository.
mod Prelude
pub mod Arguments
pub mod Bits
pub mod CString
pub mod Lock
pub mod Memory
pub mod Fs
pub mod Kernel
pub mod Pipe
pub mod Descriptor
pub mod Format
pub mod Console
pub mod Cache
pub mod Shell
pub mod User
pub mod Server

-- ===== src/Lib.antt =====
-- The S-O kernel: its memory managers, scheduler, semaphores, drivers and boot modules, its
-- libraries and some of its user programs.
--
-- Parts and files. Base holds the helpers: Boolean tests on the native numbers, lists measured by
-- them, total maps from addresses, 64-bit arithmetic. MemoryManager models Kernel/MemoryManager.c
-- as it is built without BUDDY, Buddy the same file with it, Semaphore models Kernel/semaphore.c,
-- KernelLib the memory functions of Kernel/lib.c, Printing its `printf` and that of
-- Userland/uCodeModule/lib.c, Modules Toolchain/ModulePacker/main.c and Kernel/moduleLoader.c,
-- UserLib and Strings parts of Userland/uCodeModule/lib.c, Scheduler Kernel/scheduler.c and
-- Kernel/process.c, Keyboard Kernel/keyboardDriver.c with the reads of Kernel/syscallManager.c,
-- Video Kernel/videoDriver.c, Pipe Kernel/pipe.c, Syscalls the rest of Kernel/syscallManager.c with
-- Kernel/timer.c, Boot Kernel/kernel.c and Kernel/idtLoader.c, Exceptions Kernel/exceptions.c,
-- Shell Userland/uCodeModule/shell.c, and Phylo, Tron, Filter, WordCount and Cat parts of phylo.c,
-- tron.c, filter.c, wc.c and cat.c beside it.
--
-- How they interact. Boot loads the modules, which calls `memcpy`, sets up the heap behind them and
-- makes the idle process on it. The processes reach the kernel through Syscalls, whose `Kernel`
-- puts the heap, the processes, the semaphores, the pipes and the screen together: `addProcess`
-- takes its blocks from the heap, `pipeOpen` and `pipeClose` open and close a semaphore,
-- `sys_write` draws text. Ctrl-C calls `kill_fground` and `process_ready` of the scheduler. The
-- shell edits a line, splits it into words and asks the kernel for what the words say.
--
-- MemoryManager. `Manager` is the `MemoryManager` struct together with the fields of all `MemBlock`
-- headers, as maps from addresses, and the figures of `info_Mem`. `initialize`, `malloc`, `free`
-- and `get_info_mem` are `initalizeMemoryManager`, `malloc`, `free` and `getInfoMem`; their loops
-- and blocks of statements are `walk`, `split`, `take_block`, `insert_free`, `merge_loop` and
-- others in MemoryManager.antt. MemoryManager/Header has the sizes of the header file,
-- MemoryManager/Blocks lists of blocks and list segments, MemoryManager/Rep what a manager stands
-- for, MemoryManager/Walk and MemoryManager/Link the pointer walks and the surgery on links,
-- MemoryManager/Malloc and MemoryManager/FirstFit `malloc`, MemoryManager/Free, MemoryManager/Merge
-- and MemoryManager/Release `free`, MemoryManager/Order the order of the free list,
-- MemoryManager/Client sequences of calls, MemoryManager/Accounts the figures. `size_t` arithmetic
-- wraps around at 2 ^ 64. The loops over the lists run on fuel: one more than the number of blocks
-- is enough, and `none` stands for running out.
--
-- Buddy. `Buddy` is `BuddyInfo`; a pointer into its blocks is an index. The functions have the
-- names of the source. Buddy/Log2 is about `log2` and the level chosen, Buddy/Pairs about
-- `getBuddy` and `free`, Buddy/Rows about the rows and `malloc` without free blocks. `log2` runs
-- for at most 64 rounds, the width of a `size_t`.
--
-- Semaphore. Semaphore/Table is the table `semaphores` with `sem_open`, `sem_post` and `sem_close`
-- for one caller at a time; a name is the list of its bytes, which the 1024 bytes of the entry must
-- hold. Semaphore/Names and Semaphore/Users are about its names and users, Semaphore/Open about
-- sequences of calls. Semaphore/Protocol is `sem_wait` and `sem_post` on one entry as atomic steps
-- that any process may take at any time: each exchange, compare-and-exchange loop and read is one
-- step, and `sem->value--` is two, a load and a store. Semaphore/Safety is about what holds in
-- every reachable state, Semaphore/Stuck about the value 0.
--
-- KernelLib, Modules, UserLib, Strings. Memory is a map from addresses to bytes, a file a list of
-- bytes. KernelLib/Copy is about `memset` and `memcpy`. Modules has `build_image` for `buildImage`
-- and `load_modules` for `loadModules`; Modules/Image is about reading the image, Modules/Load
-- about the loader, whose loop runs as often as the count in the image says. UserLib has the
-- decimal conversions and `strlen`, with UserLib/Digits on their loops and UserLib/Decimal on the
-- functions, and `uintToBase`, with UserLib/Turn on its second loop and UserLib/Radix and
-- UserLib/Letters on the text. 20 rounds are enough for the decimal digits of 64 bits, 64 rounds
-- for the digits in any base, and 23 characters for a decimal number and its end. Strings has
-- `strcpy`, `strncpy`, `strcat`, `strncat` and `strcmp`, with Strings/Copying, Strings/Joining and
-- Strings/Comparing about them, Strings/Searching `strchr` and `strncmp`, Strings/Kernel `strleng`
-- and `strcpy` of Kernel/lib.c; fuel above the lengths of the texts is enough.
--
-- Scheduler. `Sched` is the file's variables together with the fields of all `node` and `process`
-- structs, as maps from addresses. Scheduler/Nodes has `findNext`, `findNode`, `insertNode`,
-- `addProcess`, `removeNode` and the changes of one process, Scheduler/Processes `createProcess`
-- and `wait_pid` with what `malloc` returns as an argument, Scheduler/Switch `killProcess`,
-- `killFgroundProcess` and `schedule`. A call of `_forceScheduler` comes out as `raised`.
-- Scheduler/Creation has `createProcess`, `copy_args`, `freeProcess` and `addProcess` on the heap.
-- Scheduler/Ring is about the ring as a list of nodes, Scheduler/Choice about the process that
-- `schedule` picks, Scheduler/Turns about processes that yield, Scheduler/Removal about killing and
-- pids, Scheduler/Heap and Scheduler/Blocks about the heap, Scheduler/Leaks about what is given
-- back. The walks run on fuel: one more than the number of links to what is looked for is enough.
--
-- Keyboard. Keyboard/Driver has `saveKey`, `getKey` and `readBuf`; a store outside of the key
-- buffer is `none`. Keyboard/Reading is `getKbdBuffer` and `sys_read` on a list of halts, each with
-- the codes of the interrupts that come at it; when the list ends, the process still halts.
-- Keyboard/Keys and Keyboard/Room are about the loop of `readBuf` and the caller's buffer,
-- Keyboard/Rounds about one key, Keyboard/Lines about a line, Keyboard/Overflow about too many
-- keys. `readBuf` runs for at most as many rounds as there are keys.
--
-- Pipe. The functions of Kernel/pipe.c work on a copy of an entry of the table, so none returns a
-- table. Pipe/Table has `pipeOpen` and `pipeClose`, Pipe/Boot is about the table after the boot,
-- Pipe/Data about the bytes of a pipe in use. The loops run for at most `n` rounds.
--
-- Video. The frame buffer is a map from pixel numbers to colours. Video has the rectangles,
-- Video/Text `printChar` and `printStringAt`; Video/Rectangle is about `fillrect`,
-- Video/Text/Numbers has `uintToBase`, `printBase` and `printBin`; Video/Cursor is about the line
-- of the cursor and the scrolling. The loops over a character run for 16 rows and 8 columns.
--
-- Printing. What is written is a list of bytes. Printing has `numToBase`, `print` and `printf`,
-- Printing/User the copies of the user library with `puts` and `scan`; Printing/Formats is about
-- formats part by part, Printing/Numbers about the digits. 64 rounds are enough for the digits of
-- 64 bits.
--
-- Syscalls. Syscalls/Thin has the calls that pass on to one function, Syscalls/Names those on the
-- semaphores, Syscalls/Source where `sys_read` reads from, Syscalls/Kernel `sys_write` and
-- sequences of calls, Syscalls/Clock the waits and `sys_timedRead` on a list of halts,
-- Syscalls/Speaker the sounds. Syscalls/Tables, Syscalls/Display, Syscalls/Sound and Syscalls/Runs
-- are about what the calls keep, Syscalls/Waiting about how long they wait. Each call of `malloc`
-- and `free` takes at most one more unit of fuel, and `addProcess` five and two for each argument.
-- Boot. Boot/Idt is `load_idt`, Boot/Start `initializeKernelBinary` and `init_scheduler`;
-- Boot/Session is about the calls behind the boot. Exceptions is `exceptionDispatcher`, and
-- Exceptions/Shown what an exception leaves on the screen.
--
-- Shell. Shell has `bufferRead`, and Shell/Editing its reference, a line that is a list.
-- Shell/Parsing is `parseString`, Shell/Words the words of a text, Shell/Splitting the two
-- together. Shell/Names has the names of the commands, Shell/Commands `readBuffer`, as the list of
-- what it asks for, Shell/Running what it makes of a line, Shell/Pipes `pipeCmd`, Shell/PrintMem
-- `printmem`. Fuel above the length of the line is enough.
--
-- Phylo. A philosopher's sections under MUTEX are steps of a relation between tables; Phylo/Forks
-- is about the states of neighbours, Phylo/Core about states and semaphores, Phylo/Meals about
-- eating. Tron. A game is a list of keys, one for each round; Tron/Start is about its start,
-- Tron/Cells about the free cells, Tron/Rounds about how long it lasts. Filter is `filter`, on the
-- pairs of bytes that `read` gives; its second loop needs one round more than there are characters.
-- WordCount is `wc` and Cat is `cat` in the same way. UserLib/Clock is timer.c, the text of a time
-- and of a date; UserLib/Dates is about the time.
--
-- Not modelled: the reading of the clock, the registers that are shown, the lists of processes and
-- pipes, the drawing of the table of the philosophers and of tron, which are output;
-- `readDecimalInput` and the assembly. The boot loader and the BMFS utility are other projects.
pub mod Base
pub mod MemoryManager
pub mod Buddy
pub mod Semaphore
pub mod Boot
pub mod Cat
pub mod Exceptions
pub mod Filter
pub mod KernelLib
pub mod Keyboard
pub mod Modules
pub mod Phylo
pub mod Pipe
pub mod Printing
pub mod Scheduler
pub mod Shell
pub mod Strings
pub mod Syscalls
pub mod Tron
pub mod UserLib
pub mod Video
pub mod WordCount

-- ===== src/Lib.antt =====
-- A verification library for PolarisOS, a small 32-bit x86 kernel in C.
--
-- How the program hangs together: src/lib holds data structures (a bitmap over bytes, a byte ring,
-- an intrusive linked list) that the kernel links. src/kernel/memory.c hands out physical pages by an
-- array of counts and virtual kernel pages by a bitmap, and keeps the page tables. src/kernel/task.c
-- switches between tasks, which block in lists: of locks (mutex.c), of the requests of a disk (device.c),
-- of the buffers of its blocks (buffer.c). src/fs finds free zones and inodes in bitmaps that lie in such
-- buffers, reads files through the zones of their inodes, and passes bytes through pipes. The files:
--
-- - Prelude: tests on numbers, arrays with checked access, bits of a byte, and results of code that
--   can stop. `none` is a failed assertion, a panic, or an access that the code must not make.
-- - Bitmap: src/lib/bitmap.c. The record holds the bytes behind the pointer. Indices are u32 with
--   their wrap-around; the theorems take maps whose indices stay below 2^31.
-- - Fifo: src/lib/fifo.c. Fifo/Queue has the queue that a ring holds, Fifo/Refine the proofs.
-- - LinkedList: src/lib/list.c. A store maps a cell to its two links; a list is described by the
--   nodes between its sentinels (LinkedList/Linked). The walks of list_search, list_size and
--   list_insert_sort run on fuel; one round more than there are nodes is enough, and the theorems
--   that say what a walk returns take any such fuel. The key of list_insert_sort is a function of the
--   node, where the code adds an offset to its address.
-- - Memory: src/kernel/memory.c. memory_map is a list of counts; `pte d t` is what the code
--   reads at the recursive mapping of the page tables. Memory/Paging has the functions on page tables,
--   Memory/Boot the ones that run once, Memory/Zones the choice of the usable zone, from a list of
--   entries in place of the loader's bytes. Memory/Occupy has the counts that the boot sets. The array memory_map is as long as there are pages; its padding
--   is not read. The bytes of pages are not modelled. The loop of sys_brk has one round for each byte
--   that it gives up, more than it needs, as a round covers a page.
-- - FileSystem: src/fs/bmap.c, the bitmaps of zones and inodes of one device whose super block has
--   been found, and (FileSystem/Zones) bmap, with the words of every block as the cache holds them.
--   The loop of bmap is a recursion on its level.
-- - Files: src/fs/file.c without sys_read and sys_write, and the two functions on descriptors of
--   src/kernel/task.c. The state is the table of open files and the descriptors of the running task;
--   inode_open is an argument of sys_open, and the calls of iput are recorded. The references that
--   other tasks hold are a parameter of the invariant (Files/Refs).
-- - Strings: src/lib/string.c. A pointer is the list of the bytes from it to the end of its object.
-- - Lock: src/kernel/mutex.c. One lock and the points at which its tasks stand, with a relation of
--   steps: a task runs from one point to the next alone. Between mutex_lock and the writes that follow
--   it in lock_acquire, and between those of lock_release and mutex_unlock, other tasks can run. The
--   assertions of task_block and task_unblock, and that on a value just written, are left out.
-- - Calendar: src/kernel/time.c and the bcd conversions of src/lib/stdlib.c. Calendar/Days has a
--   calendar that counts days by the Gregorian rule.
-- - Console: src/kernel/console.c. The memory of the display is a function from addresses; the registers
--   of its controller are four bytes. Addresses stay below 2^20 where the cursor is on the screen, so
--   that only the subtraction of get_cursor is written with its wrap-around.
-- - Pipe: src/fs/pipe.c and get_pipe_inode of src/fs/inode.c, as the steps of one reader and one writer
--   over the byte ring. A task runs alone until it blocks or returns, as system calls run with
--   interrupts off. The state also records what was handed to the reader, and sums up the calls.
-- - Device: src/kernel/device.c. The table of devices, whose handlers are functions on a state that the
--   model leaves open; and (Device/Elevator) the list of requests of one disk over LinkedList, where the
--   halves of device_request before and behind do_request are steps. The walk of list_insert_sort has
--   one round more than there are requests.
-- - Tasks: src/kernel/task.c. A task is its index in the table, and the lists that tasks stand in are
--   sequences (LinkedList has the links). The switch of stacks is the change of the current task.
--   Tasks/Family has fork, exit and waitpid as far as the table goes; whether the allocations of memory
--   of a fork return is an argument. Assertions on the magic number and on interrupts are left out.
-- - Cache: src/kernel/buffer.c without bread and the bytes of the blocks. A buffer is its index, lists are
--   sequences, and the size of a buffer_t is a parameter. The part of getblk behind get_free_buffer is a
--   function of its own (`claim`), as a task that has waited goes on there. The wake at the end of brelse
--   is followed as far as the assertion of list_remove.
-- - Names: match_name of src/fs/namei.c.
-- - FileData: inode_read of src/fs/inode.c. The zones of the file and the bytes of the disk are functions;
--   the loop has one round more than there are bytes to read.
--
-- Not modelled: assembly and the drivers (ports and tables of hardware codes), formatted
-- output, user programs; and so far copy_pde, free_pde, sys_mmap and sys_munmap of memory.c, sys_read and
-- sys_write of file.c, bread of the buffer cache, the rest of inodes and most of the walk over
-- directories. src/lib/vsprintf.c is taken from Linux.
pub mod Prelude
pub mod Bitmap
pub mod Fifo
pub mod LinkedList
pub mod Memory
pub mod FileSystem
pub mod Files
pub mod Strings
pub mod Lock
pub mod Calendar
pub mod Console
pub mod Pipe
pub mod Device
pub mod Tasks
pub mod Cache
pub mod Names
pub mod FileData

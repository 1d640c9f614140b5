-- ===== src/Lib.antt =====
-- Lithium, a small 64-bit kernel in C: the parts of it that are modelled here, as functions that can
-- be evaluated, and what holds of them.
--
-- The program. The physical frame allocator (kernel/mm/pmm.c) owns the memory that the boot loader's
-- map lists; the heap and the page tables take frames from it. The file system (kernel/fs/vfs.c)
-- keeps a tree of vnodes in memory, with the contents of files in buffers from the heap, and a table
-- of open files for each task. System calls (kernel/syscall/syscall.c) resolve paths against the
-- task's directory and call the file system. The keyboard driver (drivers/char/ps2kbd.c) decodes
-- scancodes into a ring buffer; output goes through lib/kprintf.c to the screen
-- (drivers/char/vga.c) and the serial port. lib/string.c serves all of them.
--
-- The files.
--   Prelude: Boolean tests on numbers, lists over the native numbers, arrays as functions, the
--     outcome of code with assertions (`halted` is a failed KASSERT or a panic).
--   Pmm: kernel/mm/pmm.c. The static variables are the record `Pmm`, the bitmap an array of bytes;
--     pmm_alloc_frame is `alloc_frame`, and so on without the prefix. Pmm.Boot is pmm_init from the
--     entries of a memory map on.
--   Vmm: kernel/mm/vmm.c. Memory is an array of pages of 512 words, which the kernel reads at physical
--     addresses; a table is the address of its page, an entry a number. Vmm.Space makes, destroys and
--     clones address spaces, Vmm.Fault is the copy-on-write fault. Vmm.Tree is the shape of the tables,
--     a place in a tree of four levels for each; Vmm.Walk, Grow, Leaf and Data say what a change of an
--     entry or of a page does to it and to the translations.
--   Heap: kernel/mm/heap.c. The words of the heap stand at virtual addresses, and the fields of a slab
--     header are read from them. Heap.Calls are kmalloc, kzalloc, kfree and krealloc, on the page
--     tables of Vmm; Heap.Slab is one slab, Heap.Inv all of them.
--   Path: path_pop, path_push, normalize_absolute_path and resolve_path of
--     kernel/syscall/syscall.c. Path.Spec has the independent description, a walk over names.
--   Vfs: kernel/fs/vfs.c. Vfs.Tmpfs is the contents of a file, Vfs.Node the tree and the lookup of
--     paths, Vfs.Calls the calls on whole files and directories, Vfs.Files the table of open files.
--     A vnode is its number in a list; the pointers between siblings are the list of the children.
--   Keyboard: drivers/char/ps2kbd.c. The static variables are `Decoder` and `Ring`; kbd_poll takes
--     what the ports give as a list.
--   Tasks: kernel/sched/task.c. A task is a number, `Tasks` the static variables with the fields of all
--     tasks; the lists linked by all_next and zombie_next are lists. task_waitpid is one round of its
--     loop, between two calls of the scheduler; a pid of -1 is `none`, and the pids and options that
--     it refuses at once are not passed to it. task_free is the list of the tasks that are freed.
--   Elf: kernel/proc/elf.c, on the frames and page tables of Vmm. Headers are records of the fields that
--     are read, and the program headers are a list; the image is a function from offsets to bytes.
--   Sched: kernel/sched/sched.c. The ring is the function from a task to the next one; schedule returns
--     the task to switch to, without the switch.
--   Exec: place_exec_string, push_exec_qword and build_exec_stack of kernel/syscall/syscall.c, on the
--     bytes of one page.
--   User: user_range_ok, user_page_for_copy, copy_from_user, copy_to_user and copy_user_string of
--     kernel/syscall/syscall.c, on the page tables and the memory of Vmm. User.Reads and User.Strings
--     describe the user's memory one byte after the other. User.Memory is sys_brk, sys_mmap and
--     sys_munmap, with the fields of the current task that they read.
--   Str: lib/string.c, on a memory of addresses. Str.Scan has the functions on strings with a
--     terminator.
--   Print: print_uint and print_int of lib/kprintf.c, as the characters printed.
--   Vga: drivers/char/vga.c, the screen's cells as an array.
--   The module Examples of each part applies its theorems to concrete values.
--
-- Numbers. An address or a length in the frame allocator is a 64-bit number, with the wrap-around of
-- additions written out. Sizes of files and buffers are natural numbers without a bound, and the
-- conversion of a count to int keeps its 32 bits; the theorems about them ask for less than 2 ^ 30
-- bytes, where an int is not negative and krealloc gives all that a file asks for.
-- A C string is the list of its bytes before the terminator. The allocator's answers to a call
-- (`Memory`) and the readings of ports are arguments, whatever they are.
--
-- A run below the heap (`Run`) ends with a result, an error or a failed KASSERT; the heap's own calls
-- (`Answer`) give a result or NULL.
--
-- Loops. Loops with a bound are recursion on the rounds that are left. normalize_from and
-- lookup_from run on fuel, one round more than the path has bytes, which is enough because every
-- round consumes one at least; find_prev makes as many rounds as the ring
-- has tasks; find_slab makes one round
-- more than there are slab pages; digits runs on the 64 places of the buffer, enough for 64 bits. The
-- theorems about these functions hold without a premise on the fuel. The copies from and to the user
-- run on as many rounds as there are bytes, since each round copies one at least. The loops of lib/string.c that wait for
-- a terminator run on fuel, and their theorems ask for more fuel than the string has bytes.
--
-- Not modelled: vmm_init and the TLB, the creation of tasks, the switch between tasks, ACPI, the
-- other system calls, the shell and the user programs, and all code that only drives ports or prints.
-- Walking the boot loader's structures in memory is left out, as is the tree that vfs_init builds.
-- The file system's lookup copies at most 255 bytes of a path; for a longer one the C code reads past
-- the bytes copied, and no theorem is about such a path.
pub mod Prelude
pub mod Pmm
pub mod Vmm
pub mod Heap
pub mod User
pub mod Keyboard
pub mod Path
pub mod Elf
pub mod Sched
pub mod Exec
pub mod Str
pub mod Tasks
pub mod Vfs
pub mod Vga
pub mod Print

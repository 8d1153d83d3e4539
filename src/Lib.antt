-- ===== src/Lib.antt =====
-- A model of NarOS, a 32-bit i386 teaching kernel, and what is proved about it.
--
-- The kernel's C code is translated function by function: a function that changes state takes the
-- state as a record and returns the new one, pointers are addresses or positions, and a machine word
-- is a natural number with its wrap-around written out. `none` is a NULL pointer where C returns one,
-- a failed assert, which panics, or what C leaves undefined; each file says which. Interrupts and
-- other tasks do not run in the middle of a modelled function, save in Device/Sharing, where the steps
-- of several tasks on one device come in any order.
--
-- The parts and their files:
--   CString     lib/string.c: comparison and search in strings, used by the file systems.
--   Bitmap      lib/bitmap.c: bits in an array of bytes.
--   Mem         kernel/mem.c: the page frame allocator and its layout at boot (memory_init, get_page,
--               put_page), the kernel's break (ksbrk, kbrk) and a user's break (sbrk). The frame map
--               is the function from page index to count. Mem/Paging has the page tables: the words
--               of memory that hold entries, the translation of the processor, the page fault
--               (page_int), the tables of the kernel (kernel_pte_init) and the
--               directory of a user's task (init_user_mm_struct) with the copy into its memory
--               (copy_to_mm_space). get_paddr reads the tables at virtual addresses, through the
--               running task's pde and the recursive window.
--   KHeap       kernel/heap.c: malloc, free, calloc and realloc, a list of headers that grows and
--               shrinks by the break of Mem. Headers are entries of a store from address to header.
--   Interrupt   kernel/interrupt.c: the interrupt controllers and the table of handlers.
--   Apic        kernel/cpu.c: the switch to the local interrupt controller, as the words it writes; the
--               word it reads at APIC_BASE is an input. Apic/Wake has ap_init, over the page tables.
--   Keyboard    device/keyboard.c: the interrupt handler with its buffer of one byte, and the read.
--   Device      kernel/dev.c: the table of devices, which drivers install and whose calls go to the
--               driver. A driver's function is an address; what it does is the parameter `call`.
--   Rootfs      kernel/fs/rootfs.c: the root file system, whose device nodes call Device and whose
--               mounts hand over to another file system.
--   Vfs         kernel/fs/vfs.c: descriptors, and the calls on files over the tables of operations,
--               which are records that any file system can fill; Rootfs fills them, and vfs_init
--               builds what Rootfs holds after the boot.
--   Globa       kernel/globa.c: the table of segments; and the gates that kernel/interrupt.c fills.
--   Task        kernel/task.c: the ring of process control blocks, task_init, the first frame of a task,
--               schedule, task_create and task_exit.
--   Exec        sys_exec of kernel/task.c: a user's task, over Task and Mem/Paging. A function to run is
--               the list of its bytes.
--   Start       init of kernel/main.c: the order in which the parts start, what each then finds of the
--               others, the first user's task from the boot to its end, and the files that it
--               opens. The pages of the kernel's heap that are written to for the first time take
--               frames by page faults; their addresses are lists that init takes (touch_all).
--   Tty         device/tty.c: the text screen and its cursor.
--   Vsprintf    lib/vsprintf.c: formatted output; what is written is a list of bytes. The digits of
--               floating point numbers are a parameter.
--   Printk      kernel/printk.c and lib/stdio.c: formatted output on the terminal, through Vsprintf,
--               Device and Tty; for programs, through Syscall.
--   Ata         device/ata.c and kernel/fs/fat/diskio.c: the disk driver, over the readings of the
--               status register and the words of the data port, and the disk functions that FatFs calls.
--   Syscall     kernel/syscall.c and lib/unistd.c: the table of system calls and the way to it.
--   Fat         kernel/fs/fat.c: the FatFs library as a file system of Vfs, with its memory from KHeap.
--               The library is a record of functions, a parameter.
--
-- Each part has its definitions in the file of its name, its theorems in the files below it, and runs
-- on concrete inputs in Tests. Prelude has what they share: tests on numbers, lists, words and bits.
--
-- Bounds: a loop over an array takes the rounds that are left as a number, which is the array's length.
-- The walks in the heap's list are bounded by a number that is larger than the number of blocks of a
-- well-formed heap. The walk of task_exit takes no more rounds than the ring has other tasks, and
-- the loop of schedule takes two; both are proved. Loops over strings and lists are recursion on the string or the list.
--
-- The loop over a format ends within as many rounds as the format has characters, and 32 rounds are
-- enough for the digits of a word; both are proved.
--
-- Not modelled: the FatFs library and the 64-bit arithmetic, which are copies of other projects; inline
-- assembly and assembly; the buffers of address translations; the abandoned file system of kernel/fs/nafs.
pub mod Prelude
pub mod CString
pub mod Bitmap
pub mod Mem
pub mod KHeap
pub mod Interrupt
pub mod Keyboard
pub mod Device
pub mod Rootfs
pub mod Vfs
pub mod Task
pub mod Tty
pub mod Vsprintf
pub mod Ata
pub mod Syscall
pub mod Fat
pub mod Globa
pub mod Printk
pub mod Apic
pub mod Exec
pub mod Start

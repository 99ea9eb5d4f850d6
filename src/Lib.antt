-- ===== src/Lib.antt =====
-- Velora_OS, a small x86_64 kernel: a model of its core logic, and what is proved of it.
--
-- The program. The scheduler (src/scheduler/mod.rs) runs at most 16 threads round robin; a thread may
-- have an address space of its own, up to four open files, and a pid that packs its slot and the slot's
-- generation. A switch (src/scheduler/context.rs) saves the callee-saved registers on the old stack and
-- restores them from the new one. src/memory.rs hands out physical frames, walks page tables to check
-- pointers from ring 3, and builds and frees isolated address spaces; a thread that exits leaves a zombie
-- whose address space is freed at the next scheduling decision. src/fs.rs reads files from a FAT16 volume,
-- which `open` and `spawn` use. src/task/keyboard.rs turns decoded keys into bytes for `sys_read`, and
-- src/vga_buffer.rs is the screen.
-- src/syscall.rs is how ring 3 reaches all of these: `int 0x80` enters `entry`, which saves the registers
-- and calls `dispatch`. src/ata.rs reads the sectors of the disk by polling, and src/task/executor.rs runs
-- the kernel's own cooperative tasks. src/userspace.rs assembles small programs for demonstration.
--
-- The files.
-- Base: shared names, tests, lists over the native numbers, bits, checked words, circular buffers
-- (Base/Ring), and `Outcome`: a failed assert, expect or index is `panic`; `stuck` is a loop of the model
-- out of fuel.
-- Scheduler/Queue: ReadyQueue. Scheduler/State: the threads and the state behind SCHEDULER, pack_pid,
-- unpack_pid, thread_alive. Scheduler/Core: what schedule (`rotate`), exit_current_thread (`retire`),
-- reap_zombie (`take_zombie`) and spawn (`populate`) do under the lock. Scheduler/Invariant and its child:
-- the invariant of the state. Scheduler/Steps: any interleaving of these operations. Scheduler/Leaks: an exit with a cleanup pending.
-- Scheduler/System: the whole of schedule, reap_zombie, exit_current_thread, spawn and
-- spawn_isolated_inner around these sections.
-- Scheduler/Settled and its children: the page table in CR3 across scheduling decisions.
-- Scheduler/Fairness: the round robin. Scheduler/Pids: the life of pids.
-- Scheduler/Files: open_file, read_open_file, close_file.
-- Scheduler/Context: switch_to instruction by instruction, and build_initial_stack.
-- Memory/Paging: what is used of the x86_64 crate, as an interface with laws. Memory/Frames:
-- BootInfoFrameAllocator. Memory/Walk: translate_addr, page_accessible, user_range_mapped, and
-- user_range_ok of src/syscall.rs. Memory/Spaces:
-- new_address_space, free_address_space, free_table.
-- Fs/Volume and Fs/Read: the volume's layout, 8.3 names, the root directory, cluster chains, read_file.
-- Fs/Chains: the chain's loop. Fs/Directory: the root directory as one list. Fs/Contents: the bytes of a file.
-- Interrupts: the descriptor table and the handlers.
-- Elf/Reads, Elf/Segments, Elf/Loader: src/elf.rs; Elf/Contents: the memory of a mapped segment; the x86_64 crate's `map_to` is a parameter.
-- Ata: the driver; Ata/Sectors: a drive that answers, and the sector that fs.rs asks for. Fs/Names: 8.3
-- names. Executor: TaskId, Executor::spawn, wakers and run_ready_tasks. Userspace: build_echo_shellcode and
-- build_test_elf. Userspace/Demos: the machine code of the other demonstrations.
-- Userspace/Pages: map_shellcode_page and map_demo_page. Userspace/Ring3: enter_ring3. Heap: init_heap of src/allocator.rs.
-- Syscall/World: what a call reads and changes (kernel, input queue, screen, frames), and how it may end,
-- with the bracket around CR3, with_current_thread and kill_current_thread. Syscall/Access and
-- Syscall/Copy: the memory of the caller through its page table, copy_from_user, copy_to_user; Syscall/Copy/Rounds: one after the other.
-- Syscall/Io: sys_write, sys_read, sys_open, sys_close; Syscall/Io/Files: opening and reading a file. Syscall/Process: sys_spawn, sys_wait, dispatch.
-- Syscall/Entry: `entry` on a machine of registers and words. Syscall/Moves and its children: what every
-- call keeps.
-- Vga: the Writer; Vga/Scroll: its loops. Keyboard: InputQueue and the handling of a decoded key.
-- Keyboard/Scancodes: the raw queue, add_scancode, print_keypresses. Keyboard/Loop: the executor's thread in
-- single steps. Keyboard/Wakeups and its children: the invariant of these steps; Keyboard/Idle: what follows.
-- The files named Tests hold runs on concrete values.
--
-- Bounds and fuel. `user_range_mapped` has one round for each page of its range, and the loop of
-- `read_file` one round more than the file has sectors (`read_file` gives it as many). The loop of `sys_wait` has a round for each time
-- that the caller yields, and `run_ready_tasks` one for each queued wakeup and one more. The polling loops
-- of src/ata.rs have the source's ten million attempts. A word of 64 bits wraps or is checked as the
-- source has it; stack pointers are within 64 bits.
--
-- Not modelled: the heap's inner structure and the locks (a critical section is one operation of the model),
-- the TLB, the GDT, the serial port, boot code, and how the demonstrations are run.
-- `schedule` and `exit_current_thread` run with no interrupt between their cleanup and their lock, as from
-- an interrupt or a system call; in Scheduler/Steps the two critical sections are steps of their own. A call's view of other threads, while it
-- waits, is a parameter, and so are the x86_64 crate's mappers,
-- futures, crossbeam's ArrayQueue, futures_util's AtomicWaker, pc_keyboard's decoder, from_utf8, and what the drive answers on its ports. Page
-- tables are a function from a frame and an index to an entry. A generation counter that reaches 2 ^ 56 no
-- longer fits a pid.
pub mod Base
pub mod Ata
pub mod Elf
pub mod Executor
pub mod Fs
pub mod Heap
pub mod Interrupts
pub mod Keyboard
pub mod Memory
pub mod Scheduler
pub mod Syscall
pub mod Userspace
pub mod Vga

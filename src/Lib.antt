-- ===== src/Lib.antt =====
-- A model of the JOS kernel of this repository (jos/kern, jos/inc) and of the library code that
-- it shares with user programs (jos/lib): physical pages, page tables, environments, the
-- scheduler, system calls, message passing, traps, spin locks, the console, debug information,
-- multiprocessor tables, the monitor's command line, formatted output, strings and numbers, the
-- devices at the level of their ports and registers, the segments, the start of the processors,
-- the boot loader (jos/boot), and the stubs and the fork of user programs.
--
-- The parts and how they interact. The page allocator (kern/pmap.c) gives pages to the virtual
-- memory routines of the same file, which build the two-level page tables; environments
-- (kern/env.c) own a page directory each and are switched by the scheduler (kern/sched.c); a
-- trap (kern/trap.c) takes the big kernel lock, dispatches to a system call (kern/syscall.c), a
-- fault handler or the scheduler, and leaves by running an environment. All of them change one
-- state, the record Kernel of Kern/State.antt, in the monad of Kern/Monad.antt: code returns,
-- or it stops at a panic, a NULL pointer, the monitor, a halt, or a return to user mode.
--
--   Base and Base/*: Boolean tests, lists, bits, updates and signed results over the native
--     numbers.
--   Kern/Mmu.antt, Kern/State.antt: jos/inc/mmu.h, memlayout.h, env.h, trap.h, error.h. PGNUM,
--     PDX, PTX, PTE_ADDR are pgnum, pdx, ptx, pte_addr, and a constant has its name in lower
--     case.
--   Kern/Pmap.antt: jos/kern/pmap.c and pmap.h, boot_alloc, page_init, page_alloc, page_free,
--     page_decref, pgdir_walk and the address conversions; proofs in Pmap/FreeList, Pmap/Alloc,
--     Pmap/Init.
--   Kern/Vm.antt: the rest of jos/kern/pmap.c, page_lookup, page_remove, page_insert,
--     boot_map_region, mmio_map_region, user_mem_check. Vm/Tree has the abstract view, the
--     translation of an address; Vm/Walk, Vm/Remove, Vm/Grow, Vm/Insert, Vm/NewTable and
--     Vm/UserMem the proofs against it.
--   Kern/Env.antt: jos/kern/env.c, envid2env, env_init, env_setup_vm, env_alloc; proofs in
--     Env/Ident and Env/Init. Env/Load: load_icode and env_create. Kern/Exit.antt: env_free and
--     env_destroy of the same file.
--   Kern/Boot.antt: region_alloc of jos/kern/env.c, mem_init and mem_init_mp of
--     jos/kern/pmap.c; the linker's addresses are arguments.
--   Kern/Sched.antt: jos/kern/sched.c with env_run and env_pop_tf; proofs in Sched/Choice,
--     Sched/Switch and, for many turns, Sched/Fair.
--   Kern/Syscall.antt, Kern/Ipc.antt: jos/kern/syscall.c, a function for each sys_ routine, and
--     syscall; proofs in Syscall/Perm, Syscall/Printed (what sys_cputs prints), Syscall/Cputs,
--     Ipc/Message, Ipc/Transfer.
--   Kern/Trap.antt: jos/kern/trap.c, trap, trap_dispatch and page_fault_handler. Trap/Gates:
--     trap_init and SETGATE of jos/inc/mmu.h, with the entry points as a parameter. Trap/Names:
--     trapname and print_trapframe, as the formats and numbers given to cprintf. Trap/Return
--     has the proofs about a trap as a whole.
--   Kern/Segments.antt: the segment descriptors and the task state of jos/inc/mmu.h, gdt and
--     env_init_percpu of jos/kern/env.c, trap_init_percpu of jos/kern/trap.c; proofs in
--     Segments/Decoded. Kern/Entrypgdir.antt: jos/kern/entrypgdir.c, with its proof.
--   Kern/Devices.antt: the accesses to ports and registers. Devices/Serial: the ports and
--     cga_init of jos/kern/console.c; Devices/Picirq: jos/kern/picirq.c with kbd_init and
--     cons_init; Devices/Kclock: jos/kern/kclock.c with i386_detect_memory of jos/kern/pmap.c;
--     Devices/Lapic: jos/kern/lapic.c. Proofs in Devices/Sent and Devices/Programmed.
--     Kern/Start.antt: jos/kern/init.c; proof in Start/Woken.
--   Kern/Console.antt: the input buffer of jos/kern/console.c; proofs in Console/Ring.
--     Console/Keyboard: kbd_proc_data and its tables. Console/Screen: cga_putc, serial_putc,
--     lpt_putc, cons_putc; proof in Screen/Bounds. Kern/Printf.antt: jos/kern/printf.c.
--   Kern/Spinlock.antt: jos/kern/spinlock.c, each access to the lock as a step; Spinlock/System
--     puts several processors together, and Spinlock/Invariant, Safety and Progress have the
--     proofs.
--   Kern/Kdebug.antt: stab_binsearch of jos/kern/kdebug.c; proofs in Kdebug/Loops, Search and
--     Sorted. Kdebug/Info: debuginfo_eip.
--   Kern/Mpconfig.antt: jos/kern/mpconfig.c; proof in Mpconfig/Bounds. Kern/Monitor.antt:
--     runcmd of jos/kern/monitor.c; proofs in Monitor/Words and Monitor/Runcmd;
--     Monitor/Backtrace: mon_kerninfo and mon_backtrace. Loader.antt: jos/boot/main.c; proof in
--     Loader/Segment.
--   Libc/Strings.antt: jos/lib/string.c; proofs in Strings/Move, Strings/Fill and
--     Strings/Bounded. Libc/Numbers.antt: strtol of that file and printnum of
--     jos/lib/printfmt.c; proof in Numbers/RoundTrip. Libc/Format.antt: vprintfmt and vsnprintf
--     of jos/lib/printfmt.c, with the arguments in Format/Args, the flags in Format/Scan and
--     the conversions in Format/Convert; proofs in Format/Ends and Format/Buffer.
--     Libc/Readline.antt: jos/lib/readline.c; proof in Readline/Edited.
--   User/Fork.antt: fork_v0 and dup_or_share of jos/lib/fork.c. User/Ipc.antt: jos/lib/ipc.c,
--     with the results of the system calls given. User/Printf.antt: jos/lib/printf.c; proof in
--     Printf/Buffer. User/Stubs.antt: jos/lib/syscall.c, exit.c, console.c and libmain.c; proof
--     in Stubs/Calls. User/Dumbfork.antt: jos/user/dumbfork.c.
--   Kern/Examples, Libc/Examples, Loader/Examples and User/Examples: small machines and
--     memories, on which every result with conditions is applied.
--
-- How the state corresponds to the code. A pointer to a struct PageInfo or struct Env is the
-- index in pages or envs, NULL is none, and a kernel pointer to a whole page is the number of
-- the page. Physical memory is a map from a page and the index of a word to the word. Words are
-- numbers below 2 ^ 32 with the wrap-around written out; pp_ref wraps at 2 ^ 16; an envid_t is
-- its bit pattern. The TLB is the list of addresses that were given to invlpg. The state is the
-- view of one processor that holds the big kernel lock, which is a flag; only Kern/Spinlock has
-- several processors. curenv, cr3 and the lock are fields. Of what is printed only the
-- arguments that sys_cputs gives to cprintf are recorded. The devices are kept apart from this
-- state: a driver is a function of the sequence of values that the devices answer, and its
-- accesses are recorded one after the other.
--
-- Fuel and bounds. Loops over pages, environments and table entries recurse on the rounds that
-- the source counts. The loops of string.c that end at the byte 0 take as fuel the bytes that
-- they may read, and printnum the number of digits; the results about them show the fuel that
-- is enough. The fuel of vprintfmt counts its rounds, and vprintfmt-ends says how much is
-- enough; an argument list that is too short gives no_argument. stab_binsearch has an index as
-- a number that is greater by one, since -1 occurs, and debuginfo_eip gives it the fuel that
-- its theorem asks for. The loops of the monitor and of the boot loader run on fuel: the
-- results about runcmd and readseg say how much is enough, and for mon_backtrace it is one more
-- than the frames. The wait of lapic_init for its message runs on fuel, for the controller may
-- never answer. Memory of the string routines is a function from addresses to bytes that do not
-- wrap at 2 ^ 32.
--
-- Not modelled: the self tests of pmap.c, the copy of the entry code for the other processors
-- and the wait for them, the mapping of the registers in lapic_init, the fixed texts that panic
-- and the commands of the monitor print, the control registers, the instructions of x86.h, the
-- handler of user page faults, which is a stub, and the test programs but for dumbfork. These
-- are tests, output and single instructions. The build option TP1_PSE (large pages) is off.
pub mod Base
pub mod Kern
pub mod Libc
pub mod User
pub mod Loader

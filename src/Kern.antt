-- ===== src/Kern.antt =====
-- The kernel, jos/kern: one child for each part.
pub mod Mmu
pub mod State
pub mod Monad
pub mod Pmap
pub mod Vm
pub mod Devices
pub mod Entrypgdir
pub mod Segments
pub mod Start
pub mod Env
pub mod Sched
pub mod Exit
pub mod Syscall
pub mod Ipc
pub mod Spinlock
pub mod Trap
pub mod Boot
pub mod Printf
pub mod Monitor
pub mod Mpconfig
pub mod Kdebug
pub mod Console
pub mod Examples

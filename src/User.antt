-- ===== src/User.antt =====
-- The library of the user programs, jos/lib.
pub mod Fork
pub mod Ipc
pub mod Printf
pub mod Stubs
pub mod Dumbfork
pub mod Examples

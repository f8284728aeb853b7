-- ===== src/Libc.antt =====
-- jos/lib: the string routines and the number printer, which the kernel links too.
pub mod Strings
pub mod Numbers
pub mod Format
pub mod Readline
pub mod Examples

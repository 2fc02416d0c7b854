-- ===== src/Syscall.antt =====
-- kernel/syscall/syscall.c: the system calls, one module for each kind, and their dispatch.
pub mod Outcome
pub mod Pointer
pub mod Control
pub mod Write
pub mod Ps
pub mod Read
pub mod Dispatch
mod Tests

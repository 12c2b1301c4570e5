-- ===== src/Kernel.antt =====
-- The kernel: physical pages and page tables, environments, the scheduler and the system calls.
pub mod State
pub mod Pages
pub mod Env
pub mod Syscall
pub mod Boot
pub mod Trap
mod Tests

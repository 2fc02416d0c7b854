-- ===== src/User.antt =====
-- The user programs: their library (user/libc/ulib.c), their entry (user/crt0.S), the demos and the shell (user/apps/shell/shell.c).
pub mod Ulib
pub mod Shell
pub mod Calls
pub mod Counter
pub mod Start
mod Tests

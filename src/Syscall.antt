-- ===== src/Syscall.antt =====
-- The system-call interface, src/syscall.rs.
pub mod Tests
pub mod Numbers
pub mod World
pub mod Access
pub mod Copy
pub mod Io
pub mod Moves
pub mod Process
pub mod Entry

-- ===== src/Memory.antt =====
-- Physical and virtual memory, src/memory.rs.
pub mod Tests
pub mod Paging
pub mod Frames
pub mod Walk
pub mod Spaces

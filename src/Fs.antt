-- ===== src/Fs.antt =====
-- The FAT16 driver, src/fs.rs.
pub mod Volume
pub mod Read
pub mod Chains
pub mod Contents
pub mod Directory
pub mod Disks
mod Tests
pub mod Names

-- ===== src/Elf.antt =====
-- elf.rs: loading an ELF64 executable into a fresh address space.
pub mod Reads
pub mod Segments
pub mod Loader
pub mod Laws
pub mod Contents
pub mod Tests

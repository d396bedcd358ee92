-- ===== src/Uncrypt.antt =====
-- uncrypt/uncrypt.cpp: the map of the blocks in which a package is kept.
pub mod Ranges
pub mod Defs
pub mod Listed
pub mod Window
pub mod Collected
pub mod Mapped
pub mod Tests

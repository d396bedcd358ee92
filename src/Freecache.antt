-- ===== src/Freecache.antt =====
-- applypatch/freecache.cpp: space on the cache partition.
pub mod Defs
pub mod Expendable
pub mod Space
pub mod Loop
pub mod Tests

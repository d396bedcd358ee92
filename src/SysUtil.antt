-- ===== src/SysUtil.antt =====
-- otautil/SysUtil.cpp: a file in memory, which is mapped as a whole or by a map of its blocks.
pub mod Defs
pub mod Lines
pub mod Restored
pub mod Remapped
pub mod Tests

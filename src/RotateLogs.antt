-- ===== src/RotateLogs.antt =====
-- rotate_logs.cpp: the logs that are kept of earlier runs.
pub mod Defs
pub mod Names
pub mod Stepped
pub mod Shifted
pub mod Tests

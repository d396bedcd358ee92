-- ===== src/Edify.antt =====
-- edify/expr.cpp: the interpreter of the update scripts.
pub mod Defs
pub mod Builtins
pub mod Table
pub mod Args
pub mod Monad
pub mod Assert
pub mod Frame
pub mod Preserved
pub mod Scripts
pub mod Yields
pub mod Runs
pub mod Tests

-- ===== src/Fuse.antt =====
-- fuse_sideload.cpp: the file system that shows a package which a host sends block by block.
pub mod Defs
pub mod Hashes
pub mod Stable
pub mod Content
pub mod Faithful
pub mod Read
pub mod Requests
pub mod Session
pub mod Handlers
pub mod Answers
pub mod Opening
pub mod Tests

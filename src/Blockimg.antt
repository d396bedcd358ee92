-- ===== src/Blockimg.antt =====
-- updater/blockimg.cpp: block image updates. The range sets of a transfer list, and moves of blocks to them.
pub mod Ranges
pub mod Machine
pub mod Transfer
pub mod Stash
pub mod Stashing
pub mod Saving
pub mod Load
pub mod Sink
pub mod Commands
pub mod Update
pub mod Functions
pub mod Keeps
pub mod Quiet
pub mod Splice
pub mod Apart
pub mod Writes
pub mod Written
pub mod Targets
pub mod Resumable
pub mod Triple
pub mod Reads
pub mod Counting
pub mod Verified
pub mod Sources
pub mod Version3
pub mod UpdateTests
pub mod DryRun
pub mod Parsed
pub mod Accepted
pub mod Overlap
pub mod Move
pub mod Moved
pub mod Tests

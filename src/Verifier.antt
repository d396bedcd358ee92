-- ===== src/Verifier.antt =====
-- verifier.cpp: the check of the signature of a whole package.
pub mod Pkcs7
pub mod Memory
pub mod Defs
pub mod Digest
pub mod Sound
pub mod Checked
pub mod Bounds
pub mod Tests

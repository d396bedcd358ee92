-- ===== src/Applypatch.antt =====
-- applypatch/: the numbers of the patch format, binary patches, image patches and digests as texts.
pub mod Utils
pub mod Bspatch
pub mod Ends
pub mod Control
pub mod Rebuilt
pub mod Roundtrip
pub mod Imgpatch
pub mod ParseSha1
pub mod Digests
pub mod DigestTests
pub mod Tests

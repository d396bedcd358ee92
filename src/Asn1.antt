-- ===== src/Asn1.antt =====
-- asn1_decoder.cpp: the reader of the DER structures that hold a signature.
pub mod Defs
pub mod Inside
pub mod Operations
pub mod Length
pub mod Tests

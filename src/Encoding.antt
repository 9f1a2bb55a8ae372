-- ===== src/Encoding.antt =====
-- Encodings of the standard library that the program stores text in.
pub mod Hex

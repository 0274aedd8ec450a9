-- ===== src/Encoding.antt =====
-- The encodings of the standard library that state keys and topic names are written with (the
-- packages `encoding` and `unicode/utf8`).
pub mod Base64
pub mod Hex
pub mod Utf8

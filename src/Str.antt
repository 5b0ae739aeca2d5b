-- ===== src/Str.antt =====
-- lib/string.c: the C string and memory routines, over a memory of bytes.
pub mod Block
pub mod Scan
pub mod Compare
pub mod Span
pub mod Copy
pub mod Token
pub mod Tests

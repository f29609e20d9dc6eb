-- ===== src/Json/RoundTrip.antt =====
-- src/runtime/Json.cpp: the parser reads what the writer writes.
pub mod Texts
pub mod Chars
pub mod Numbers
pub mod Strings
pub mod Layout
pub mod Steps
pub mod Leaves
pub mod Loops
pub mod Values
pub mod Images
pub mod Image

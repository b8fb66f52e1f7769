-- ===== src/Utf8.antt =====
-- src/libixion/utf8.cpp: where the characters of a string start.
pub mod Defs
pub mod Encoded

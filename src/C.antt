-- ===== src/C.antt =====
-- The C language and standard library, as the modelled code uses them: 64-bit integers, casts
-- between them and from `double`, `strtoll` and `strtoull`.
pub mod Words
pub mod Powers
pub mod Strings
pub mod Print

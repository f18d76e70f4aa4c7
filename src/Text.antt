-- ===== src/Text.antt =====
-- What the program uses of C++ streams: decimal output, digit tests and formatted extraction.
pub mod Decimal
pub mod Words

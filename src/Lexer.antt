-- ===== src/Lexer.antt =====
-- src/lexer.c and include/heluna/lexer.h: the scanner.
--
-- `current` is the read pointer: the bytes from there up to the terminator, with the pointer's
-- offset into the source and its line and column. The terminator is the end of the list; `peek`
-- there gives 0. An `advance` at the terminator moves the pointer past the buffer, and what is
-- read next is undefined: that is `none`. The arena that a lexer carries is never used.
-- `isdigit` and `isalpha` are those of the C locale.
pub mod Cursor
pub mod Keywords
pub mod Scan
pub mod Moves
pub mod Lexemes
pub mod Tokens
pub mod Faults
pub mod Peeking
pub mod Tiles

-- ===== src/VmStdlib.antt =====
-- src/vm_stdlib.c: the library functions of the machine.
--
-- A function gets one argument, a record with its parameters as fields, and returns a value or sets
-- the error. `toupper`, `tolower`, `isspace`, `isalnum` and `isxdigit` are those of the C locale.
pub mod Fields
pub mod Texts
pub mod Splitting
pub mod Encoding
pub mod Decoding
pub mod Lists
pub mod Records
pub mod Lookups
pub mod Numbers
pub mod Dispatch

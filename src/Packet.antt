-- ===== src/Packet.antt =====
-- The binary packet: src/compiler.c writes it (`buf_*`, `serialize_*`, `assemble_packet`) and src/vm.c
-- reads it (`Cursor`, `read_*`, `vm_load_packet`).
--
-- A serializer is the sequence of its calls of `buf_write_*`, which Writes runs. The reader's cursor is
-- the bytes from its position on with that position, which may lie behind the data. A copy of bytes
-- behind the data, which C leaves undefined, is an outcome of its own. Bytes of the data are
-- below 256.
pub mod Words
pub mod Writes
pub mod Reads
pub mod Types
pub mod Contract
pub mod PartReads
pub mod ContractReads
pub mod Sections
pub mod SectionReads
pub mod Assembly
pub mod Layout
pub mod RoundTrip

-- ===== src/Lib.antt =====
-- The Heluna language (C): its lexer, JSON reader and writer, tree-walking evaluator with its
-- library functions, the arena that they allocate from, the compiler's tables and peephole pass, the
-- binary packet that the compiler writes and the machine loads, the machine's execution and library.
--
-- Parts. The lexer (src/lexer.c) turns a source text into tokens (src/token.c). The evaluator
-- (src/evaluator.c) runs a syntax tree (include/heluna/ast.h) on an input record and calls the
-- library functions (src/stdlib.c). Input and output records are JSON (src/json.c). The
-- compiler (src/compiler.c) collects code, constants and the contract in its state and writes them as
-- a packet, which the machine (src/vm.c) loads and runs on an input record; the machine calls its
-- own library (src/vm_stdlib.c) and its sources (src/vm_source.c). All of them allocate from an arena (src/arena.c).
--
-- Files.
--   Common: shared types, Boolean tests, lists, byte strings, integers of any size.
--   Arena: `arena_create`, `arena_alloc`; Arena/Bounds its invariant and one call, Arena/Regions runs
--   of calls. `malloc` is a parameter: which requests it grants.
--   Token: kinds, tokens and locations. Lexer/Cursor: the read pointer. Lexer/Keywords: the table.
--   Lexer/Scan: the scanning functions, `lexer_next`, `lexer_peek` and the loop of lexer.h.
--   Lexer/Moves, Lexemes, Tokens, Tiles, Faults and Peeking hold the proofs.
--   Value: `HVal` and its fields. Json/Strings, Numbers, Parser, Emitter: the functions of json.c;
--   Json/Escapes, Buffers, Safe, Rounds, RoundTrip,
--   Settles, Fuel: the proofs.
--   Ast: expressions and patterns. Evaluator/Text: `resolve_string`. State: the `Evaluator`
--   structure, its environment and error. Equal: `hval_equal`. Operators: `eval_binary` and the
--   other operators. Parts and Eval: `eval_expr`, `eval_through`, `match_pattern`,
--   `evaluator_init` and `evaluator_eval`. Division, Reflexive, Scopes, Steady and
--   Discipline hold the proofs.
--   Stdlib: the eight functions and `stdlib_call`; Stdlib/Folds and Texts the proofs.
--   Ast/Contract: the contract's declarations. Compiler: the compiler's state, the library table
--   and the tag words; Compiler/Pool the constant pool, PoolLaws its proofs;
--   Compiler/Peephole `peephole_optimize`, Squeeze its proofs.
--   Packet/Words, Writes: the buffer and `buf_write_*`. Packet/Reads: `Cursor` and `read_*`.
--   Packet/Types and Contract: the contract section, Packet/Sections the others, each with its
--   writer and its reader; PartReads, ContractReads and SectionReads the proofs that the one reads
--   what the other wrote. Packet/Assembly: `assemble_packet` and `vm_load_packet`; Layout and
--   RoundTrip the proof.
--   VmStdlib/Fields, Texts, Encoding, Numbers, Lists, Records, Dispatch: the machine's library;
--   Splitting, Decoding and Lookups the proofs.
--   Vm: slots, frames, the machine's state and opcodes, `vm_init`. Vm/Values and
--   Conversions: what the instructions compute from values. Vm/Source: `vm_source_resolve`. Vm/Library: `vm_stdlib_call`. Vm/Iteration:
--   ITER_SETUP and ITER_COLLECT. Vm/Containers: the instructions on records and lists. Vm/Step: the
--   switch of `vm_execute` with `propagate_tags`.
--   Vm/Execute: `vm_execute` around it. Caches, Moves, Parts, Performs, Invariant, Soundness and Runs hold
--   the proofs on the machine's state, Kinds that on what the instructions store; Rounds, Frames and Termination those on its control flow; Pairs and
--   Fusion those on the superinstructions that the peephole pass makes; Agreement compares the machine's
--   operators with the evaluator's.
--   Tests, Tests/Packets, Passes, Library and Machine: the theorems at concrete inputs.
--
-- State. A C string is its bytes up to the terminator; a pointer into one is the bytes from there on.
-- The evaluator is a function from its state to a result: a value, NULL, or what C leaves
-- undefined, which is signed overflow, a conversion of a double out of range, or a read of a union
-- by the wrong member. Linked lists inside a node are data types of their own.
-- The machine's state is a record of slots, iteration frames, cached sources, result slot and `pc`; a
-- round gives the next state, an error, what C leaves undefined (a slot out of range, overflow), or
-- `beyond`. A slot holds a value, not an address: `owned` says that no other pointer to the record or
-- list in it is in use, and a change in place without that is `beyond`, as is a NULL field.
--
-- Bounds. An integer is unbounded and `fits` tests for 64 bits where C would overflow; `size_t`
-- wraps at 2^64. The lexer's lines and columns, the JSON parser's position and counts, and the
-- lengths and capacities of the packet buffer and the constant pool are `int`s in C and unbounded
-- here; a token's length is the 32-bit word of its `int`. Where a result depends on their width it is
-- stated for texts below 2^31 bytes, and for packets and pools of at most 2^30, up to which a doubled
-- capacity is an `int`. A shift by 64 or more, undefined in C, has no meaning in `tag_bit`.
-- The bytes that `memcpy` makes of a number are those of a little-endian host. The JSON parser runs on three units of fuel for each byte and three more, the
-- token loop on as much fuel as it is given; the packet loader's passes over types and constants
-- have a unit more than the bytes left, and each round takes a byte; so have `split` and `replace`;
-- the evaluator recurses on the expression. The machine's loop runs on fuel for so many rounds.
--
-- Parameters. Doubles, with strtod, printf of doubles and the conversions (record `Doubles`); the
-- identity of two value objects (record `Host`); `ceil`, `floor`, `round` and `fmod`; malloc; the
-- files that the machine's sources read; the functions of the machine's library that are not modelled.
--
-- Not modelled: the parser, the checker, the compiler's code generator, the regex, sorting, date,
-- JSON and hash functions of the machine's library, the formatter and the tools; the
-- contents of arena blocks; `errors.c` beyond the length of a message; source locations in errors
-- of the evaluator.
pub mod Common
pub mod Arena
pub mod Token
pub mod Lexer
pub mod Value
pub mod Ast
pub mod Stdlib
pub mod Evaluator
pub mod Json
pub mod Compiler
pub mod Packet
pub mod Vm
pub mod VmStdlib
mod Tests

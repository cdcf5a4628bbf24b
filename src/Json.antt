-- ===== src/Json.antt =====
-- src/json.c: the JSON parser and emitter.
--
-- The parser's state `src + pos` is the bytes from there up to the terminator, so that a position in
-- an error is the bytes that were left. The arena is not modelled here: what a string writes
-- into its buffer and what it asked for stand in Strings. The output stream is the bytes written.
-- Each call of `parse_value` and each round of its loops spends a unit of fuel; a text is parsed
-- with more fuel than its bytes need.
pub mod Numbers
pub mod Strings
pub mod Escapes
pub mod Buffers
pub mod Parser
pub mod Emitter
pub mod Safe
pub mod Rounds
pub mod RoundTrip
pub mod Settles
pub mod Fuel

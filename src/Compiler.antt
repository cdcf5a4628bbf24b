-- ===== src/Compiler.antt =====
-- The compiler's state (include/heluna/compiler.h) and its tables: src/compiler.c up to the code
-- generator.
--
-- Arrays with a count and a capacity are lists. The growth of a capacity is modelled for the packet's
-- buffer only.
pub mod Pool
pub mod PoolLaws
pub mod Peephole
pub mod Squeeze
use heluna_language.Common.{
  ◌==◌, ◌||◌, ◌*◌, ℕ, zero, suc, ◌+◌, ◌%◌, ◌^◌, Bool, true, false, Option, none, some, List, [],
  ◌∷◌, ◌++◌, if◌then◌else◌, Bytes, codes, length, str_eq,
}
use Prim.Native.Nat.{bit_or}
use heluna_language.Ast.Contract.{AstContract, AstTagDef}

pub record Instruction : Type 0 where
  pub opcode : ℕ
  pub flags : ℕ
  pub dest : ℕ
  pub operand1 : ℕ
  pub operand2 : ℕ

-- A NULL or an empty text is written alike.
pub record CompilerSource : Type 0 where
  pub name : Bytes
  pub config_json : Bytes
  pub keyed_by : Bytes

-- An entry of the parallel arrays `const_types`, `const_offsets` and `const_lengths`.
pub record ConstEntry : Type 0 where
  pub type_id : ℕ
  pub offset : ℕ
  pub len : ℕ

pub record ConstPool : Type 0 where
  pub entries : List ConstEntry
  pub const_data : Bytes

pub record Compiler : Type 0 where
  pub contract : AstContract
  pub instructions : List Instruction
  pub pool : ConstPool
  pub scratch_next : ℕ
  pub stdlib_deps : List ℕ
  pub tag_map : List (Bytes × ℕ)
  pub sources : List CompilerSource

abbrev pub stdlib_table : List (Bytes × ℕ)
stdlib_table =
    (codes "upper", 0x0001)
    ∷ (codes "lower", 0x0002)
    ∷ (codes "trim", 0x0003)
    ∷ (codes "trim-start", 0x0004)
    ∷ (codes "trim-end", 0x0005)
    ∷ (codes "substring", 0x0006)
    ∷ (codes "replace", 0x0007)
    ∷ (codes "split", 0x0008)
    ∷ (codes "join", 0x0009)
    ∷ (codes "starts-with", 0x000A)
    ∷ (codes "ends-with", 0x000B)
    ∷ (codes "contains", 0x000C)
    ∷ (codes "length", 0x000D)
    ∷ (codes "pad-left", 0x000E)
    ∷ (codes "pad-right", 0x000F)
    ∷ (codes "regex-match", 0x0010)
    ∷ (codes "regex-replace", 0x0011)
    ∷ (codes "abs", 0x0020)
    ∷ (codes "ceil", 0x0021)
    ∷ (codes "floor", 0x0022)
    ∷ (codes "round", 0x0023)
    ∷ (codes "min", 0x0024)
    ∷ (codes "max", 0x0025)
    ∷ (codes "clamp", 0x0026)
    ∷ (codes "sort", 0x0030)
    ∷ (codes "sort-by", 0x0031)
    ∷ (codes "reverse", 0x0032)
    ∷ (codes "unique", 0x0033)
    ∷ (codes "flatten", 0x0034)
    ∷ (codes "zip", 0x0035)
    ∷ (codes "range", 0x0036)
    ∷ (codes "slice", 0x0037)
    ∷ (codes "keys", 0x0040)
    ∷ (codes "values", 0x0041)
    ∷ (codes "merge", 0x0042)
    ∷ (codes "pick", 0x0043)
    ∷ (codes "omit", 0x0044)
    ∷ (codes "parse-date", 0x0050)
    ∷ (codes "format-date", 0x0051)
    ∷ (codes "date-diff", 0x0052)
    ∷ (codes "date-add", 0x0053)
    ∷ (codes "now-date", 0x0054)
    ∷ (codes "base64-encode", 0x0060)
    ∷ (codes "base64-decode", 0x0061)
    ∷ (codes "url-encode", 0x0062)
    ∷ (codes "url-decode", 0x0063)
    ∷ (codes "json-encode", 0x0064)
    ∷ (codes "json-parse", 0x0065)
    ∷ (codes "sha256", 0x0070)
    ∷ (codes "hmac-sha256", 0x0071)
    ∷ (codes "uuid", 0x0072)
    ∷ []

-- The entry of that name, in a table of names and numbers.
unfoldable pub find_name : List (Bytes × ℕ) → Bytes → Option ℕ
find_name [] name = none
find_name ((n, k) ∷ rest) name = if str_eq n name then some k else find_name rest name

unfoldable pub stdlib_lookup : Bytes → Option ℕ
unfolding find_name
stdlib_lookup = find_name stdlib_table

unfoldable pub tag_bit_index : Compiler → Bytes → Option ℕ
unfolding find_name
tag_bit_index c = find_name c.tag_map

-- `1ULL << idx` for `idx` below 64. A shift by more is undefined in C, and its value here stands for
-- nothing.
unfoldable pub tag_bit : ℕ → ℕ
tag_bit idx = 2 ^ idx % 2 ^ 64

abbrev or_bit : Option ℕ → ℕ → ℕ
or_bit none bits = bits
or_bit (some idx) bits = bit_or bits (tag_bit idx)

-- The loop of `compute_tag_bits`, on a 64-bit word.
unfoldable pub or_tags : Compiler → List Bytes → ℕ → ℕ
or_tags c [] bits = bits
or_tags c (t ∷ ts) bits = or_tags c ts (or_bit (tag_bit_index c t) bits % 2 ^ 64)

unfoldable pub compute_tag_bits : Compiler → List Bytes → ℕ
unfolding or_tags
compute_tag_bits c tags = or_tags c tags 0

-- `compiler_compile` numbers the contract's tags.
unfoldable pub tag_map_from : ℕ → List AstTagDef → List (Bytes × ℕ)
tag_map_from idx [] = []
tag_map_from idx (t ∷ ts) = (t.name, idx) ∷ tag_map_from (suc idx) ts

-- `track_stdlib`: a function is noted once.
unfoldable pub has_dep : List ℕ → ℕ → Bool
has_dep [] id = false
has_dep (d ∷ ds) id = d == id || has_dep ds id

unfoldable pub track_stdlib : Compiler → ℕ → Compiler
unfolding has_dep
track_stdlib c id =
    if has_dep c.stdlib_deps id then c else record c { stdlib_deps = c.stdlib_deps ++ id ∷ [] }

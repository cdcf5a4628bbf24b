-- ===== src/Arena.antt =====
-- src/arena.c and include/heluna/arena.h: the bump allocator.
--
-- A block's bytes are not modelled, only its size and the count of bytes handed out. The linked
-- list of blocks is `full`, the blocks before the current one, and `current`, which is always the
-- last. A pointer is the number of its block in that list and an offset into the block's data.
-- `size_t` arithmetic wraps at 2^64. `malloc` is a parameter: whether a request is granted. Where it
-- is refused the program aborts, which is `none`.
pub mod Bounds
pub mod Regions
use heluna_language.Common.{
  ℕ, ◌+◌, ◌-◌, ◌*◌, ◌/◌, ◌%◌, ◌^◌, Bool, true, false, Option, none, some, List, [], ◌∷◌, ◌++◌, leb,
  ltb, ◌==◌, ◌>>=◌, if◌then◌else◌, length,
}

abbrev pub size_max_plus_one : ℕ
size_max_plus_one = 2 ^ 64

abbrev pub arena_alignment : ℕ
arena_alignment = 8

-- `(n + align - 1) & ~(align - 1)` for an alignment that is a power of two.
unfoldable pub align_up : ℕ → ℕ → ℕ
align_up n align = (n + align - 1) % size_max_plus_one / align * align

pub record ArenaBlock : Type 0 where
  pub size : ℕ
  pub used : ℕ

pub record Arena : Type 0 where
  pub full : List ArenaBlock
  pub current : ArenaBlock
  pub default_block_size : ℕ

pub record Pointer : Type 0 where
  pub block : ℕ
  pub offset : ℕ

-- `sizeof(ArenaBlock)`: three words of eight bytes.
abbrev pub header_size : ℕ
header_size = 24

unfoldable pub block_create : (ℕ → Bool) → ℕ → Option ArenaBlock
block_create malloc data_size =
    if malloc ((header_size + data_size) % size_max_plus_one)
    then some (record { size = data_size; used = 0 })
    else none

-- The first `malloc` is the one of the `Arena` record itself, of 24 bytes.
unfoldable pub arena_create : (ℕ → Bool) → ℕ → Option Arena
unfolding block_create
arena_create malloc block_size =
    let size : ℕ = if block_size == 0 then 64 * 1024 else block_size in
    if malloc 24
    then elim (block_create malloc size) [
      | none ↦ none
      | some first ↦ some (record { full = []; current = first; default_block_size = size })
    ]
    else none

unfoldable pub bump : Arena → ℕ → Pointer × Arena
bump a size = (
  record { block = length a.full; offset = a.current.used },
  record a { current = record { size = a.current.size; used = a.current.used + size } },
)

unfoldable pub append_block : Arena → ArenaBlock → ℕ → Pointer × Arena
append_block a nb size = (
  record { block = length a.full + 1; offset = 0 },
  record a { full = a.full ++ a.current ∷ []; current = record { size = nb.size; used = size } },
)

unfoldable pub arena_alloc : (ℕ → Bool) → Arena → ℕ → Option (Pointer × Arena)
unfolding align_up block_create bump append_block
arena_alloc malloc a request =
    let size = align_up request arena_alignment in
    if leb ((a.current.used + size) % size_max_plus_one) a.current.size
    then some (bump a size)
    else (let new_size : ℕ = if ltb a.default_block_size size then size else a.default_block_size in
        elim (block_create malloc new_size) [
          | none ↦ none
          | some nb ↦ some (append_block a nb size)
        ])

-- A sequence of calls: each request with the pointer that it got.
unfoldable pub alloc_all : (ℕ → Bool) → Arena → List ℕ → Option (List (Pointer × ℕ) × Arena)
alloc_all malloc a [] = some ([], a)
alloc_all malloc a (n ∷ ns) = do
  (p, a') ← arena_alloc malloc a n
  (ps, b) ← alloc_all malloc a' ns
  some ((p, n) ∷ ps, b)

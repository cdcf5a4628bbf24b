-- ===== src/Arena/Bounds.antt =====
-- The arena's invariant, and one call of `arena_alloc` against it.
use heluna_language.Common.{
  ℕ, ◌+◌, ◌%◌, ◌^◌, ◌≤◌, ◌<◌, ◌≡◌, inl, inr, Bool, some, List, [], ◌∷◌, ◌++◌, arith, leb, length,
  All, Bool-cases,
}
use heluna_language.Arena.{
  ArenaBlock, Arena, Pointer, align_up, arena_alignment, arena_create, arena_alloc,
  size_max_plus_one,
}

-- Never more than a block's size is handed out, in whole words, and sizes are object sizes,
-- below 2^63.
pub record IsSound (b : ArenaBlock) : Type 0 where
  pub within : b.used ≤ b.size
  pub aligned : b.used % 8 ≡ 0
  pub bounded : b.size < 2 ^ 63

pub record IsValid (a : Arena) : Type 0 where
  pub blocks : All IsSound a.full
  pub last : IsSound a.current
  pub default_bounded : a.default_block_size < 2 ^ 63

pub align_up_bounds :
    (n : ℕ) → n < 2 ^ 62 → (n ≤ align_up n 8) × (align_up n 8 < n + 8) × (align_up n 8 % 8 ≡ 0)
unfolding align_up
align_up_bounds n h = omega arith

pub arena_create-IsValid :
    (malloc : ℕ → Bool) (n : ℕ) {a : Arena}
    → n < 2 ^ 63
    → arena_create malloc n ≡ some a
    → IsValid a
unfolding arena_create
arena_create-IsValid malloc n h e = record {
  blocks = ground arith;
  last = record { within = ground arith; aligned = ground arith; bounded = ground arith };
  default_bounded = ground arith;
}

pub All-concat {ℓ κ} :
    {A : Type ℓ} (P : A → Type κ) (xs : List A) (y : A) → All P xs → P y → All P (xs ++ y ∷ [])
All-concat P [] y h p = (p, tt)
All-concat P (x ∷ xs) y h p = (h.0, All-concat P xs y h.1 p)

-- What one successful call gives: either the current block had room, or a block was appended.
pub data Allocated (a : Arena) (n : ℕ) : Pointer → Arena → Type 0 where
  here :
      (p : Pointer) (b : Arena)
      → p ≡ record { block = length a.full; offset = a.current.used }
      → b.full ≡ a.full
      → b.current.size ≡ a.current.size
      → b.current.used ≡ a.current.used + align_up n 8
      → b.current.used ≤ b.current.size
      → b.default_block_size ≡ a.default_block_size
      → Allocated a n p b
  fresh :
      (p : Pointer) (b : Arena)
      → p ≡ record { block = length a.full + 1; offset = 0 }
      → b.full ≡ a.full ++ a.current ∷ []
      → b.current.used ≡ align_up n 8
      → b.current.used ≤ b.current.size
      → b.current.size < 2 ^ 63
      → b.default_block_size ≡ a.default_block_size
      → Allocated a n p b

pub arena_alloc-Allocated :
    (malloc : ℕ → Bool) (a : Arena) (n : ℕ) {p : Pointer} {b : Arena}
    → n < 2 ^ 62
    → IsValid a
    → arena_alloc malloc a n ≡ some (p, b)
    → Allocated a n p b
unfolding arena_alloc
arena_alloc-Allocated malloc a n {p} {b} h v e =
    elim (Bool-cases
      (leb ((a.current.used + align_up n arena_alignment) % size_max_plus_one) a.current.size)) [
        | inl room ↦
            here p b (ground arith) (ground arith) (ground arith) (ground arith)
              (ground (arith, align_up_bounds n h)) (ground arith)
        | inr no_room ↦
            fresh p b (ground arith) (ground arith) (ground arith)
              (ground (arith, align_up_bounds n h)) (ground (arith, align_up_bounds n h))
              (ground arith)
      ]

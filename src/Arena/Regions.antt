-- ===== src/Arena/Regions.antt =====
-- A run of `arena_alloc` calls: where the regions that it hands out lie.
use mathlib.Core.List.{map, map-append}
use mathlib.Core.Option.{some-injective}
use heluna_language.Common.{
  ℕ, ◌+◌, ◌%◌, ◌^◌, ◌≤◌, ◌<◌, ◌≡◌, ap, ◌⊎◌, inl, inr, Bool, some, List, [], ◌∷◌, ◌++◌, arith,
  length, length-append, All, subst, >>=-eq-some, get_elem?, get_elem?-append_left,
  get_elem?-length, length-map,
}
use heluna_language.Arena.{ArenaBlock, Arena, Pointer, arena_alloc, alloc_all}
use heluna_language.Arena.Bounds.{
  IsSound, IsValid, Allocated, here, fresh, align_up_bounds, arena_alloc-Allocated, All-concat,
}

abbrev sizes : Arena → List ℕ
sizes a = map (λ (b : ArenaBlock). b.size) a.full ++ a.current.size ∷ []

-- A region of `n` bytes at a pointer.
abbrev pub Region : Type 0
Region = Pointer × ℕ

-- The region lies inside the block that its pointer names, at a multiple of eight.
abbrev pub Inside : Arena → Region → Type 0
Inside b (p, n) =
    (s : ℕ) × (get_elem? (sizes b) p.block ≡ some s) × (p.offset + n ≤ s) × (p.offset % 8 ≡ 0)

-- The first region ends before the second begins.
abbrev pub Precedes : Region → Region → Type 0
Precedes (p, n) (q, m) = (p.block < q.block) ⊎ ((p.block ≡ q.block) × (p.offset + n ≤ q.offset))

abbrev pub Ordered : List Region → Type 0
Ordered [] = Unit
Ordered (r ∷ rs) = All (Precedes r) rs × Ordered rs

-- The region was handed out before the arena came to be in this state.
abbrev Taken : Arena → Region → Type 0
Taken a (p, n) =
    (p.block < length a.full) ⊎ ((p.block ≡ length a.full) × (p.offset + n ≤ a.current.used))

pub Allocated-IsValid :
    {a b : Arena} {n : ℕ} {p : Pointer} → n < 2 ^ 62 → IsValid a → Allocated a n p b → IsValid b
Allocated-IsValid {a} {n = n} h v (here p b _ f s u w d) = record {
  blocks = rw f v.blocks;
  last = record { within = w; aligned = omega (arith, align_up_bounds n h); bounded = omega arith };
  default_bounded = omega arith;
}
Allocated-IsValid {a} {n = n} h v (fresh p b _ f u w s d) = record {
  blocks = rw f (All-concat IsSound a.full a.current v.blocks v.last);
  last = record { within = w; aligned = omega (arith, align_up_bounds n h); bounded = omega arith };
  default_bounded = omega arith;
}

-- A block keeps its size from one state to the next.
sizes-Allocated :
    {a b : Arena} {n : ℕ} {p : Pointer} (i : ℕ) {s : ℕ}
    → Allocated a n p b
    → get_elem? (sizes a) i ≡ some s
    → get_elem? (sizes b) i ≡ some s
sizes-Allocated {a} i (here p b _ f t _ _ _) e = simp (f, t) e
sizes-Allocated {a} i (fresh p b _ f _ _ _ _) e =
    simp (f, map-append) (get_elem?-append_left _ _ i e)

sizes_last : (a : Arena) → get_elem? (sizes a) (length a.full) ≡ some a.current.size
sizes_last a =
    rw (length-map (λ (b : ArenaBlock). b.size) a.full) at
      (get_elem?-length (map (λ (b : ArenaBlock). b.size) a.full) [] a.current.size)

-- The block of a call is the one that is current afterwards.
block-Allocated : {a b : Arena} {n : ℕ} {p : Pointer} → Allocated a n p b → p.block ≡ length b.full
block-Allocated (here p b e f _ _ _ _) = ground arith
block-Allocated {a} (fresh p b e f _ _ _ _) = ground (arith, length-append a.full (a.current ∷ []))

Inside-Allocated :
    {a b : Arena} {n : ℕ} {p : Pointer}
    → n < 2 ^ 62
    → IsValid a
    → Allocated a n p b
    → Inside b (p, n)
Inside-Allocated {a} {b} {n} h v d =
    (b.current.size, rw (block-Allocated d) (sizes_last b), within d, aligned d)
  where
    within : {q : Pointer} {c : Arena} → Allocated a n q c → q.offset + n ≤ c.current.size
    within (here q c e f s u w _) = ground (arith, align_up_bounds n h)
    within (fresh q c e f u w _ _) = ground (arith, align_up_bounds n h)

    aligned : {q : Pointer} {c : Arena} → Allocated a n q c → q.offset % 8 ≡ 0
    aligned (here q c e f s u w _) = ground (arith, v.last.aligned)
    aligned (fresh q c e f u w _ _) = ground arith

Taken-Allocated :
    {a b : Arena} {n : ℕ} {p : Pointer} → n < 2 ^ 62 → Allocated a n p b → Taken b (p, n)
Taken-Allocated {n = n} h d = inr (block-Allocated d, room d)
  where
    room : {a : Arena} {q : Pointer} {c : Arena} → Allocated a n q c → q.offset + n ≤ c.current.used
    room (here q c e f s u w _) = ground (arith, align_up_bounds n h)
    room (fresh q c e f u w _ _) = ground (arith, align_up_bounds n h)

Taken-step :
    {a b : Arena} {n : ℕ} {p : Pointer} (r : Region) → Allocated a n p b → Taken a r → Taken b r
Taken-step (q, m) (here p b e f s u w _) (inl t) = inl (rw f t)
Taken-step (q, m) (here p b e f s u w _) (inr t) = inr (rw f t.0, omega (arith, t.1))
Taken-step {a} (q, m) (fresh p b e f u w _ _) t =
    inl (ground (arith, length-append a.full (a.current ∷ []), ap length f))

Precedes-Allocated :
    {a b : Arena} {n : ℕ} {p : Pointer} (r : Region)
    → Allocated a n p b
    → Taken a r
    → Precedes r (p, n)
Precedes-Allocated (q, m) (here p b e f s u w _) (inl t) = inl (ground arith)
Precedes-Allocated (q, m) (here p b e f s u w _) (inr t) =
    inr (ground (arith, t.0), ground (arith, t.1))
Precedes-Allocated (q, m) (fresh p b e f u w _ _) t = inl (ground arith)

-- Regions of requests below 2^62.
abbrev pub Modest : List ℕ → Type 0
Modest = All (λ n. n < 2 ^ 62)

-- A run, one call at a time.
data Run : Arena → List Region → Arena → Type 0 where
  done : {a b : Arena} → a ≡ b → Run a [] b
  call :
      {a b c : Arena} {n : ℕ} {p : Pointer} {rs : List Region}
      → n < 2 ^ 62
      → IsValid a
      → Allocated a n p c
      → Run c rs b
      → Run a ((p, n) ∷ rs) b

alloc_all-Run :
    (malloc : ℕ → Bool) (a : Arena) (ns : List ℕ) {rs : List Region} {b : Arena}
    → Modest ns
    → IsValid a
    → alloc_all malloc a ns ≡ some (rs, b)
    → Run a rs b
unfolding alloc_all
alloc_all-Run malloc a [] {rs} {b} m v e =
    subst (λ t. Run a t b) (ground arith) (done {a = a} (ground arith))
alloc_all-Run malloc a (n ∷ ns) {rs} {b} m v e =
    let ((p, c), q, rest) = >>=-eq-some (arena_alloc malloc a n) _ e in
    let ((ps, d), r, last) = >>=-eq-some (alloc_all malloc c ns) _ rest in
    let got = arena_alloc-Allocated malloc a n m.0 v q in
    let tail = alloc_all-Run malloc c ns m.1 (Allocated-IsValid m.0 v got) r in
    subst (λ (t : List Region × Arena). Run a t.0 t.1) (some-injective _ _ last)
      (call m.0 v got tail)

Run-IsValid : {a b : Arena} {rs : List Region} → IsValid a → Run a rs b → IsValid b
Run-IsValid v (done e) = subst IsValid e v
Run-IsValid v (call h _ d r) = Run-IsValid (Allocated-IsValid h v d) r

sizes-Run :
    {a b : Arena} {rs : List Region} (i : ℕ) {s : ℕ}
    → Run a rs b
    → get_elem? (sizes a) i ≡ some s
    → get_elem? (sizes b) i ≡ some s
sizes-Run i (done e) h = rw e at h
sizes-Run i (call _ _ d r) h = sizes-Run i r (sizes-Allocated i d h)

Run-Inside : {a b : Arena} {rs : List Region} → Run a rs b → All (Inside b) rs
Run-Inside (done e) = tt
Run-Inside (call h v d r) =
    let (s, e, w, k) = Inside-Allocated h v d in ((s, sizes-Run _ r e, w, k), Run-Inside r)

Run-Precedes :
    {a b : Arena} {rs : List Region} (r : Region) → Run a rs b → Taken a r → All (Precedes r) rs
Run-Precedes r (done e) t = tt
Run-Precedes r (call h v d k) t = (Precedes-Allocated r d t, Run-Precedes r k (Taken-step r d t))

Run-Ordered : {a b : Arena} {rs : List Region} → Run a rs b → Ordered rs
Run-Ordered (done e) = tt
Run-Ordered (call h v d r) = (Run-Precedes _ r (Taken-Allocated h d), Run-Ordered r)

-- From a valid arena, every run of successful calls with requests below 2^62 leaves a valid
-- arena, in which each region handed out lies inside its block at a multiple of eight, and any
-- two of the regions are disjoint: the one handed out first ends before the other begins.
pub alloc_all-disjoint :
    (malloc : ℕ → Bool) (a : Arena) (ns : List ℕ) {rs : List Region} {b : Arena}
    → Modest ns
    → IsValid a
    → alloc_all malloc a ns ≡ some (rs, b)
    → IsValid b × All (Inside b) rs × Ordered rs
alloc_all-disjoint malloc a ns m v e =
    let run = alloc_all-Run malloc a ns m v e in
    (Run-IsValid v run, Run-Inside run, Run-Ordered run)

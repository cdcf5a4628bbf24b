-- ===== src/Vm/Rounds.antt =====
-- The control flow of `vm_execute` in src/vm.c without its values: where a round goes, and what it
-- makes of the iteration frames.
use heluna_language.Common.{ℕ, zero, suc, ◌+◌, ◌≤◌, ◌<◌, ◌≡◌, subst, List, [], ◌∷◌, length, arith}

-- Where each frame's body starts, and how many elements it has left; the top first.
abbrev pub Shape : Type 0
Shape = List (ℕ × ℕ)

-- A round behind which the machine is further on in the code, or has begun an iteration, goes back
-- to the start of a body for the next element, or leaves an iteration.
pub data Round (s : Shape) (pc : ℕ) (s' : Shape) (pc' : ℕ) : Type 0 where
  go_on : s' ≡ s → pc < pc' → Round s pc s' pc'
  enter : (r : ℕ) → length s < 8 → s' ≡ (suc pc, r) ∷ s → pc' ≡ suc pc → Round s pc s' pc'
  again :
      (b r : ℕ) (rest : Shape)
      → s ≡ (b, suc r) ∷ rest
      → s' ≡ (b, r) ∷ rest
      → pc' ≡ b
      → Round s pc s' pc'
  leave : (b : ℕ) (rest : Shape) → s ≡ (b, 0) ∷ rest → s' ≡ rest → pc' ≡ suc pc → Round s pc s' pc'

-- What holds of a state of the control flow if it holds behind each round that starts there, in code
-- of `n` instructions.
module _ (n : ℕ) (P : Shape → ℕ → Type 0)
    (back : (s : Shape) (pc : ℕ)
      → (pc < n → (s' : Shape) (pc' : ℕ) → Round s pc s' pc' → P s' pc')
      → P s pc) where
  -- Behind a round from `b` on that takes the next element or leaves the iteration.
  abbrev Leaves : Shape → ℕ → Type 0
  Leaves [] b = Unit {0}
  Leaves ((c, zero) ∷ rest) b = (pc : ℕ) → b ≤ pc → P rest (suc pc)
  Leaves ((c, suc r) ∷ rest) b = P ((c, r) ∷ rest) c

  -- With room for `d` more frames, from `b` on.
  abbrev Level : ℕ → Type 0
  Level d = (s : Shape) (b : ℕ) → length s + d ≡ 8 → Leaves s b → (pc : ℕ) → b ≤ pc → P s pc

  -- The body of an iteration with `r` elements left.
  body :
      (d : ℕ) (s : Shape) (b : ℕ)
      → Level d
      → length s + suc d ≡ 8
      → ((pc : ℕ) → b ≤ pc → P s (suc pc))
      → (r pc : ℕ) → b ≤ pc
      → P ((b, r) ∷ s) pc
  body d s b level room behind zero pc h = level ((b, 0) ∷ s) b (omega arith) behind pc h
  body d s b level room behind (suc r) pc h =
      level ((b, suc r) ∷ s) b (omega arith) (body d s b level room behind r b (omega arith)) pc h

  -- Where an iteration may be entered, if there is room.
  abbrev Enters : ℕ → Shape → ℕ → Type 0
  Enters d s pc = ((q : ℕ) → pc < q → P s q) → length s < 8 → (r : ℕ) → P ((suc pc, r) ∷ s) (suc pc)

  one_round :
      (d : ℕ) (s : Shape) (b pc : ℕ)
      → Enters d s pc
      → Leaves s b
      → b ≤ pc
      → ((q : ℕ) → pc < q → P s q)
      → (s' : Shape) (pc' : ℕ) → Round s pc s' pc'
      → P s' pc'
  one_round d s b pc enters leaves h further s' pc' (go_on e lt) = rw e (further pc' lt)
  one_round d s b pc enters leaves h further s' pc' (enter r room e e') =
      rw (e, e') (enters further room r)
  one_round d s b pc enters leaves h further s' pc' (again c r rest e e' e'') =
      let left : P ((c, r) ∷ rest) c = subst (λ t. Leaves t b) e leaves in rw (e', e'') left
  one_round d s b pc enters leaves h further s' pc' (leave c rest e e' e'') =
      let left : (q : ℕ) → b ≤ q → P rest (suc q) = subst (λ t. Leaves t b) e leaves in
      rw (e', e'') (left pc h)

  -- The rounds left in the code bound the way through a level.
  through :
      (d : ℕ) (s : Shape) (b : ℕ)
      → ((pc : ℕ) → Enters d s pc)
      → Leaves s b
      → (k pc : ℕ) → n ≤ pc + k
      → b ≤ pc
      → P s pc
  through d s b enters leaves zero pc h low = back s pc λ lt. absurd (omega arith)
  through d s b enters leaves (suc k) pc h low = back s pc λ lt s' pc' round.
      one_round d s b pc (enters pc) leaves low
        (λ q further. through d s b enters leaves k q (omega arith) (omega arith)) s' pc' round

  levels : (d : ℕ) → Level d
  levels zero s b room leaves pc low =
      through 0 s b (λ q further full. absurd (omega arith)) leaves n pc (omega arith) low
  levels (suc d) s b room leaves pc low =
      through (suc d) s b
        (λ q further less r.
          body d s (suc q) (levels d) room (λ t h. further (suc t) (omega arith)) r (suc q)
            (omega arith))
        leaves n pc (omega arith) low

  -- A machine outside all iterations has the property, wherever it is in the code.
  pub everywhere : (pc : ℕ) → P [] pc
  everywhere pc = levels 8 [] 0 (omega arith) tt pc (omega arith)

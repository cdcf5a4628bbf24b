-- ===== src/Compiler/Squeeze.antt =====
-- What the last passes of `peephole_optimize` in src/compiler.c do to an instruction and its target.
use heluna_language.Common.{
  ℕ, zero, suc, ◌+◌, ◌-◌, ◌%◌, ◌^◌, ◌≤◌, ◌<◌, ◌≡◌, refl, Bool, true, false, ◌&&◌, Option, none,
  some, List, [], ◌∷◌, leb, ltb, ◌==◌, if◌then◌else◌, length, get_elem?, arith, ap, sym, ◌∙◌, subst,
  Bool-cases, inl, inr,
}
use heluna_language.Compiler.{Instruction}
use heluna_language.Compiler.Peephole.{
  is_nop, is_jump, remap_from, count_real, on_entry, remap_jump, remap_iter, remap_one, both_some,
  remap_all, compact, squeeze,
}

count_real-le : (code : List Instruction) (i : ℕ) → count_real code i ≤ i
unfolding count_real
count_real-le [] i = omega arith
count_real-le (_ ∷ _) zero = omega arith
count_real-le (ins ∷ rest) (suc i) = ground (arith, count_real-le rest i)

-- The table holds for each place how many instructions before it are no NOP.
get_elem?-remap_from :
    (k : ℕ) (code : List Instruction) (i : ℕ)
    → i < length code
    → get_elem? (remap_from k code) i ≡ some (k + count_real code i)
unfolding remap_from count_real
get_elem?-remap_from k [] i h = absurd (omega (arith, h))
get_elem?-remap_from k (ins ∷ rest) zero h = ap some (omega arith)
get_elem?-remap_from k (ins ∷ rest) (suc i) h =
    get_elem?-remap_from (if is_nop ins then k else suc k) rest i (omega (arith, h))
    ∙ ap some (ground arith)

-- An instruction and its successor in the new code: all but jumps and iterations are the same, and a
-- jump into the code goes to the new place of its target.
abbrev pub new_dest : List Instruction → Instruction → ℕ
new_dest code ins =
    if is_jump ins.opcode && ltb ins.dest (length code) then count_real code ins.dest else ins.dest

abbrev pub IsMoved : List Instruction → Instruction → Instruction → Type 0
IsMoved code ins new =
    (new.opcode ≡ ins.opcode)
    × (new.flags ≡ ins.flags)
    × (new.operand1 ≡ ins.operand1)
    × (new.dest ≡ new_dest code ins)

-- Where there is a successor.
abbrev MaybeMoved : List Instruction → Instruction → Option Instruction → Type 0
MaybeMoved code ins none = Unit
MaybeMoved code ins (some new) = IsMoved code ins new

new_dest_stays :
    (code : List Instruction) (ins : Instruction)
    → (is_jump ins.opcode && ltb ins.dest (length code)) ≡ false
    → ins.dest ≡ new_dest code ins
new_dest_stays code ins h = rw h

remap_iter-MaybeMoved :
    (code : List Instruction) (table : List ℕ) (count i : ℕ) (ins : Instruction)
    → is_jump ins.opcode ≡ false
    → MaybeMoved code ins (remap_iter table count i ins)
unfolding remap_iter
remap_iter-MaybeMoved code table count i ins h = by_test (leb (i + 1 + ins.operand2) count)
  where
    stays : ins.dest ≡ new_dest code ins
    stays = new_dest_stays code ins (rw h)

    by_entries :
        (e s : Option ℕ)
        → MaybeMoved code ins
            (on_entry e (λ e. on_entry s (λ s. some (record ins { operand2 = (e - s) % 2 ^ 16 }))))
    by_entries none s = tt
    by_entries (some e) none = tt
    by_entries (some e) (some s) = (refl, refl, refl, stays)

    by_test :
        (t : Bool)
        → MaybeMoved code ins (
            if t
            then on_entry (get_elem? table (i + 1 + ins.operand2)) (λ e.
              on_entry
                (get_elem? table (i + 1))
                (λ s. some (record ins { operand2 = (e - s) % 2 ^ 16 })))
            else some ins)
    by_test true = by_entries (get_elem? table (i + 1 + ins.operand2)) (get_elem? table (i + 1))
    by_test false = (refl, refl, refl, stays)

remap_jump-MaybeMoved :
    (code : List Instruction) (ins : Instruction)
    → length code < 2 ^ 16
    → is_jump ins.opcode ≡ true
    → MaybeMoved code ins (remap_jump (remap_from 0 code) (length code) ins)
unfolding remap_jump
remap_jump-MaybeMoved code ins b j = elim (Bool-cases (ltb ins.dest (length code))) [
  | inl e ↦
      let inside : ins.dest < length code = ground (arith, e) in
      let small = count_real-le code ins.dest in
      let new : (0 + count_real code ins.dest) % 2 ^ 16 ≡ count_real code ins.dest =
        omega (arith, small, inside, b) in
      rw (whole, e, get_elem?-remap_from 0 code ins.dest inside) (refl, refl, refl, rw (j, e) new)
  | inr e ↦ rw (whole, e) (refl, refl, refl, new_dest_stays code ins (rw (j, e)))
]
  where
    whole : length code % 2 ^ 16 ≡ length code
    whole = omega (arith, b)

remap_one-IsMoved :
    (code : List Instruction) (i : ℕ) (ins new : Instruction)
    → length code < 2 ^ 16
    → is_nop ins ≡ false
    → remap_one (remap_from 0 code) (length code) i ins ≡ some new
    → IsMoved code ins new
unfolding remap_one
remap_one-IsMoved code i ins new b n h = subst (MaybeMoved code ins) h (
    rw n (elim (Bool-cases (is_jump ins.opcode)) [
      | inl j ↦ rw j (remap_jump-MaybeMoved code ins b j)
      | inr j ↦ rw j (other (ins.opcode == 0x90) j)
    ]))
  where
    other :
        (t : Bool)
        → is_jump ins.opcode ≡ false
        → MaybeMoved code ins
            (if t then remap_iter (remap_from 0 code) (length code) i ins else some ins)
    other true j = remap_iter-MaybeMoved code (remap_from 0 code) (length code) i ins j
    other false j = (refl, refl, refl, new_dest_stays code ins (rw j))

abbrev list_of : Option (List Instruction) → List Instruction
list_of none = []
list_of (some l) = l

abbrev opcode_of : Option Instruction → ℕ
opcode_of none = 0
opcode_of (some ins) = ins.opcode

abbrev Heads : Option Instruction → Option (List Instruction) → List Instruction → Type 0
Heads o os new =
    (a : Instruction) × (rest : List Instruction) × (o ≡ some a)
    × (os ≡ some rest)
    × (a ∷ rest ≡ new)

both_some-Heads :
    (o : Option Instruction) (os : Option (List Instruction)) (new : List Instruction)
    → both_some o os ≡ some new
    → Heads o os new
both_some-Heads none os new h = cc
both_some-Heads (some a) none new h = cc
both_some-Heads (some a) (some rest) new h = (a, rest, refl, refl, ap list_of h)

-- The successors in order.
remap_all-get :
    (table : List ℕ) (count k : ℕ) (code new : List Instruction) (i : ℕ) (ins : Instruction)
    → remap_all table count k code ≡ some new
    → get_elem? code i ≡ some ins
    → (a : Instruction) × (get_elem? new i ≡ some a) × (remap_one table count (k + i) ins ≡ some a)
unfolding remap_all
remap_all-get table count k [] new i ins h g = cc
remap_all-get table count k (x ∷ xs) new zero ins h g =
    let (a, rest, p, q, e) =
      both_some-Heads (remap_one table count k x) (remap_all table count (suc k) xs) new h in
    let here : k + 0 ≡ k = omega arith in
    (
      a,
      ap (λ l. get_elem? l 0) (sym e),
      ap (λ n. remap_one table count n ins) here ∙ ap (λ o. maybe_one o) (sym g) ∙ p,
    )
  where
    maybe_one : Option Instruction → Option Instruction
    maybe_one none = none
    maybe_one (some y) = remap_one table count k y
remap_all-get table count k (x ∷ xs) new (suc i) ins h g =
    let (a, rest, p, q, e) =
      both_some-Heads (remap_one table count k x) (remap_all table count (suc k) xs) new h in
    let (b, r, s) = remap_all-get table count (suc k) xs rest i ins q g in
    let there : k + suc i ≡ suc k + i = omega arith in
    (b, ap (λ l. get_elem? l (suc i)) (sym e) ∙ r, ap (λ n. remap_one table count n ins) there ∙ s)

remap_one-opcode :
    (code : List Instruction) (i : ℕ) (ins new : Instruction)
    → length code < 2 ^ 16
    → remap_one (remap_from 0 code) (length code) i ins ≡ some new
    → new.opcode ≡ ins.opcode
unfolding remap_one
remap_one-opcode code i ins new b h = elim (Bool-cases (is_nop ins)) [
  | inl n ↦ let same : some ins ≡ some new = rw n at h in sym (ap opcode_of same)
  | inr n ↦ (remap_one-IsMoved code i ins new b n h).0
]

-- NOPs stay where they are, and nothing becomes one.
count_real-remap_all :
    (whole : List Instruction) (k : ℕ) (code new : List Instruction) (i : ℕ)
    → length whole < 2 ^ 16
    → remap_all (remap_from 0 whole) (length whole) k code ≡ some new
    → count_real new i ≡ count_real code i
unfolding remap_all count_real
count_real-remap_all whole k [] new i b h = ap (λ o. count_real (list_of o) i) (sym h)
count_real-remap_all whole k (x ∷ xs) new zero b h =
    let (a, rest, p, q, e) =
      both_some-Heads (remap_one (remap_from 0 whole) (length whole) k x)
        (remap_all (remap_from 0 whole) (length whole) (suc k) xs) new h in
    ap (λ l. count_real l 0) (sym e)
count_real-remap_all whole k (x ∷ xs) new (suc i) b h =
    let (a, rest, p, q, e) =
      both_some-Heads (remap_one (remap_from 0 whole) (length whole) k x)
        (remap_all (remap_from 0 whole) (length whole) (suc k) xs) new h in
    let op = remap_one-opcode whole k x a b p in
    ap (λ l. count_real l (suc i)) (sym e)
    ∙ ap (λ o. (if o == 0 then 0 else 1) + count_real rest i) op
    ∙ ap (λ n. (if is_nop x then 0 else 1) + n) (count_real-remap_all whole (suc k) xs rest i b q)

compact-get :
    (code : List Instruction) (i : ℕ) (ins : Instruction)
    → get_elem? code i ≡ some ins
    → is_nop ins ≡ false
    → get_elem? (compact code) (count_real code i) ≡ some ins
unfolding compact count_real
compact-get [] i ins g n = cc
compact-get (x ∷ xs) zero ins g n =
    let real : is_nop x ≡ false = ap (λ o. opcode_of o == 0) g ∙ n in rw real g
compact-get (x ∷ xs) (suc i) ins g n = elim (Bool-cases (is_nop x)) [
  | inl e ↦ rw e (
      ap (get_elem? (compact xs)) {x = 0 + count_real xs i} {y = count_real xs i} (omega arith)
      ∙ compact-get xs i ins g n)
  | inr e ↦ rw e (
      ap (get_elem? (x ∷ compact xs)) {x = 1 + count_real xs i} {y = suc (count_real xs i)}
        (omega arith)
      ∙ compact-get xs i ins g n)
]

-- Where nothing is a NOP every place is its own new place.
count_real-full :
    (code : List Instruction) (i : ℕ)
    → count_real code (length code) ≡ length code
    → i ≤ length code
    → count_real code i ≡ i
unfolding count_real
count_real-full [] i h l = omega (arith, l)
count_real-full (x ∷ xs) zero h l = refl
count_real-full (x ∷ xs) (suc i) h l = elim (Bool-cases (is_nop x)) [
  | inl e ↦ absurd (omega (arith, count_real-le xs (length xs), nop_first e))
  | inr e ↦
      let all : count_real xs (length xs) ≡ length xs = omega (arith, real_first e) in
      rw e (omega (arith, count_real-full xs i all (omega (arith, l))))
]
  where
    nop_first : is_nop x ≡ true → 0 + count_real xs (length xs) ≡ suc (length xs)
    nop_first e = ap (λ b. (if b then 0 else 1) + count_real xs (length xs)) (sym e) ∙ h

    real_first : is_nop x ≡ false → 1 + count_real xs (length xs) ≡ suc (length xs)
    real_first e = ap (λ b. (if b then 0 else 1) + count_real xs (length xs)) (sym e) ∙ h

-- The bodies of the iterations end before the code does; `k` is the place of the first instruction.
unfoldable pub bodies_inside : ℕ → ℕ → List Instruction → Bool
bodies_inside count k [] = true
bodies_inside count k (ins ∷ rest) =
    (if ins.opcode == 0x90 then ltb (k + 1 + ins.operand2) count else true)
    && bodies_inside count (suc k) rest

abbrev IsDone : {A : Type 0} → Option A → Type 0
IsDone {A} o = (a : A) × (o ≡ some a)

remap_one-IsDone :
    (code : List Instruction) (i : ℕ) (ins : Instruction)
    → (if ins.opcode == 0x90 then ltb (i + 1 + ins.operand2) (length code) else true) ≡ true
    → IsDone (remap_one (remap_from 0 code) (length code) i ins)
unfolding remap_one remap_jump remap_iter
remap_one-IsDone code i ins h = elim (Bool-cases (is_nop ins)) [
  | inl n ↦ rw n (ins, refl)
  | inr n ↦ elim (Bool-cases (is_jump ins.opcode)) [
    | inl j ↦ elim (Bool-cases (ltb ins.dest (length code % 2 ^ 16))) [
      | inl e ↦ rw (n, j, e, get_elem?-remap_from 0 code ins.dest (ground (arith, e))) (_, refl)
      | inr e ↦ rw (n, j, e) (ins, refl)
    ]
    | inr j ↦ elim (Bool-cases (ins.opcode == 0x90)) [
      | inl o ↦
          let inside : i + 1 + ins.operand2 < length code = ground (arith, rw o at h) in
          let test : leb (i + 1 + ins.operand2) (length code) ≡ true = ground (arith, inside) in
          rw
            (
              n,
              j,
              o,
              test,
              get_elem?-remap_from 0 code (i + 1 + ins.operand2) inside,
              get_elem?-remap_from 0 code (i + 1) (omega (arith, inside)),
            )
            (_, refl)
      | inr o ↦ rw (n, j, o) (ins, refl)
    ]
  ]
]

remap_all-IsDone :
    (whole : List Instruction) (k : ℕ) (code : List Instruction)
    → bodies_inside (length whole) k code ≡ true
    → IsDone (remap_all (remap_from 0 whole) (length whole) k code)
unfolding remap_all bodies_inside
remap_all-IsDone whole k [] h = ([], refl)
remap_all-IsDone whole k (x ∷ xs) h =
    let (here, later) = both _ (bodies_inside (length whole) (suc k) xs) h in
    let (a, p) = remap_one-IsDone whole k x here in
    let (rest, q) = remap_all-IsDone whole (suc k) xs later in (a ∷ rest, rw (p, q))
  where
    both : (a b : Bool) → (a && b) ≡ true → (a ≡ true) × (b ≡ true)
    both true b h = (refl, h)
    both false b h = cc

get_elem?-lt :
    (code : List Instruction) (i : ℕ) (ins : Instruction)
    → get_elem? code i ≡ some ins
    → i < length code
get_elem?-lt [] i ins g = cc
get_elem?-lt (x ∷ xs) zero ins g = omega arith
get_elem?-lt (x ∷ xs) (suc i) ins g = omega (arith, get_elem?-lt xs i ins g)

unmoved :
    (code : List Instruction) (ins : Instruction)
    → count_real code (length code) ≡ length code
    → IsMoved code ins ins
unmoved code ins h = (refl, refl, refl, stays)
  where
    stays : ins.dest ≡ new_dest code ins
    stays = elim (Bool-cases (is_jump ins.opcode && ltb ins.dest (length code))) [
      | inl e ↦ rw e (sym (count_real-full code ins.dest h (ground (arith, e))))
      | inr e ↦ rw e
    ]

-- On code of fewer than 2 ^ 16 instructions whose iterations have bodies that end inside it, the
-- passes of peephole_optimize behind the first read only inside their table, and give a new code in
-- which each instruction that is no NOP stands at the place that counts those before it, with its
-- opcode, flags and first operand; its destination is kept, but a jump to an instruction of
-- the code goes to the place that counts those before its target.
pub squeeze_lem :
    (code : List Instruction) (i : ℕ) (ins : Instruction)
    → length code < 2 ^ 16
    → bodies_inside (length code) 0 code ≡ true
    → get_elem? code i ≡ some ins
    → is_nop ins ≡ false
    → (new : List Instruction) × (squeeze code ≡ some new)
      × ((a : Instruction) × (get_elem? new (count_real code i) ≡ some a) × IsMoved code ins a)
unfolding squeeze
squeeze_lem code i ins b inside g n =
    elim (Bool-cases (count_real code (length code) == length code)) [
      | inl e ↦
          let full : count_real code (length code) ≡ length code = ground (arith, e) in
          let place = count_real-full code i full (omega (arith, get_elem?-lt code i ins g)) in
          (code, rw e, (ins, ap (get_elem? code) place ∙ g, unmoved code ins full))
      | inr e ↦
          let (new, p) = remap_all-IsDone code 0 code inside in
          let (a, r, s) = remap_all-get (remap_from 0 code) (length code) 0 code new i ins p g in
          let moved = remap_one-IsMoved code (0 + i) ins a b n s in
          let real : is_nop a ≡ false = ap (λ o. o == 0) moved.0 ∙ n in
          let place = count_real-remap_all code 0 code new i b p in
          (
            compact new,
            rw (e, p),
            (a, ap (get_elem? (compact new)) (sym place) ∙ compact-get new i a r real, moved),
          )
    ]

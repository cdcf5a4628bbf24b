-- ===== src/Vm/Moves.antt =====
-- What one instruction of src/vm.c outside ITER_SETUP and ITER_COLLECT leaves as it is, and where it
-- goes on.
use heluna_language.Common.{
  ℕ, suc, ◌≡◌, refl, ◌∙◌, Bool, true, false, ◌⊎◌, inl, Option, length, length-set, arith,
  if◌then◌else◌,
}
use heluna_language.Value.{HVal}
use heluna_language.Vm.{
  Vm, VmSlot, Outcome, done, failed, undefined, beyond, ◌>>=◌, slot, put, lend, assign, assign_slot,
}

-- A property of the result, where there is one.
abbrev pub After {ℓ κ} : {A : Type ℓ} → (A → Type κ) → Outcome A → Type κ
After P (done a) = P a
After P _ = Unit

pub After-bind {ℓ κ μ} :
    {A : Type ℓ} {B : Type κ} (P : B → Type μ) (m : Outcome A) (f : A → Outcome B)
    → ((a : A) → m ≡ done a → After P (f a))
    → After P (m >>= f)
After-bind P (done a) f h = h a refl
After-bind P (failed text) f h = tt
After-bind P undefined f h = tt
After-bind P beyond f h = tt

pub After-done {ℓ κ} :
    {A : Type ℓ} (P : A → Type κ) (m : Outcome A) {a : A} → m ≡ done a → After P m → P a
After-done P m e h = rw e at h

pub After-if {ℓ κ} :
    {A : Type ℓ} (P : A → Type κ) (b : Bool) (x y : Outcome A)
    → After P x
    → After P y
    → After P (if b then x else y)
After-if P true x y h k = h
After-if P false x y h k = k

-- The same machine but for what the slots hold, and for `result_slot`.
pub record Still (vm vm' : Vm) : Type 0 where
  pub slots : length vm'.scratchpad ≡ length vm.scratchpad
  pub frames : vm'.iter_stack ≡ vm.iter_stack
  pub sources : length vm'.source_cache ≡ length vm.source_cache
  pub same_pc : vm'.pc ≡ vm.pc

-- But for the slots, `result_slot` and `pc`, which goes to the next instruction or, where `jumps`
-- says so, to `d`.
pub record Moved (jumps : Bool) (d : ℕ) (vm vm' : Vm) : Type 0 where
  pub slots : length vm'.scratchpad ≡ length vm.scratchpad
  pub frames : vm'.iter_stack ≡ vm.iter_stack
  pub sources : length vm'.source_cache ≡ length vm.source_cache
  pub pc_moves : (vm'.pc ≡ suc vm.pc) ⊎ ((jumps ≡ true) × (vm'.pc ≡ d))

-- What holds of a machine that is still the same, and whose slot is there, holds after a write.
pub put-After {ℓ} :
    (P : Vm → Type ℓ) (vm : Vm) (i : ℕ) (s : VmSlot)
    → ((vm' : Vm) (old : VmSlot) → slot vm i ≡ done old → Still vm vm' → P vm')
    → After P (put vm i s)
unfolding put
put-After P vm i s h = After-bind P (slot vm i) _ λ old e.
    h _ old e (record {
      slots = length-set vm.scratchpad i s;
      frames = refl;
      sources = refl;
      same_pc = refl;
    })

pub put-Still : (vm : Vm) (i : ℕ) (s : VmSlot) → After (Still vm) (put vm i s)
put-Still vm i s = put-After (Still vm) vm i s (λ vm' old e still. still)

pub lend-Still : (vm : Vm) (i : ℕ) → After (Still vm) (lend vm i)
unfolding lend
lend-Still vm i =
    After-bind (Still vm) (slot vm i) _ λ s _. put-Still vm i (record s { owned = false })

pub After-Still : {vm vm' : Vm} (o : Outcome Vm) → After (Still vm) o → o ≡ done vm' → Still vm vm'
After-Still {vm} o h e = rw e at h

-- Behind a slot whose value is shared.
pub share-After {ℓ} :
    (P : Vm → Type ℓ) (vm : Vm) (i : ℕ) (f : Vm → Option HVal → Outcome Vm)
    → ((vm' : Vm) (v : Option HVal) → Still vm vm' → After P (f vm' v))
    → After P (slot vm i >>= λ s. lend vm i >>= λ vm'. f vm' s.value)
share-After P vm i f h =
    After-bind P (slot vm i) _
      λ s _. After-bind P (lend vm i) _ λ vm' e. h vm' s.value (After-Still _ (lend-Still vm i) e)

pub assign_slot-Moved :
    (jumps : Bool) (d : ℕ) (vm : Vm) (i : ℕ) (s : VmSlot)
    → After (Moved jumps d vm) (assign_slot vm i s)
unfolding assign_slot
assign_slot-Moved jumps d vm i s = After-bind (Moved jumps d vm) (put vm i s) _ λ vm' e.
    let still = After-Still _ (put-Still vm i s) e in
    record {
      slots = still.slots;
      frames = still.frames;
      sources = still.sources;
      pc_moves = inl (ground arith);
    }

pub Still-Moved :
    {jumps : Bool} {d : ℕ} {vm vm' vm'' : Vm}
    → Still vm vm'
    → Moved jumps d vm' vm''
    → Moved jumps d vm vm''
Still-Moved still moved = record {
  slots = moved.slots ∙ still.slots;
  frames = moved.frames ∙ still.frames;
  sources = moved.sources ∙ still.sources;
  pc_moves = ground (arith, moved.pc_moves, still.same_pc);
}

pub After-map {ℓ κ μ} :
    {A : Type ℓ} (P : A → Type κ) (Q : A → Type μ) (m : Outcome A)
    → ((a : A) → P a → Q a)
    → After P m
    → After Q m
After-map P Q (done a) f h = f a h
After-map P Q (failed text) f h = tt
After-map P Q undefined f h = tt
After-map P Q beyond f h = tt

module _ (jumps : Bool) (d : ℕ) where
  pub assign-Moved :
      (vm : Vm) (i : ℕ) (v : Option HVal) (tags : ℕ) → After (Moved jumps d vm) (assign vm i v tags)
  unfolding assign
  assign-Moved vm i v tags =
      assign_slot-Moved jumps d vm i (record { value = v; tags = tags; owned = false })

  -- Behind a slot that is read, and behind one whose value is shared.
  pub read-Moved :
      (vm : Vm) (i : ℕ) (f : VmSlot → Outcome Vm)
      → ((s : VmSlot) → After (Moved jumps d vm) (f s))
      → After (Moved jumps d vm) (slot vm i >>= f)
  read-Moved vm i f h = After-bind (Moved jumps d vm) (slot vm i) f λ s _. h s

  pub share-Moved :
      (vm : Vm) (i : ℕ) (f : Vm → Option HVal → Outcome Vm)
      → ((vm' : Vm) (v : Option HVal) → After (Moved jumps d vm') (f vm' v))
      → After (Moved jumps d vm) (slot vm i >>= λ s. lend vm i >>= λ vm'. f vm' s.value)
  share-Moved vm i f h = share-After (Moved jumps d vm) vm i f λ vm' v still.
      After-map (Moved jumps d vm') (Moved jumps d vm) (f vm' v) (λ vm'' m. Still-Moved still m)
        (h vm' v)

  pub bind-Moved {ℓ} :
      {A : Type ℓ} (vm : Vm) (m : Outcome A) (f : A → Outcome Vm)
      → ((a : A) → After (Moved jumps d vm) (f a))
      → After (Moved jumps d vm) (m >>= f)
  bind-Moved vm m f h = After-bind (Moved jumps d vm) m f λ a _. h a

  pub if-Moved :
      (vm : Vm) (b : Bool) (x y : Outcome Vm)
      → After (Moved jumps d vm) x
      → After (Moved jumps d vm) y
      → After (Moved jumps d vm) (if b then x else y)
  if-Moved vm true x y h k = h
  if-Moved vm false x y h k = k

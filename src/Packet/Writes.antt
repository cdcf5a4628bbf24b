-- ===== src/Packet/Writes.antt =====
-- The packet buffer of src/compiler.c (`PacketBuf`) and sequences of writes to it.
use heluna_language.Common.{
  ℕ, zero, suc, ◌+◌, ◌*◌, ◌^◌, ◌≤◌, ◌<◌, ◌≡◌, refl, Bool, true, false, ◌⊎◌, subst, take, drop,
  take_all, List, [], ◌∷◌, ◌++◌, leb, ltb, ◌==◌, if◌then◌else◌, Bytes, length, length-append, arith,
  append_assoc, append-nil, Bool-cases, inl, inr, ap, sym, ◌∙◌, ◌-◌,
}
use native.Mathlib.Decide.{dec_lt}
use native.Mathlib.Nat.{two-pow-succ}
use heluna_language.Packet.Words.{u8_bytes, u16_bytes, u32_bytes, u64_bytes}

-- `bytes` holds the bytes of the allocated block from its start up to the last that was written, so a
-- fresh block holds none. `len` and `cap` are `int`s in C: a state in which one passes 2 ^ 31 - 1, where
-- their sums and doublings overflow, stands for none of the program's.
pub record PacketBuf : Type 0 where
  pub bytes : Bytes
  pub len : ℕ
  pub cap : ℕ

unfoldable pub buf_init : PacketBuf
buf_init = record { bytes = []; len = 0; cap = 0 }

-- `memcpy` of the first `n` bytes of `src` to the start of `dst`.
unfoldable pub memcpy : Bytes → Bytes → ℕ → Bytes
memcpy dst src n = take n src ++ drop n dst

-- `while (new_cap < target) new_cap *= 2;` on fuel; `target` rounds are enough for a start above 0.
unfoldable pub doubled : ℕ → ℕ → ℕ → ℕ
doubled zero new_cap target = new_cap
doubled (suc f) new_cap target =
    let more = doubled f (new_cap * 2) target in if ltb new_cap target then more else new_cap

unfoldable pub buf_grow : ℕ → PacketBuf → PacketBuf
unfolding memcpy doubled
buf_grow needed b = if leb (b.len + needed) b.cap then b else record {
  bytes = if ltb 0 b.len then memcpy [] b.bytes b.len else [];
  len = b.len;
  cap = doubled (b.len + needed) (if b.cap == 0 then 4096 else b.cap * 2) (b.len + needed);
}

-- One call of a `buf_write_*`.
pub data Write : Type 0 where
  w_u8 w_u16 w_u32 w_u64 : ℕ → Write
  w_bytes : Bytes → Write
  w_zeros : ℕ → Write

unfoldable pub zeros : ℕ → Bytes
zeros zero = []
zeros (suc n) = 0 ∷ zeros n

unfoldable pub bytes_of : Write → Bytes
unfolding u64_bytes
bytes_of (w_u8 v) = u8_bytes v
bytes_of (w_u16 v) = u16_bytes v
bytes_of (w_u32 v) = u32_bytes v
bytes_of (w_u64 v) = u64_bytes v
bytes_of (w_bytes bs) = bs
bytes_of (w_zeros n) = zeros n

-- These bytes, written to a block at the place `i`.
unfoldable pub write_at : ℕ → Bytes → Bytes → Bytes
write_at i bs block = take i block ++ (bs ++ drop (i + length bs) block)

-- Each write asks for its room, writes at `len` and moves `len` on.
unfoldable pub buf_write : Write → PacketBuf → PacketBuf
unfolding write_at
buf_write w b =
    let grown = buf_grow (length (bytes_of w)) b in
    record grown {
      bytes = write_at grown.len (bytes_of w) grown.bytes;
      len = grown.len + length (bytes_of w);
    }

unfoldable pub run_writes : List Write → PacketBuf → PacketBuf
run_writes [] b = b
run_writes (w ∷ ws) b = run_writes ws (buf_write w b)

-- The bytes of a sequence of writes, in front of others.
unfoldable pub encode : List Write → Bytes → Bytes
encode [] s = s
encode (w ∷ ws) s = bytes_of w ++ encode ws s

unfoldable pub size : List Write → ℕ
size [] = 0
size (w ∷ ws) = length (bytes_of w) + size ws

pub length-zeros : (n : ℕ) → length (zeros n) ≡ n
unfolding zeros
length-zeros zero = refl
length-zeros (suc n) = ap suc (length-zeros n)

pub encode-append : (ws vs : List Write) (s : Bytes) → encode (ws ++ vs) s ≡ encode ws (encode vs s)
unfolding encode
encode-append [] vs s = refl
encode-append (w ∷ ws) vs s = ap (λ t. bytes_of w ++ t) (encode-append ws vs s)

pub size-append : (ws vs : List Write) → size (ws ++ vs) ≡ size ws + size vs
unfolding size
size-append [] vs = omega arith
size-append (w ∷ ws) vs = omega (arith, size-append ws vs)

pub length-encode : (ws : List Write) (s : Bytes) → length (encode ws s) ≡ size ws + length s
unfolding encode size
length-encode [] s = omega arith
length-encode (w ∷ ws) s =
    omega (arith, length-append (bytes_of w) (encode ws s), length-encode ws s)

pub encode_front : (ws : List Write) (s : Bytes) → encode ws s ≡ encode ws [] ++ s
unfolding encode
encode_front [] s = refl
encode_front (w ∷ ws) s =
    ap (λ t. bytes_of w ++ t) (encode_front ws s) ∙ sym (append_assoc (bytes_of w) (encode ws []) s)

doubled_enough : (f c t : ℕ) → 0 < c → t ≤ c + f → t ≤ doubled f c t
unfolding doubled
doubled_enough zero c t p h = omega (arith, h)
doubled_enough (suc f) c t p h = elim (Bool-cases (ltb c t)) [
  | inl e ↦ rw e (doubled_enough f (c * 2) t (omega (arith, p)) (omega (arith, p, h)))
  | inr e ↦ rw e (ground arith)
]

drop_past : (n : ℕ) (xs : Bytes) → length xs ≤ n → drop n xs ≡ []
drop_past zero [] h = refl
drop_past zero (x ∷ xs) h = absurd (omega arith)
drop_past (suc n) [] h = refl
drop_past (suc n) (x ∷ xs) h = drop_past n xs (omega arith)

memcpy_whole : (old : Bytes) (n : ℕ) → length old ≡ n → memcpy [] old n ≡ old
unfolding memcpy
memcpy_whole old n h =
    subst (λ k. take k old ++ drop k [] ≡ old) h
      (rw (take_all old, drop_past (length old) [] (omega arith)) (append-nil old))

write_at_end : (old bs : Bytes) (n : ℕ) → length old ≡ n → write_at n bs old ≡ old ++ bs
unfolding write_at
write_at_end old bs n h =
    subst (λ k. take k old ++ (bs ++ drop (k + length bs) old) ≡ old ++ bs) h
      (rw (take_all old, drop_past (length old + length bs) old (omega arith))
        (ap (λ t. old ++ t) (append-nil bs)))

-- `len` counts the bytes of the data, and they are no more than what is allocated.
abbrev pub IsValid : PacketBuf → Type 0
IsValid b = (length b.bytes ≡ b.len) × (b.len ≤ b.cap)

none_there : (xs : Bytes) → length xs ≡ 0 → [] ≡ xs
none_there [] h = refl
none_there (x ∷ xs) h = absurd (omega arith)

buf_grow_room :
    (n : ℕ) (b : PacketBuf)
    → length b.bytes ≡ b.len
    → (b.len + n ≤ (buf_grow n b).cap)
      × ((buf_grow n b).bytes ≡ b.bytes)
      × ((buf_grow n b).len ≡ b.len)
unfolding buf_grow
buf_grow_room n b v = elim (Bool-cases (leb (b.len + n) b.cap)) [
  | inl e ↦ rw e (ground arith, refl, refl)
  | inr e ↦
      let start : ℕ = if b.cap == 0 then 4096 else b.cap * 2 in
      let target = b.len + n in
      rw e (
        doubled_enough target start target (ground arith) (omega arith),
        copied (ltb 0 b.len) refl,
        refl,
      )
]
  where
    copied : (t : Bool) → ltb 0 b.len ≡ t → (if t then memcpy [] b.bytes b.len else []) ≡ b.bytes
    copied true e = memcpy_whole b.bytes b.len v
    copied false e = none_there b.bytes (ground arith)

buf_write-IsValid :
    (w : Write) (b : PacketBuf)
    → IsValid b
    → ((buf_write w b).bytes ≡ b.bytes ++ bytes_of w)
      × ((buf_write w b).len ≡ b.len + length (bytes_of w))
      × IsValid (buf_write w b)
unfolding buf_write
buf_write-IsValid w b v =
    let (room, same, count) = buf_grow_room (length (bytes_of w)) b v.0 in
    let grown = buf_grow (length (bytes_of w)) b in
    let counted : length grown.bytes ≡ grown.len = ap length same ∙ v.0 ∙ sym count in
    let at_end = write_at_end grown.bytes (bytes_of w) grown.len counted in
    (
      at_end ∙ ap (λ t. t ++ bytes_of w) same,
      omega (arith, count),
      (
        omega (arith, ap length at_end, length-append grown.bytes (bytes_of w), counted),
        omega (arith, room, count),
      ),
    )

-- A sequence of writes appends its bytes in order.
pub run_writes_bytes :
    (ws : List Write) (b : PacketBuf)
    → IsValid b
    → ((run_writes ws b).bytes ≡ b.bytes ++ encode ws []) × IsValid (run_writes ws b)
unfolding run_writes encode
run_writes_bytes [] b v = (sym (append-nil b.bytes), v)
run_writes_bytes (w ∷ ws) b v =
    let (e, count, fits) = buf_write-IsValid w b v in
    let (f, r) = run_writes_bytes ws (buf_write w b) fits in
    (f ∙ ap (λ t. t ++ encode ws []) e ∙ append_assoc b.bytes (bytes_of w) (encode ws []), r)

abbrev pub Doubling : ℕ → Type 0
Doubling cap = (k : ℕ) × (cap ≡ 4096 * 2 ^ k) × (cap ≤ 2 ^ 30)

-- What is allocated: nothing yet, or 4096 bytes, doubled some times, and no more than a gibibyte.
abbrev pub IsCapacity : ℕ → Type 0
IsCapacity cap = (cap ≡ 0) ⊎ (Doubling cap)

pow-le : (j a n : ℕ) → a + j ≡ n → 2 ^ a ≤ 2 ^ n
pow-le zero a n e = let same : a ≡ n = omega (arith, e) in omega (arith, ap (λ (t : ℕ). 2 ^ t) same)
pow-le (suc j) a n e = omega (arith, two-pow-succ a, pow-le j (suc a) n (omega (arith, e)))

double-le : (k c : ℕ) → c ≡ 4096 * 2 ^ k → c < 2 ^ 30 → c * 2 ≤ 2 ^ 30
double-le k c e h = elim (dec_lt k 18) [
  | yes small ↦
      let more : 2 ^ suc k ≤ 2 ^ 18 = pow-le (17 - k) (suc k) 18 (omega (arith, small)) in
      omega (arith, e, more, two-pow-succ k)
  | no large ↦
      let least : 2 ^ 18 ≤ 2 ^ k = pow-le (k - 18) 18 k (omega (arith, large)) in
      absurd (omega (arith, e, h, least))
]

doubled-Doubling : (f c t : ℕ) → Doubling c → t ≤ 2 ^ 30 → Doubling (doubled f c t)
unfolding doubled
doubled-Doubling zero c t d h = d
doubled-Doubling (suc f) c t (k, e, b) h = elim (Bool-cases (ltb c t)) [
  | inl lt ↦ rw lt (
      doubled-Doubling f (c * 2) t
        (suc k, omega (arith, e, two-pow-succ k), double-le k c e (ground arith)) h)
  | inr ge ↦ rw ge (k, e, b)
]

buf_grow-IsCapacity :
    (n : ℕ) (b : PacketBuf) → IsCapacity b.cap → b.len + n ≤ 2 ^ 30 → IsCapacity (buf_grow n b).cap
unfolding buf_grow
buf_grow-IsCapacity n b c h = elim (Bool-cases (leb (b.len + n) b.cap)) [
  | inl e ↦ rw e c
  | inr e ↦ rw e (inr (doubled-Doubling (b.len + n) _ (b.len + n) (first c (ground arith)) h))
]
  where
    first : IsCapacity b.cap → b.cap < b.len + n → Doubling (if b.cap == 0 then 4096 else b.cap * 2)
    first (inl none) lt = rw none (0, refl, omega arith)
    first (inr (k, e, least)) lt = elim (Bool-cases (b.cap == 0)) [
      | inl z ↦ rw z (0, refl, omega arith)
      | inr z ↦
          rw z (suc k, omega (arith, e, two-pow-succ k), double-le k b.cap e (omega (arith, h)))
    ]

buf_write-IsCapacity :
    (w : Write) (b : PacketBuf)
    → IsCapacity b.cap
    → b.len + length (bytes_of w) ≤ 2 ^ 30
    → IsCapacity (buf_write w b).cap
unfolding buf_write
buf_write-IsCapacity w b c h = buf_grow-IsCapacity (length (bytes_of w)) b c h

run_writes-IsCapacity :
    (ws : List Write) (b : PacketBuf)
    → IsValid b
    → IsCapacity b.cap
    → b.len + size ws ≤ 2 ^ 30
    → IsCapacity (run_writes ws b).cap
unfolding run_writes size
run_writes-IsCapacity [] b v c h = c
run_writes-IsCapacity (w ∷ ws) b v c h =
    let (_, count, valid) = buf_write-IsValid w b v in
    run_writes-IsCapacity ws (buf_write w b) valid (buf_write-IsCapacity w b c (omega (arith, h)))
      (omega (arith, h, count))

-- A sequence of writes after which a buffer holds no more than a gibibyte, where what is allocated is
-- nothing or 4096 bytes doubled some times, appends their bytes in order, whatever reallocations it
-- takes. Then the length counts the bytes of the data, these lie within what is allocated, and that
-- is again of this form and no more than a gibibyte, which an `int` holds.
pub run_writes-encode :
    (ws : List Write) (b : PacketBuf)
    → IsValid b
    → IsCapacity b.cap
    → b.len + size ws ≤ 2 ^ 30
    → ((run_writes ws b).bytes ≡ b.bytes ++ encode ws [])
      × IsValid (run_writes ws b)
      × IsCapacity (run_writes ws b).cap
run_writes-encode ws b v c h =
    let (bytes, valid) = run_writes_bytes ws b v in (bytes, valid, run_writes-IsCapacity ws b v c h)

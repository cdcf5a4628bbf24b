-- ===== src/Packet/Layout.antt =====
-- The header, the directory and the bodies of a packet: they are read as they were written, and each body
-- stands at its offset.
use heluna_language.Common.{
  ℕ, zero, suc, ◌+◌, ◌*◌, ◌^◌, ◌≤◌, ◌<◌, ◌≡◌, refl, false, List, [], ◌∷◌, ◌++◌, ltb, Bytes, length,
  drop, drop-append, append_assoc, arith, All, ap, sym, ◌∙◌, subst,
}
use heluna_language.Packet.Writes.{
  Write, w_u16, w_u32, w_u64, w_zeros, buf_init, bytes_of, zeros, run_writes_bytes, encode, size,
  encode-append, encode_front, length-encode, size-append,
}
use heluna_language.Packet.Words.{u16_bytes, u32_bytes, u64_bytes, le_bytes}
use heluna_language.Packet.Reads.{
  read_many, Reads, pure-Reads, bind-Reads, map-Reads, then-Reads, read_u16_le-Reads,
  read_u32_le-Reads,
}
use heluna_language.Packet.Types.{advance}
use heluna_language.Packet.Assembly.{
  Section, built, body_sizes, first_offset, total_size, write_header, write_directory, write_bodies,
  packet_writes, SectionEntry, read_entry, load_sections, directory_behind, load_directory,
  load_header,
}

pub built-encode : (ws : List Write) → built ws ≡ encode ws []
unfolding buf_init
built-encode ws = (run_writes_bytes ws buf_init (refl, omega arith)).0

unfoldable pub entries_of : ℕ → List Section → List SectionEntry
entries_of offset [] = []
entries_of offset (s ∷ ss) =
    record { type = s.type; offset = offset; len = length s.body }
    ∷ entries_of (offset + length s.body) ss

abbrev pub IsKind : Section → Type 0
IsKind s = s.type < 2 ^ 16

entry-Reads :
    (e : SectionEntry)
    → e.type < 2 ^ 16
    → e.offset < 2 ^ 32
    → e.len < 2 ^ 32
    → Reads read_entry (w_u16 e.type ∷ w_u32 e.offset ∷ w_u32 e.len ∷ []) e
unfolding read_entry
entry-Reads e t o l = bind-Reads _ (read_u16_le-Reads e.type t) (
    bind-Reads _ (read_u32_le-Reads e.offset o) (
      map-Reads (λ n. record { type = e.type; offset = e.offset; len = n })
        (read_u32_le-Reads e.len l)))

directory-Reads :
    (ss : List Section) (offset : ℕ)
    → All IsKind ss
    → offset + body_sizes ss < 2 ^ 32
    → Reads (read_many (length ss) read_entry) (write_directory offset ss) (entries_of offset ss)
unfolding read_many write_directory entries_of body_sizes
directory-Reads [] offset h b = pure-Reads []
directory-Reads (s ∷ ss) offset h b =
    let e : SectionEntry = record { type = s.type; offset = offset; len = length s.body } in
    bind-Reads _ (entry-Reads e h.0 (omega arith) (omega arith))
      (map-Reads (λ l. e ∷ l) (directory-Reads ss (offset + length s.body) h.1 (omega (arith, b))))

signature-Reads : Reads (advance 72) (w_u64 0 ∷ w_zeros 64 ∷ []) tt
unfolding encode size bytes_of advance u64_bytes le_bytes zeros
signature-Reads = record { run = λ s k. refl }

-- The header and the directory are read as they were written.
pub header-Reads :
    (packet : Bytes) (ss : List Section)
    → ltb (length packet) (total_size ss) ≡ false
    → All IsKind ss
    → length ss < 2 ^ 16
    → total_size ss ≤ 2 ^ 30
    → Reads
        (load_header packet)
        (write_header ss ++ write_directory (first_offset ss) ss)
        (load_sections packet (entries_of (first_offset ss) ss))
unfolding load_header load_directory write_header total_size directory_behind
header-Reads packet ss fits kinds n b = bind-Reads _ (read_u32_le-Reads 0x484C4E41 (omega arith)) (
    bind-Reads _ (read_u16_le-Reads 1 (omega arith)) (
      bind-Reads _ (read_u16_le-Reads 1 (omega arith)) (
        bind-Reads _ (read_u32_le-Reads (total_size ss) (omega arith)) (
          subst
            (λ t.
              Reads (directory_behind packet t) rest
                (load_sections packet (entries_of (first_offset ss) ss)))
            (sym fits) behind))))
  where
    rest : List Write
    rest = w_u16 (length ss) ∷ w_u16 0 ∷ w_u64 0 ∷ w_zeros 64 ∷ write_directory (first_offset ss) ss

    behind :
        Reads
          (directory_behind packet false)
          rest
          (load_sections packet (entries_of (first_offset ss) ss))
    behind = bind-Reads _ (read_u16_le-Reads (length ss) n) (
        bind-Reads _ (read_u16_le-Reads 0 (omega arith)) (
          then-Reads signature-Reads (
            map-Reads (load_sections packet)
              (directory-Reads ss (first_offset ss) kinds (omega (arith, b))))))

size-write_header : (ss : List Section) → size (write_header ss) ≡ 88
unfolding size write_header bytes_of u16_bytes u32_bytes u64_bytes le_bytes zeros
size-write_header ss = refl

size-write_directory :
    (offset : ℕ) (ss : List Section) → size (write_directory offset ss) ≡ length ss * 10
unfolding size write_directory bytes_of u16_bytes u32_bytes
size-write_directory offset [] = refl
size-write_directory offset (s ∷ ss) =
    omega (arith, size-write_directory (offset + length s.body) ss)

size-write_bodies : (ss : List Section) → size (write_bodies ss) ≡ body_sizes ss
unfolding size write_bodies bytes_of body_sizes
size-write_bodies [] = refl
size-write_bodies (s ∷ ss) = ap (λ n. length s.body + n) (size-write_bodies ss)

-- The bytes in front of the sections.
abbrev front : List Section → List Write
front ss = write_header ss ++ write_directory (first_offset ss) ss

size-front : (ss : List Section) → size (front ss) ≡ first_offset ss
size-front ss = omega (
  arith,
  size-append (write_header ss) (write_directory (first_offset ss) ss),
  size-write_header ss,
  size-write_directory (first_offset ss) ss,
)

-- A packet of these sections.
abbrev pub packed : List Section → Bytes
packed ss = encode (front ss) (encode (write_bodies ss) [])

pub built-packet_writes : (ss : List Section) → built (packet_writes ss) ≡ packed ss
unfolding packet_writes
built-packet_writes ss =
    let directory = write_directory (first_offset ss) ss in
    built-encode (packet_writes ss)
    ∙ ap (λ ws. encode ws []) (sym (append_assoc (write_header ss) directory (write_bodies ss)))
    ∙ encode-append (front ss) (write_bodies ss) []

pub length-packed : (ss : List Section) → length (packed ss) ≡ total_size ss
unfolding total_size
length-packed ss = omega (
  arith,
  length-encode (front ss) (encode (write_bodies ss) []),
  length-encode (write_bodies ss) [],
  size-front ss,
  size-write_bodies ss,
)

suc_add : (m n : ℕ) → suc m + n ≡ suc (m + n)
suc_add m n = omega arith

drop_nil : (n : ℕ) → ◌≡◌ {A = Bytes} [] (drop n [])
drop_nil zero = refl
drop_nil (suc n) = refl

drop-drop : (m n : ℕ) (xs : Bytes) → drop (m + n) xs ≡ drop n (drop m xs)
drop-drop zero n xs = ap (λ k. drop k xs) (omega arith)
drop-drop (suc m) n [] = rw (suc_add m n) (drop_nil n)
drop-drop (suc m) n (x ∷ xs) = rw (suc_add m n) (drop-drop m n xs)

-- The bodies of these sections stand in the packet at that offset.
abbrev pub Stand : Bytes → ℕ → List Section → Type 0
Stand packet offset ss = drop offset packet ≡ encode (write_bodies ss) []

pub packed-Stand : (ss : List Section) → Stand (packed ss) (first_offset ss) ss
packed-Stand ss =
    let rest = encode (write_bodies ss) [] in
    let before = encode (front ss) [] in
    let n : first_offset ss ≡ length before =
      omega (arith, length-encode (front ss) [], size-front ss) in
    ap (drop (first_offset ss)) (encode_front (front ss) rest)
    ∙ ap (λ k. drop k (before ++ rest)) n
    ∙ drop-append before rest

pub next-Stand :
    (packet : Bytes) (offset : ℕ) (s : Section) (ss : List Section)
    → Stand packet offset (s ∷ ss)
    → Stand packet (offset + length s.body) ss
unfolding write_bodies encode bytes_of
next-Stand packet offset s ss h =
    drop-drop offset (length s.body) packet
    ∙ ap (drop (length s.body)) h
    ∙ drop-append s.body (encode (write_bodies ss) [])

zero_behind : (n : ℕ) → n + 0 ≡ n
zero_behind n = omega arith

pub length-built : (ws : List Write) → length (built ws) ≡ size ws
length-built ws = ap length (built-encode ws) ∙ length-encode ws [] ∙ zero_behind (size ws)

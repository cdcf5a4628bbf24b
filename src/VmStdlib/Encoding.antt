-- ===== src/VmStdlib/Encoding.antt =====
-- Base 64 and percent encoding in src/vm_stdlib.c.
--
-- Bytes are below 256. The parts of a group that `|` puts together take different bits, so that they
-- are added.
use heluna_language.Common.{
  ℕ, zero, suc, ◌+◌, ◌-◌, ◌*◌, ◌/◌, ◌%◌, Bool, ◌&&◌, ◌||◌, Option, none, some, [], ◌∷◌, ◌++◌, leb,
  ◌==◌, if◌then◌else◌, length, Bytes, codes,
}
use heluna_language.Value.{HVal, val_string}
use heluna_language.Stdlib.{Called, value, to_upper}
use heluna_language.Packet.Reads.{until_nul}
use heluna_language.VmStdlib.Fields.{get_string, needs}

abbrev pub byte_at : Bytes → ℕ → ℕ
byte_at [] i = 0
byte_at (c ∷ cs) zero = c
byte_at (c ∷ cs) (suc i) = byte_at cs i

abbrev pub b64_enc : Bytes
b64_enc = codes "ABCDEFGHIJKLMNOPQRSTUVWXYZabcdefghijklmnopqrstuvwxyz0123456789+/"

-- `b64_enc[(n >> shift) & 0x3F]`
unfoldable pub b64_char : ℕ → ℕ
b64_char k = byte_at b64_enc k

abbrev pub sextet : ℕ → ℕ → ℕ
sextet n divisor = b64_char (n / divisor % 64)

unfoldable pub base64_encode : Bytes → Bytes
base64_encode [] = []
base64_encode (a ∷ []) = let n = a * 65536 in sextet n 262144 ∷ sextet n 4096 ∷ b'=' ∷ b'=' ∷ []
base64_encode (a ∷ b ∷ []) =
    let n = a * 65536 + b * 256 in sextet n 262144 ∷ sextet n 4096 ∷ sextet n 64 ∷ b'=' ∷ []
base64_encode (a ∷ b ∷ c ∷ rest) =
    let n = a * 65536 + b * 256 + c in
    sextet n 262144 ∷ sextet n 4096 ∷ sextet n 64 ∷ sextet n 1 ∷ base64_encode rest

abbrev missing_value : Bytes → Bytes
missing_value name = name ++ codes ": missing 'value'"

unfoldable pub fn_base64_encode : HVal → Called
fn_base64_encode arg =
    needs (missing_value (codes "base64-encode")) (get_string arg (codes "value"))
      λ s. value (val_string (base64_encode s))

abbrev between : ℕ → ℕ → ℕ → Bool
between low high c = leb low c && leb c high

-- `none` is -1.
unfoldable pub b64_decode_char : ℕ → Option ℕ
b64_decode_char c =
    if between b'A' b'Z' c
    then some (c - b'A')
    else if between b'a' b'z' c
    then some (c - b'a' + 26)
    else if between b'0' b'9' c
    then some (c - b'0' + 52)
    else if c == b'+'
    then some 62
    else if c == b'/'
    then some 63
    else none

abbrev pub unless_padding : ℕ → Option ℕ
unless_padding c = if c == b'=' then none else b64_decode_char c

abbrev pub part : ℕ → Option ℕ → ℕ
part weight none = 0
part weight (some a) = a * weight

abbrev pub written : Option ℕ → ℕ → Bytes
written none byte = []
written (some _) byte = byte ∷ []

-- The bytes that one group gives: none where one of its first two characters is not of the alphabet.
unfoldable pub b64_group : Option ℕ → Option ℕ → Option ℕ → Option ℕ → Bytes
b64_group none a1 a2 a3 = []
b64_group (some a0) none a2 a3 = []
b64_group (some a0) (some a1) a2 a3 =
    let n = a0 * 262144 + a1 * 4096 in
    n / 65536 % 256
    ∷ (written a2 ((n + part 64 a2) / 256 % 256) ++ written a3 ((n + part 64 a2 + part 1 a3) % 256))

-- What is written to the buffer.
unfoldable pub base64_decode : Bytes → Bytes
base64_decode [] = []
base64_decode (a ∷ []) = b64_group (b64_decode_char a) (some 0) none none
base64_decode (a ∷ b ∷ []) = b64_group (b64_decode_char a) (b64_decode_char b) none none
base64_decode (a ∷ b ∷ c ∷ []) =
    b64_group (b64_decode_char a) (b64_decode_char b) (unless_padding c) none
base64_decode (a ∷ b ∷ c ∷ d ∷ rest) =
    b64_group (b64_decode_char a) (b64_decode_char b) (unless_padding c) (unless_padding d)
    ++ base64_decode rest

-- `out_len`: the buffer has one byte more, for the terminator.
unfoldable pub b64_out_len : Bytes → ℕ
b64_out_len s = length s / 4 * 3

unfoldable pub fn_base64_decode : HVal → Called
fn_base64_decode arg =
    needs (missing_value (codes "base64-decode")) (get_string arg (codes "value"))
      λ s. value (val_string (until_nul (base64_decode s)))

abbrev is_digit : ℕ → Bool
is_digit = between b'0' b'9'

abbrev is_alnum : ℕ → Bool
is_alnum c = is_digit c || between b'A' b'Z' c || between b'a' b'z' c

abbrev pub is_unreserved : ℕ → Bool
is_unreserved c = is_alnum c || c == b'-' || c == b'_' || c == b'.' || c == b'~'

unfoldable pub hex_char : ℕ → ℕ
hex_char k = byte_at (codes "0123456789ABCDEF") k

unfoldable pub url_encode_byte : ℕ → Bytes
url_encode_byte c =
    if is_unreserved c then c ∷ [] else b'%' ∷ hex_char (c / 16) ∷ hex_char (c % 16) ∷ []

unfoldable pub url_encode : Bytes → Bytes
url_encode [] = []
url_encode (c ∷ cs) = url_encode_byte c ++ url_encode cs

unfoldable pub fn_url_encode : HVal → Called
fn_url_encode arg =
    needs (missing_value (codes "url-encode")) (get_string arg (codes "value"))
      λ s. value (val_string (url_encode s))

unfoldable pub is_xdigit : ℕ → Bool
is_xdigit c = is_digit c || between b'A' b'F' c || between b'a' b'f' c

unfoldable pub hex_value : ℕ → ℕ
hex_value c = if is_digit c then c - b'0' else to_upper c - b'A' + 10

abbrev pub plain : ℕ → ℕ
plain c = if c == b'+' then b' ' else c

abbrev pub is_escape : ℕ → ℕ → ℕ → Bool
is_escape c a b = c == b'%' && (is_xdigit a && is_xdigit b)

unfoldable pub url_decode : Bytes → Bytes
url_decode [] = []
url_decode (c ∷ []) = plain c ∷ []
url_decode (c ∷ a ∷ []) = plain c ∷ url_decode (a ∷ [])
url_decode (c ∷ a ∷ b ∷ rest) =
    let escaped = (hex_value a * 16 + hex_value b) ∷ url_decode rest in
    let other = plain c ∷ url_decode (a ∷ b ∷ rest) in if is_escape c a b then escaped else other

unfoldable pub fn_url_decode : HVal → Called
fn_url_decode arg =
    needs (missing_value (codes "url-decode")) (get_string arg (codes "value"))
      λ s. value (val_string (until_nul (url_decode s)))

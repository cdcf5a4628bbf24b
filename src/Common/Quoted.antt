-- ===== src/Common/Quoted.antt =====
-- The text behind an opening quote, as the scanner and the JSON parser read it.
use Prim.Native.Nat.{ℕ}
use mathlib.Core.Path.{◌≡◌}
use mathlib.Core.Logic.{◌≢◌}
use mathlib.Core.List.{[], ◌∷◌}
use heluna_language.Common.Lists.{Bytes}

-- The text behind an opening quote ends in a backslash that no byte follows, and no quote closes
-- the string before.
pub data DanglingEscape : Bytes → Type 0 where
  lone : (c : ℕ) → c ≡ b'\\' → DanglingEscape (c ∷ [])
  plain : (c : ℕ) {cs : Bytes} → c ≢ b'"' → c ≢ b'\\' → DanglingEscape cs → DanglingEscape (c ∷ cs)
  escaped : (c d : ℕ) {cs : Bytes} → c ≡ b'\\' → DanglingEscape cs → DanglingEscape (c ∷ d ∷ cs)

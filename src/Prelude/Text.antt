-- ===== src/Prelude/Text.antt =====
-- Go strings and byte slices as lists of bytes.
use Prim.Native.Char.{code}
use Prim.Native.String.{String}
use Prim.Native.Nat.{ℕ, ◌+◌, ◌%◌, ◌/◌}
use mathlib.Core.Path.{◌≡◌, refl, ap₂}
use mathlib.Core.Logic.{◌↔◌}
use mathlib.Core.Bool.{Bool, true, false, ◌&&◌, ◌||◌}
use mathlib.Core.List.{List, [], ◌∷◌}
use native.Mathlib.Omega.{arith}
use tos_ai.Prelude.Tests.{ltb, leb, ◌==◌, if◌then◌else◌}
use tos_ai.Prelude.Lists.{length, drop, all}

abbrev pub Bytes : Type 0
Bytes = List ℕ

-- The bytes of an ASCII literal.
abbrev pub codes : String → Bytes
codes String.[] = []
codes (String.◌∷◌ c s) = code c ∷ codes s

unfoldable pub bytes_eq : Bytes → Bytes → Bool
bytes_eq [] [] = true
bytes_eq [] (y ∷ ys) = false
bytes_eq (x ∷ xs) [] = false
bytes_eq (x ∷ xs) (y ∷ ys) = (x == y) && bytes_eq xs ys

pub bytes_eq→eq : (a b : Bytes) → bytes_eq a b ≡ true → a ≡ b
unfolding bytes_eq
bytes_eq→eq [] [] h = refl
bytes_eq→eq [] (y ∷ ys) h = ground arith
bytes_eq→eq (x ∷ xs) [] h = ground arith
bytes_eq→eq (x ∷ xs) (y ∷ ys) h = ap₂ ◌∷◌ (ground arith) (bytes_eq→eq xs ys (ground arith))

pub bytes_eq_self : (a : Bytes) → bytes_eq a a ≡ true
unfolding bytes_eq
bytes_eq_self [] = refl
bytes_eq_self (x ∷ xs) = ground (arith, bytes_eq_self xs)

pub bytes_eq_iff : (a b : Bytes) → (bytes_eq a b ≡ true) ↔ (a ≡ b)
bytes_eq_iff a b = (bytes_eq→eq a b, λ e. rw e (bytes_eq_self b))

-- strings.HasPrefix(value, prefix), with the prefix first
unfoldable pub has_prefix : Bytes → Bytes → Bool
has_prefix [] s = true
has_prefix (p ∷ ps) [] = false
has_prefix (p ∷ ps) (c ∷ s) = (p == c) && has_prefix ps s

abbrev pub is_lower_hex : ℕ → Bool
is_lower_hex c = leb b'0' c && leb c b'9' || leb b'a' c && leb c b'f'

-- the digits that `encoding/hex` reads
abbrev pub is_hex : ℕ → Bool
is_hex c = is_lower_hex c || leb b'A' c && leb c b'F'

-- whether `hex.DecodeString` succeeds
unfoldable pub hex_decodes : Bytes → Bool
hex_decodes s = (length s % 2 == 0) && all is_hex s

abbrev pub sha256_prefix : Bytes
sha256_prefix = codes "sha256:"

-- the regular expression `^sha256:[0-9a-f]{64}$`
unfoldable pub is_digest : Bytes → Bool
unfolding has_prefix
is_digest s = has_prefix sha256_prefix s && (length s == 71) && all is_lower_hex (drop 7 s)

-- `hex.EncodeToString`
hex_digit : ℕ → ℕ
hex_digit n = if ltb n 10 then b'0' + n else 87 + n

unfoldable pub hex_encode : Bytes → Bytes
unfolding hex_digit
hex_encode [] = []
hex_encode (x ∷ xs) = hex_digit (x / 16) ∷ hex_digit (x % 16) ∷ hex_encode xs

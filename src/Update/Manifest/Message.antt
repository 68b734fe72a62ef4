-- ===== src/Update/Manifest/Message.antt =====
-- The signing message of pkg/update/manifest.go determines every field that it covers.
use tos_ai.Prelude.{ℕ, ◌/◌, ◌%◌, ◌^◌, ◌<◌, ◌≡◌, refl, ap, [], ◌∷◌, ◌++◌, length, drop, ok, arith}
use tos_ai.Prelude.Int.{ℤ, pos, negsuc}
use tos_ai.Prelude.Text.{Bytes}
use tos_ai.Update.Manifest.{
  Manifest, validate_structure, put_uint32, put_uint64, int64_bits, write_string, signing_message,
}

put_uint32-injective :
    (a b : ℕ) (r s : Bytes)
    → a < 2 ^ 32
    → b < 2 ^ 32
    → put_uint32 a r ≡ put_uint32 b s
    → (a ≡ b) × (r ≡ s)
unfolding put_uint32
put_uint32-injective a b r s ha hb h = ground arith

put_uint64-injective :
    (a b : ℕ) (r s : Bytes)
    → a < 2 ^ 64
    → b < 2 ^ 64
    → put_uint64 a r ≡ put_uint64 b s
    → (a ≡ b) × (r ≡ s)
unfolding put_uint64
put_uint64-injective a b r s ha hb h =
    let (high, rest) =
      put_uint32-injective (a / 2 ^ 32) (b / 2 ^ 32) _ _ (omega arith) (omega arith) h in
    let (low, tail) =
      put_uint32-injective (a % 2 ^ 32) (b % 2 ^ 32) r s (omega arith) (omega arith) rest in
    (omega arith, tail)

append-injective : (a b r s : Bytes) → length a ≡ length b → a ++ r ≡ b ++ s → (a ≡ b) × (r ≡ s)
append-injective [] [] r s l h = (refl, h)
append-injective [] (y ∷ b) r s l h = absurd (omega arith)
append-injective (x ∷ a) [] r s l h = absurd (omega arith)
append-injective (x ∷ a) (y ∷ b) r s l h =
    let (same, rest) = append-injective a b r s (omega arith) (ground arith) in (ground arith, rest)

write_string-injective :
    (a b r s : Bytes)
    → length a < 2 ^ 32
    → length b < 2 ^ 32
    → write_string a r ≡ write_string b s
    → (a ≡ b) × (r ≡ s)
unfolding write_string
write_string-injective a b r s ha hb h =
    let (len, rest) =
      put_uint32-injective (length a % 2 ^ 32) (length b % 2 ^ 32) _ _ (omega arith) (omega arith)
        h in
    append-injective a b r s (omega arith) rest

-- The ranges of Go's uint64 and int64.
abbrev pub IsInt64 : ℤ → Type 0
IsInt64 (pos n) = n < 2 ^ 63
IsInt64 (negsuc n) = n < 2 ^ 63

pub record HasGoTypes (m : Manifest) : Type 0 where
  pub size_bytes : m.size_bytes < 2 ^ 64
  pub security_revision : m.security_revision < 2 ^ 64
  pub issued_at : IsInt64 m.issued_at
  pub expires_at : IsInt64 m.expires_at

int64_bits-lt : (a : ℤ) → IsInt64 a → int64_bits a < 2 ^ 64
unfolding int64_bits
int64_bits-lt (pos n) h = omega arith
int64_bits-lt (negsuc n) h = omega arith

int64_bits-injective : (a b : ℤ) → IsInt64 a → IsInt64 b → int64_bits a ≡ int64_bits b → a ≡ b
unfolding int64_bits
int64_bits-injective (pos n) (pos k) p q h = ap pos h
int64_bits-injective (pos n) (negsuc k) p q h = absurd (omega arith)
int64_bits-injective (negsuc n) (pos k) p q h = absurd (omega arith)
int64_bits-injective (negsuc n) (negsuc k) p q h = ap negsuc (omega arith)

record HasShortTexts (m : Manifest) : Type 0 where
  artifact : length m.artifact < 2 ^ 32
  digest : length m.digest < 2 ^ 32
  target : length m.target < 2 ^ 32
  key_id : length m.key_id < 2 ^ 32

validate_structure-HasShortTexts : (m : Manifest) → validate_structure m ≡ ok tt → HasShortTexts m
unfolding validate_structure
validate_structure-HasShortTexts m h = ground arith

-- Two manifests that are well formed and have one signing message agree in every field but the
-- signature.
pub signing_message-injective :
    (m n : Manifest)
    → HasGoTypes m
    → HasGoTypes n
    → validate_structure m ≡ ok tt
    → validate_structure n ≡ ok tt
    → signing_message m ≡ signing_message n
    → record m { signature = n.signature } ≡ n
unfolding signing_message
signing_message-injective m n gm gn vm vn h =
    let sm = validate_structure-HasShortTexts m vm in
    let sn = validate_structure-HasShortTexts n vn in
    let start = ap (drop 23) h in
    let (artifact, r1) =
      write_string-injective m.artifact n.artifact _ _ sm.artifact sn.artifact (ap (drop 24) h) in
    let (digest, r2) = write_string-injective m.digest n.digest _ _ sm.digest sn.digest r1 in
    let (size_bytes, r3) =
      put_uint64-injective m.size_bytes n.size_bytes _ _ gm.size_bytes gn.size_bytes r2 in
    let (target, r4) = write_string-injective m.target n.target _ _ sm.target sn.target r3 in
    let (revision, r5) =
      put_uint64-injective m.security_revision n.security_revision _ _ gm.security_revision
        gn.security_revision r4 in
    let (issued, r6) =
      put_uint64-injective (int64_bits m.issued_at) (int64_bits n.issued_at) _ _
        (int64_bits-lt m.issued_at gm.issued_at) (int64_bits-lt n.issued_at gn.issued_at) r5 in
    let (expires, r7) =
      put_uint64-injective (int64_bits m.expires_at) (int64_bits n.expires_at) _ _
        (int64_bits-lt m.expires_at gm.expires_at) (int64_bits-lt n.expires_at gn.expires_at) r6 in
    let (key_id, r8) = write_string-injective m.key_id n.key_id [] [] sm.key_id sn.key_id r7 in
    let issued_at = int64_bits-injective m.issued_at n.issued_at gm.issued_at gn.issued_at issued in
    let expires_at =
      int64_bits-injective m.expires_at n.expires_at gm.expires_at gn.expires_at expires in
    ground arith

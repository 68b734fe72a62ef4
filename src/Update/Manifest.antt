-- ===== src/Update/Manifest.antt =====
-- pkg/update/manifest.go: release manifests, their signing message and their verification. Hashing,
-- signatures and base64 are those of Go's crypto and encoding packages, taken as a parameter.
pub mod Message
pub mod Checks
pub mod Acceptance
use tos_ai.Prelude.{
  ℕ, suc, ◌+◌, ◌*◌, ◌/◌, ◌%◌, ◌^◌, ◌-◌, Bool, true, false, not, ◌&&◌, ◌||◌, Option, none, some,
  List, [], ◌∷◌, ◌++◌, ltb, leb, ◌==◌, if◌then◌else◌, length, take, drop, Result, ok, err,
  reject_if,
}
use tos_ai.Prelude.Int.{ℤ, pos, negsuc, leb_ℤ, scaled_leb}
use tos_ai.Prelude.Text.{Bytes, codes, bytes_eq, has_prefix, hex_decodes, hex_encode, sha256_prefix}
use tos_ai.Prelude.Results.{◌>>=◌, ◌>>◌}

pub record Crypto : Type 0 where
  pub sha256 : Bytes → Bytes
  pub ed25519_sign : Bytes → Bytes → Bytes
  pub ed25519_verify : Bytes → Bytes → Bytes → Bool
  pub base64_encode : Bytes → Bytes
  pub base64_decode : Bytes → Option Bytes

pub record Manifest : Type 0 where
  pub version : ℕ  -- uint8
  pub artifact : Bytes
  pub digest : Bytes
  pub size_bytes : ℕ  -- uint64
  pub target : Bytes
  pub security_revision : ℕ  -- uint64
  pub issued_at : ℤ  -- int64
  pub expires_at : ℤ  -- int64
  pub key_id : Bytes
  pub signature : Bytes

pub data ManifestError : Type 0 where
  bad_private_key bad_public_key unsupported_version bad_identity bad_digest bad_interval :
      ManifestError
  target_mismatch revision_rollback bad_signature outside_window : ManifestError
  over_size_limit read_failed size_mismatch digest_mismatch : ManifestError

abbrev pub manifest_version : ℕ
manifest_version = 1

-- 64 << 30
abbrev pub max_artifact_bytes : ℕ
max_artifact_bytes = 64 * 2 ^ 30

abbrev pub public_key_size : ℕ
public_key_size = 32

abbrev pub private_key_size : ℕ
private_key_size = 64

-- strings.TrimPrefix(value, "sha256:")
abbrev trim_sha256 : Bytes → Bytes
trim_sha256 s = if has_prefix sha256_prefix s then drop 7 s else s

unfoldable pub validate_structure : Manifest → Result ManifestError (Unit {0})
unfolding has_prefix hex_decodes
validate_structure m = do
  reject_if (not (m.version == manifest_version)) unsupported_version
  reject_if
      ((length m.artifact == 0)
        || ltb 512 (length m.artifact)
        || (length m.target == 0)
        || ltb 256 (length m.target)
        || (length m.key_id == 0)
        || ltb 512 (length m.key_id))
      bad_identity
  reject_if (not (has_prefix sha256_prefix m.digest) || not (length m.digest == 71)) bad_digest
  reject_if (not (hex_decodes (trim_sha256 m.digest))) bad_digest
  reject_if
      ((m.size_bytes == 0) || ltb max_artifact_bytes m.size_bytes || leb_ℤ m.expires_at m.issued_at)
      bad_interval

-- the bytes of binary.BigEndian for uint32 and uint64
unfoldable pub put_uint32 : ℕ → Bytes → Bytes
put_uint32 n rest = (n / 2 ^ 24 % 256) ∷ (n / 2 ^ 16 % 256) ∷ (n / 2 ^ 8 % 256) ∷ (n % 256) ∷ rest

unfoldable pub put_uint64 : ℕ → Bytes → Bytes
unfolding put_uint32
put_uint64 n rest = put_uint32 (n / 2 ^ 32) (put_uint32 (n % 2 ^ 32) rest)

-- the bit pattern of an int64
unfoldable pub int64_bits : ℤ → ℕ
int64_bits (pos n) = n
int64_bits (negsuc n) = 2 ^ 64 - 1 - n

-- `writeString` puts the length in a uint32, and then the text. Each writer takes what is written
-- after it.
unfoldable pub write_string : Bytes → Bytes → Bytes
write_string value rest = put_uint32 (length value % 2 ^ 32) (value ++ rest)

unfoldable pub signing_message : Manifest → Bytes
signing_message m =
    codes "TOS-AI-UPDATE-MANIFEST"
    ++ 0
      ∷ m.version
      ∷ write_string m.artifact (
          write_string m.digest (
            put_uint64 m.size_bytes (
              write_string m.target (
                put_uint64 m.security_revision (
                  put_uint64 (int64_bits m.issued_at)
                    (put_uint64 (int64_bits m.expires_at) (write_string m.key_id [])))))))

-- An io.Reader as the bytes that it gives, and whether it then fails instead of ending.
pub record Reader : Type 0 where
  pub content : Bytes
  pub fails : Bool

-- io.ReadAll or io.Copy from io.LimitReader(reader, limit): what was read, and whether it failed.
unfoldable pub read_limited : ℕ → Reader → Bytes × Bool
read_limited limit r = (take limit r.content, r.fails && ltb (length r.content) limit)

module _ (crypto : Crypto) where
  -- "sha256:" + hex.EncodeToString(sum)
  unfoldable pub digest_text : Bytes → Bytes
  digest_text value = sha256_prefix ++ hex_encode (crypto.sha256 value)

  unfoldable pub sign : Manifest → Bytes → Result ManifestError Manifest
  sign m private_key = do
    reject_if (not (length private_key == private_key_size)) bad_private_key
    validate_structure m
    ok (record m {
      signature = crypto.base64_encode (crypto.ed25519_sign private_key (signing_message m));
    })

  -- whether the signature decodes and is the key's on the message
  abbrev pub signature_holds : Bytes → Bytes → Option Bytes → Bool
  signature_holds public_key message none = false
  signature_holds public_key message (some signature) =
      crypto.ed25519_verify public_key message signature

  unfoldable pub verify_installed : Manifest → Bytes → Bytes → ℕ → Result ManifestError (Unit {0})
  verify_installed m public_key target current_revision = do
    reject_if (not (length public_key == public_key_size)) bad_public_key
    validate_structure m
    reject_if (not (bytes_eq m.target target)) target_mismatch
    reject_if (ltb m.security_revision current_revision) revision_rollback
    reject_if
        (not (signature_holds public_key (signing_message m) (crypto.base64_decode m.signature)))
        bad_signature

  -- The times of a manifest are in milliseconds, and the clock is in nanoseconds.
  unfoldable pub verify : Manifest → Bytes → Bytes → ℕ → ℤ → Result ManifestError (Unit {0})
  verify m public_key target current_revision now = do
    verify_installed m public_key target current_revision
    reject_if
        (not (scaled_leb m.issued_at 1_000_000 now 1 120_000_000_000)
          || scaled_leb m.expires_at 1_000_000 now 1 0)
        outside_window

  unfoldable pub verify_artifact : Manifest → Reader → Result ManifestError (Unit {0})
  verify_artifact m reader = do
    validate_structure m
    reject_if (ltb max_artifact_bytes m.size_bytes) over_size_limit
    let (written, failed) = read_limited (m.size_bytes + 1) reader
    reject_if failed read_failed
    reject_if (not (length written == m.size_bytes)) size_mismatch
    reject_if (not (bytes_eq (digest_text written) m.digest)) digest_mismatch

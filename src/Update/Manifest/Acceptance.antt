-- ===== src/Update/Manifest/Acceptance.antt =====
-- What `Verify` of pkg/update/manifest.go accepts, described apart from its checks.
use tos_ai.Prelude.{
  Option, [], all, ap, arith, length, none, ok, refl, some, true, ℕ, ◌*◌, ◌+◌, ◌++◌, ◌<◌, ◌^◌, ◌∷◌,
  ◌↔◌, ◌≡◌, ◌≤◌, ◌⊎◌, drop,
}
use tos_ai.Prelude.Int.{ℤ, neg_part, pos_part}
use tos_ai.Prelude.Text.{Bytes, bytes_eq_iff, has_prefix, hex_decodes, is_hex, sha256_prefix}
use tos_ai.Update.Manifest.{
  Crypto, Manifest, signature_holds, signing_message, validate_structure, verify, verify_installed,
}

-- A digit of a hexadecimal number, in either case.
abbrev pub IsHexDigit : ℕ → Type 0
IsHexDigit c = ((b'0' ≤ c) × (c ≤ b'9')) ⊎ ((b'a' ≤ c) × (c ≤ b'f')) ⊎ ((b'A' ≤ c) × (c ≤ b'F'))

abbrev pub AreHexDigits : Bytes → Type 0
AreHexDigits [] = Unit {0}
AreHexDigits (c ∷ s) = IsHexDigit c × AreHexDigits s

-- The length of a text is in a range that begins with one.
abbrev pub IsTextUpTo : ℕ → Bytes → Type 0
IsTextUpTo bound s = (0 < length s) × (length s ≤ bound)

pub record IsWellFormed (m : Manifest) : Type 0 where
  pub version : m.version ≡ 1
  pub artifact : IsTextUpTo 512 m.artifact
  pub target : IsTextUpTo 256 m.target
  pub key_id : IsTextUpTo 512 m.key_id
  pub digest :
      (hex : Bytes) × (m.digest ≡ sha256_prefix ++ hex) × (length hex ≡ 64) × AreHexDigits hex
  pub size_bytes : (0 < m.size_bytes) × (m.size_bytes ≤ 64 * 2 ^ 30)
  pub interval :
      pos_part m.issued_at + neg_part m.expires_at < pos_part m.expires_at + neg_part m.issued_at

-- The manifest is acceptable for the key, the target and the revision, at the time `now` in nanoseconds: it
-- was issued two minutes from now at the latest, and has not expired.
pub record IsAcceptable (crypto : Crypto) (key target : Bytes) (revision : ℕ) (now : ℤ)
    (m : Manifest) : Type 0 where
  pub key_size : length key ≡ 32
  pub well_formed : IsWellFormed m
  pub own_target : m.target ≡ target
  pub no_rollback : revision ≤ m.security_revision
  pub signed :
      (signature : Bytes) × (crypto.base64_decode m.signature ≡ some signature)
      × (crypto.ed25519_verify key (signing_message m) signature ≡ true)
  pub issued :
      pos_part m.issued_at * 1_000_000 + neg_part now
      ≤ pos_part now + neg_part m.issued_at * 1_000_000 + 120_000_000_000
  pub unexpired :
      pos_part now + neg_part m.expires_at * 1_000_000
      < pos_part m.expires_at * 1_000_000 + neg_part now

all-is_hex : (s : Bytes) → (all is_hex s ≡ true) ↔ AreHexDigits s
all-is_hex [] = (λ h. tt, λ h. refl)
all-is_hex (c ∷ s) = (λ h. ground (arith, all-is_hex s), λ h. ground (arith, all-is_hex s))

has_prefix-split : (p s : Bytes) → has_prefix p s ≡ true → s ≡ p ++ drop (length p) s
unfolding has_prefix
has_prefix-split [] s h = refl
has_prefix-split (c ∷ p) [] h = ground arith
has_prefix-split (c ∷ p) (d ∷ s) h = ground (arith, has_prefix-split p s)

has_prefix-append : (p s : Bytes) → has_prefix p (p ++ s) ≡ true
unfolding has_prefix
has_prefix-append [] s = refl
has_prefix-append (c ∷ p) s = ground (arith, has_prefix-append p s)

module _ (m : Manifest) where
  validate_structure-IsWellFormed : validate_structure m ≡ ok tt → IsWellFormed m
  unfolding validate_structure hex_decodes
  validate_structure-IsWellFormed h =
      let prefixed : has_prefix sha256_prefix m.digest ≡ true = ground arith in
      let hex = drop 7 m.digest in
      let split : m.digest ≡ sha256_prefix ++ hex =
        has_prefix-split sha256_prefix m.digest prefixed in
      let digits : all is_hex hex ≡ true = ground arith in
      let size : length m.digest ≡ 71 = ground arith in
      record {
        version = ground arith;
        artifact = ground arith;
        target = ground arith;
        key_id = ground arith;
        digest = (
          hex,
          split,
          omega (arith, size, ap (λ (s : Bytes). length s) split),
          (all-is_hex hex).0 digits,
        );
        size_bytes = ground arith;
        interval = ground arith;
      }

  IsWellFormed-validate_structure : IsWellFormed m → validate_structure m ≡ ok tt
  unfolding validate_structure hex_decodes
  IsWellFormed-validate_structure w =
      let (hex, split, size, digits) = w.digest in
      let hexadecimal = (all-is_hex hex).1 digits in
      let prefixed = has_prefix-append sha256_prefix hex in
      rw (split) (
        ground (
          arith, w.version, w.artifact, w.target, w.key_id, w.size_bytes, w.interval, hexadecimal,
          prefixed, size,
        ))

module _ (crypto : Crypto) (m : Manifest) (key target : Bytes) (revision : ℕ) (now : ℤ) where
  verify-parts :
      verify crypto m key target revision now ≡ ok tt
      → (validate_structure m ≡ ok tt)
        × (signature_holds crypto key (signing_message m) (crypto.base64_decode m.signature) ≡ true)
  unfolding verify verify_installed
  verify-parts h = ground arith

  signature_holds-some :
      (message : Bytes) (signature : Option Bytes)
      → signature_holds crypto key message signature ≡ true
      → (s : Bytes) × (signature ≡ some s) × (crypto.ed25519_verify key message s ≡ true)
  signature_holds-some message none h = cc
  signature_holds-some message (some s) h = (s, refl, h)

  verify-IsAcceptable :
      verify crypto m key target revision now ≡ ok tt
      → IsAcceptable crypto key target revision now m
  unfolding verify verify_installed
  verify-IsAcceptable h =
      let (valid, holds) = verify-parts h in
      record {
        key_size = ground arith;
        well_formed = validate_structure-IsWellFormed m valid;
        own_target = ground (arith, bytes_eq_iff m.target target);
        no_rollback = ground arith;
        signed = signature_holds-some (signing_message m) (crypto.base64_decode m.signature) holds;
        issued = ground arith;
        unexpired = ground arith;
      }

  IsAcceptable-verify :
      IsAcceptable crypto key target revision now m
      → verify crypto m key target revision now ≡ ok tt
  unfolding verify verify_installed
  IsAcceptable-verify a =
      let (signature, decoded, genuine) = a.signed in
      let valid = IsWellFormed-validate_structure m a.well_formed in
      ground (
        arith,
        bytes_eq_iff m.target target,
        a.key_size,
        a.own_target,
        a.no_rollback,
        a.issued,
        a.unexpired,
        valid,
        decoded,
        genuine,
      )

  -- `Verify` accepts exactly when the key has 32 bytes, the manifest is well formed (version, lengths of the
  -- texts, digest of 64 hexadecimal digits, size up to 64 GiB, an expiry after the issue), it is for this
  -- target and of a revision no lower than the current one, its signature decodes and is the key's on the
  -- signing message, it was issued two minutes from now at the latest, and it has not expired.
  pub verify_iff :
      (verify crypto m key target revision now ≡ ok tt)
      ↔ IsAcceptable crypto key target revision now m
  verify_iff = (verify-IsAcceptable, IsAcceptable-verify)

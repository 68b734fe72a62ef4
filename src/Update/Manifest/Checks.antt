-- ===== src/Update/Manifest/Checks.antt =====
-- What the checks of pkg/update/manifest.go accept.
use tos_ai.Prelude.{arith, false, length, length-take, ltb, ok, take-all, ℕ, ◌+◌, ◌↔◌, ◌≡◌, ◌≤◌}
use tos_ai.Prelude.Int.{ℤ}
use tos_ai.Prelude.Text.{Bytes, bytes_eq_iff, bytes_eq→eq}
use tos_ai.Update.Manifest.{
  Crypto, Manifest, Reader, digest_text, max_artifact_bytes, read_limited, validate_structure,
  verify, verify_artifact, verify_installed,
}
use tos_ai.Update.Store.{public_key}

pub whole_read :
    (n : ℕ) (r : Reader)
    → r.fails ≡ false
    → length r.content ≡ n
    → read_limited (n + 1) r ≡ (r.content, false)
unfolding read_limited
whole_read n r ends fits = rw (ends, take-all (n + 1) r.content (omega arith))

exact_read :
    (n : ℕ) (r : Reader)
    → (read_limited (n + 1) r).1 ≡ false
    → length (read_limited (n + 1) r).0 ≡ n
    → (r.fails ≡ false) × (length r.content ≡ n) × ((read_limited (n + 1) r).0 ≡ r.content)
unfolding read_limited
exact_read n r ends fits =
    let size : length r.content ≡ n = omega (arith, length-take (n + 1) r.content) in
    (ground arith, size, take-all (n + 1) r.content (omega arith))

valid_size :
    (m : Manifest) → validate_structure m ≡ ok tt → ltb max_artifact_bytes m.size_bytes ≡ false
unfolding validate_structure
valid_size m h = ground arith

module _ (crypto : Crypto) where
  -- `VerifyArtifact` accepts exactly when the manifest passes the check of its structure, and the artifact
  -- is read to its end, has the size of the manifest to the byte, and hashes to the manifest's digest.
  pub verify_artifact_iff :
      (m : Manifest) (reader : Reader)
      → (verify_artifact crypto m reader ≡ ok tt) ↔ (
          (validate_structure m ≡ ok tt)
          × (reader.fails ≡ false)
          × (length reader.content ≡ m.size_bytes)
          × (digest_text crypto reader.content ≡ m.digest))
  unfolding verify_artifact
  verify_artifact_iff m reader =
      let check = digest_text crypto (read_limited (m.size_bytes + 1) reader).0 in
      (
        λ h.
            let (ends, fits, same) = exact_read m.size_bytes reader (ground arith) (ground arith) in
            let hashes : digest_text crypto reader.content ≡ m.digest =
              rw (← same) (ground (arith, bytes_eq_iff check m.digest)) in
            (ground arith, ends, fits, hashes),
        λ (valid, ends, fits, hashes).
            rw (valid, valid_size m valid, whole_read m.size_bytes reader ends fits, fits, hashes)
              (ground (arith, bytes_eq_iff m.digest m.digest)),
      )

  -- What `Verify` accepts, `VerifyInstalled` accepts under any revision up to the manifest's own.
  pub verify-verify_installed :
      (m : Manifest) (public_key target : Bytes) (current later : ℕ) (now : ℤ)
      → verify crypto m public_key target current now ≡ ok tt
      → later ≤ m.security_revision
      → verify_installed crypto m public_key target later ≡ ok tt
  unfolding verify verify_installed
  verify-verify_installed m public_key target current later now h bound = ground arith

  -- An accepted manifest is for this target, and its revision is no lower than the current one.
  pub verify_accepts :
      (m : Manifest) (public_key target : Bytes) (current : ℕ) (now : ℤ)
      → verify crypto m public_key target current now ≡ ok tt
      → (validate_structure m ≡ ok tt) × (m.target ≡ target) × (current ≤ m.security_revision)
  unfolding verify verify_installed
  verify_accepts m public_key target current now h = ground (arith, bytes_eq→eq m.target target)

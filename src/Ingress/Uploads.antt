-- ===== src/Ingress/Uploads.antt =====
-- An upload that is accepted can be opened as the bytes that were decrypted.
use tos_ai.Ingress.Accepting.{
  IngressWorld, accept, accept_content, accepted_of, open_accepted, open_object_file, place_object,
  private_key_of, settle_upload, with_accepted,
}
use tos_ai.Ingress.Contents.{
  AcceptedRecord, ChallengeRecord, HandoffAuthorization, Ingress, IngressAction, IngressFile,
  IngressKit, IngressWriteFaults, create_object, file_of, find_challenge, object_file_name,
  replace_challenge,
}
use tos_ai.Ingress.Handoff.{no_open_faults, replace_challenge-objects}
use tos_ai.Prelude.{
  ==_iff, Bool-cases, Option-cases, ap, arith, inl, inr, length, none, ok, refl, some, sym, take,
  take-all, true, ◌++◌, ◌+◌, ◌==◌, ◌∙◌, ◌≡◌,
}
use tos_ai.Prelude.Exec.{◌>>=◌}
use tos_ai.Prelude.Results.{Result-cases}
use tos_ai.Prelude.Text.{
  Bytes, bytes_eq, bytes_eq_iff, bytes_eq_self, bytes_eq→eq, hex_encode, is_digest, sha256_prefix,
}

module _ (kit : IngressKit) where
  create_object-ok :
      (io : IngressWriteFaults) (name content : Bytes) (s : Ingress)
      → (create_object kit io name content s).0 ≡ ok tt
      → (create_object kit io name content s).1.objects name ≡ some (file_of content)
  unfolding create_object ◌>>=◌
  create_object-ok io name content s h = ground (arith, bytes_eq_self name)

  create_object-regular :
      (io : IngressWriteFaults) (name content : Bytes) (s : Ingress)
      → ((f : IngressFile) → s.objects name ≡ some f → f.regular ≡ true)
      → (g : IngressFile) → (create_object kit io name content s).1.objects name ≡ some g
      → g.regular ≡ true
  unfolding create_object ◌>>=◌
  create_object-regular io name content s regular g h = elim (Option-cases (s.objects name)) [
    | inr (f, present) ↦ let here = regular f present in ground arith
    | inl missing ↦ elim (Bool-cases io.create) [
      | inl refused ↦ ground arith
      | inr through ↦ ground (arith, bytes_eq_self name)
    ]
  ]

  place_object-ok :
      (world : IngressWorld) (name plaintext : Bytes) (s : Ingress)
      → ((f : IngressFile) → s.objects name ≡ some f → f.regular ≡ true)
      → (place_object kit world name plaintext s).0 ≡ ok tt
      → (g : IngressFile) × ((place_object kit world name plaintext s).1.objects name ≡ some g)
        × (g.regular ≡ true)
        × (g.content ≡ plaintext)
  unfolding place_object
  place_object-ok world name plaintext s regular h =
      let created = create_object kit world.create name plaintext s in
      elim (Result-cases created.0) [
        | inr (_, done) ↦
            let there = create_object-ok world.create name plaintext s done in
            (file_of plaintext, ground (arith, there), refl, refl)
        | inl (e, failed) ↦ elim (Option-cases (created.1.objects name)) [
          | inl missing ↦ ground arith
          | inr (g, present) ↦
              let is_regular =
                create_object-regular world.create name plaintext s regular g present in
              (
                g,
                ground (arith, present),
                is_regular,
                bytes_eq→eq g.content plaintext (ground arith),
              )
        ]
      ]

  -- What a first upload that succeeds tells: what was decrypted, and the object that holds it.
  accept_content-ok :
      (world : IngressWorld) (name challenge_digest : Bytes) (authorization : HandoffAuthorization)
      (ciphertext : Bytes) (action : IngressAction) (digest : Bytes) (r : ChallengeRecord)
      (s : Ingress) (accepted : AcceptedRecord)
      → let own = object_file_name authorization.content_digest in
        let after =
          accept_content kit world name challenge_digest authorization ciphertext action digest r
            s in
        ((f : IngressFile) → s.objects own ≡ some f → f.regular ≡ true)
        → after.0 ≡ ok accepted
        → (key plaintext manifest_digest : Bytes) × (g : IngressFile) × (kit.open_content
              r.challenge authorization ciphertext key world.now
            ≡ some plaintext)
          × (accepted
              ≡ accepted_of kit world.now challenge_digest digest manifest_digest plaintext
                  authorization action r.challenge.body)
          × (after.1.objects own ≡ some g)
          × (g.regular ≡ true)
          × (g.content ≡ plaintext)
  unfolding accept_content ◌>>=◌
  accept_content-ok world name challenge_digest authorization ciphertext action digest r s accepted
        regular h =
      let own = object_file_name authorization.content_digest in
      elim (Result-cases (private_key_of kit r)) [
        | inl (e, refused) ↦ ground arith
        | inr (key, has_key) ↦
            elim (Option-cases
              (kit.open_content r.challenge authorization ciphertext key world.now)) [
                | inl refused ↦ ground arith
                | inr (plaintext, opened) ↦
                    let placed = place_object kit world own plaintext s in
                    elim (Result-cases placed.0) [
                      | inl (e, failed) ↦ ground arith
                      | inr (_, is_placed) ↦
                          elim (Option-cases (kit.manifest_digest authorization)) [
                            | inl missing ↦ ground arith
                            | inr (manifest_digest, digested) ↦
                                let (g, there, is_regular, same) =
                                  place_object-ok world own plaintext s regular is_placed in
                                let accepted' =
                                  accepted_of kit world.now challenge_digest digest manifest_digest
                                    plaintext authorization action r.challenge.body in
                                let written =
                                  replace_challenge kit world.replace name
                                    (with_accepted kit accepted' digest r) placed.1 in
                                let kept =
                                  replace_challenge-objects kit world.replace name
                                    (with_accepted kit accepted' digest r) placed.1 in
                                elim (Result-cases written.0) [
                                  | inl (e, failed) ↦ ground arith
                                  | inr (_, done) ↦
                                      let still : written.1.objects own ≡ some g =
                                        ap (λ files. files own) kept ∙ there in
                                      (
                                        key,
                                        plaintext,
                                        manifest_digest,
                                        g,
                                        opened,
                                        ground arith,
                                        ground (arith, still),
                                        is_regular,
                                        same,
                                      )
                                ]
                          ]
                    ]
              ]
      ]

  accept-accept_content :
      (world : IngressWorld) (challenge_digest : Bytes) (authorization : HandoffAuthorization)
      (ciphertext : Bytes) (action : IngressAction) (fence : Bytes) (s : Ingress) (name : Bytes)
      (r : ChallengeRecord) (accepted : AcceptedRecord)
      → find_challenge kit world.list s.challenges challenge_digest world.entries ≡ ok (name, r)
      → r.accepted ≡ none
      → (accept kit world challenge_digest authorization ciphertext action fence s).0 ≡ ok accepted
      → (digest : Bytes) × (accept kit world challenge_digest authorization ciphertext action fence
            s
          ≡ accept_content kit world name challenge_digest authorization ciphertext action digest r
              s)
  unfolding accept settle_upload ◌>>=◌
  accept-accept_content world challenge_digest authorization ciphertext action fence s name r
        accepted found fresh h =
      elim (Option-cases (kit.authorization_digest authorization)) [
        | inl missing ↦ ground arith
        | inr (digest, digested) ↦ (digest, ground arith)
      ]

  open_accepted-reads :
      (accepted : AcceptedRecord) (s : Ingress) (g : IngressFile)
      → is_digest accepted.content_digest ≡ true
      → accepted.immutable_object_digest ≡ accepted.content_digest
      → s.objects (object_file_name accepted.content_digest) ≡ some g
      → g.regular ≡ true
      → length g.content ≡ accepted.plaintext_bytes
      → sha256_prefix ++ hex_encode (kit.sha256 g.content) ≡ accepted.content_digest
      → (open_accepted kit no_open_faults accepted s).0 ≡ ok g.content
  unfolding open_accepted open_object_file ◌>>=◌
  open_accepted-reads accepted s g is_sum immutable there regular size hashes =
      let whole = take-all (accepted.plaintext_bytes + 1) g.content (omega (arith, size)) in
      let same_size : (length g.content == accepted.plaintext_bytes) ≡ true =
        (==_iff (length g.content) accepted.plaintext_bytes).1 size in
      let same_digest : bytes_eq accepted.immutable_object_digest accepted.content_digest ≡ true =
        (bytes_eq_iff accepted.immutable_object_digest accepted.content_digest).1 immutable in
      let same_sum : bytes_eq
            (sha256_prefix
              ++ hex_encode (kit.sha256 (take (accepted.plaintext_bytes + 1) g.content)))
            accepted.content_digest
          ≡ true =
        (bytes_eq_iff _ accepted.content_digest).1 (rw whole hashes) in
      rw (is_sum, same_digest, there, regular, same_size, same_sum) refl

  -- A first upload that Accept has accepted can be opened as the bytes that were decrypted: if the object's
  -- file is regular should it exist already, the manifest's content digest is well formed, and decryption
  -- returns only bytes that have that digest, then OpenAccepted returns them, if no system call of it fails.
  pub accept-open_accepted :
      (world : IngressWorld) (challenge_digest : Bytes) (authorization : HandoffAuthorization)
      (ciphertext : Bytes) (action : IngressAction) (fence : Bytes) (s : Ingress) (name : Bytes)
      (r : ChallengeRecord) (accepted : AcceptedRecord)
      → find_challenge kit world.list s.challenges challenge_digest world.entries ≡ ok (name, r)
      → r.accepted ≡ none
      → ((f : IngressFile)
          → s.objects (object_file_name authorization.content_digest) ≡ some f
          → f.regular ≡ true)
      → is_digest authorization.content_digest ≡ true
      → ((key plaintext : Bytes)
          → kit.open_content r.challenge authorization ciphertext key world.now ≡ some plaintext
          → sha256_prefix ++ hex_encode (kit.sha256 plaintext) ≡ authorization.content_digest)
      → (accept kit world challenge_digest authorization ciphertext action fence s).0 ≡ ok accepted
      → let after = (accept kit world challenge_digest authorization ciphertext action fence s).1 in
        (key plaintext : Bytes) × (kit.open_content r.challenge authorization ciphertext key
            world.now
          ≡ some plaintext)
        × ((open_accepted kit no_open_faults accepted after).0 ≡ ok plaintext)
  unfolding accepted_of
  accept-open_accepted world challenge_digest authorization ciphertext action fence s name r
        accepted found fresh regular is_sum decrypts h =
      let after = accept kit world challenge_digest authorization ciphertext action fence s in
      let (digest, same) =
        accept-accept_content world challenge_digest authorization ciphertext action fence s name r
          accepted found fresh h in
      let (key, plaintext, manifest_digest, g, opened, is_accepted, there, is_regular, content) =
        accept_content-ok world name challenge_digest authorization ciphertext action digest r s
          accepted regular (sym (ap (λ m. m.0) same) ∙ h) in
      let there' : after.1.objects (object_file_name authorization.content_digest) ≡ some g =
        ap (λ m. m.1.objects (object_file_name authorization.content_digest)) same ∙ there in
      let of_content : accepted.content_digest ≡ authorization.content_digest =
        ap (λ (a : AcceptedRecord). a.content_digest) is_accepted in
      let size : length g.content ≡ accepted.plaintext_bytes =
        ap length content ∙ sym (ap (λ (a : AcceptedRecord). a.plaintext_bytes) is_accepted) in
      let hashes : sha256_prefix ++ hex_encode (kit.sha256 g.content) ≡ accepted.content_digest =
        ap (λ c. sha256_prefix ++ hex_encode (kit.sha256 c)) content
        ∙ decrypts key plaintext opened
        ∙ sym of_content in
      (
        key,
        plaintext,
        opened,
        open_accepted-reads accepted after.1 g (rw of_content is_sum)
              (ap (λ (a : AcceptedRecord). a.immutable_object_digest) is_accepted ∙ sym of_content)
              (rw of_content there') is_regular size hashes
            ∙ ap ok content,
      )

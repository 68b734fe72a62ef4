-- ===== src/Ingress/Accepting.antt =====
-- `IssueChallenge`, `Accept`, `OpenAccepted`, `Acknowledge` and `Close` of pkg/privateingress/store.go. Time is in seconds.
use tos_ai.Commerce.Plan.{SemanticFields, digest32, id}
use tos_ai.Ingress.Contents.{
  AcceptedRecord, ChallengeBody, ChallengeRecord, HandoffAuthorization, Ingress, IngressAction,
  IngressAuthority, IngressError, IngressFile, IngressKit, IngressMethod, IngressReadFaults,
  IngressWriteFaults, SignedChallenge, acknowledge_failed, challenge_conflict, challenge_file_name,
  challenge_schema, conflicting_bytes, content_refused, create_challenge, create_object,
  digest_changed, digest_failed, fence_rejected, fence_stale, find_challenge, ingress_unavailable,
  invalid_accepted, invalid_challenge, invalid_key, invalid_upload, key_failed, not_deleting,
  object_changed, object_conflict, object_file_name, object_unavailable, open_failed,
  read_challenge, read_failed, record_not_there, replace_challenge, seek_object_failed, sign_failed,
  upload_not_authorized,
}
use tos_ai.Prelude.{
  Bool, List, Option, Result, [], err, false, if◌then◌else◌, length, none, not, ok, some, take,
  true, ℕ, ◌&&◌, ◌++◌, ◌+◌, ◌==◌, ◌||◌, ◌∷◌,
}
use tos_ai.Prelude.Exec.{gets, lift, pure, raise, raise_if, ◌>>=◌, ◌>>◌}
use tos_ai.Prelude.Text.{Bytes, bytes_eq, codes, hex_encode, is_digest, sha256_prefix}

-- What a call meets: the clock, the authority, the directory's entries, and failures.
pub record IngressWorld : Type 0 where
  pub now : ℕ
  pub authority : IngressAuthority
  pub list : Bool
  pub entries : List (Bool × Bytes × IngressReadFaults)
  pub create : IngressWriteFaults
  pub read_object : Bool
  pub replace : IngressWriteFaults
  pub remove : Bool
  pub sync_directory : Bool
  pub replace_end : IngressWriteFaults

pub record IssueWorld : Type 0 where
  pub read : IngressReadFaults
  pub private_key : Option Bytes
  pub create : IngressWriteFaults
  pub read_again : IngressReadFaults

pub record OpenFaults : Type 0 where
  pub stat : Bool
  pub opening : Bool
  pub changed : Bool
  pub read : Bool
  pub seek : Bool

-- `value, err := f(); if err != nil { return err }`
abbrev pub found_or {ℓ} : {A : Type ℓ} → IngressError → Option A → Result IngressError A
found_or e none = err e
found_or e (some a) = ok a

abbrev pub is_missing : IngressError → Bool
is_missing record_not_there = true
is_missing _ = false

-- What a digest that is not checked for its error is compared as.
abbrev pub digest_or_empty : Option Bytes → Bytes
digest_or_empty none = []
digest_or_empty (some digest) = digest

module _ (kit : IngressKit) where
  abbrev pub same_challenge : ChallengeBody → ChallengeBody → Bool
  same_challenge a b =
      bytes_eq (digest_or_empty (kit.challenge_digest a)) (digest_or_empty (kit.challenge_digest b))

  -- A handoff that has a challenge: the same one, or a conflict.
  unfoldable pub reissue : ChallengeBody → ChallengeRecord → Result IngressError SignedChallenge
  reissue body existing =
      let key = existing.challenge.body.receiver_encryption_public_key in
      elim (kit.sign_challenge (record body { receiver_encryption_public_key = key })) [
        | none ↦ err challenge_conflict
        | some candidate ↦
            if same_challenge candidate.body existing.challenge.body
            then ok existing.challenge
            else err challenge_conflict
      ]

  unfoldable pub fresh_challenge : SignedChallenge → Bytes → ChallengeRecord
  fresh_challenge challenge key = record {
    schema = challenge_schema;
    challenge = challenge;
    encryption_private_key = kit.encode64 key;
    accepted = none;
    authorization_digest = [];
    deletion_action_id = [];
    deletion_request_digest = [];
    deletion_state = not_deleting;
    deleted_at_unix = 0;
  }

  -- When the record cannot be created, one that is there for the same challenge is taken.
  unfoldable pub adopt_challenge :
      IngressReadFaults → Bytes → Bytes → IngressError → IngressMethod SignedChallenge
  adopt_challenge io name digest e s = elim (read_challenge kit io (s.challenges name)) [
    | err unread ↦ (err e, s)
    | ok r ↦
        if bytes_eq (digest_or_empty (kit.challenge_digest r.challenge.body)) digest
        then (ok r.challenge, s)
        else (err e, s)
  ]

  unfoldable pub create_or_adopt :
      IssueWorld → Bytes → Bytes → SignedChallenge → Bytes → IngressMethod SignedChallenge
  create_or_adopt world name digest challenge key s =
      let created =
        create_challenge kit world.create name (kit.encode (fresh_challenge challenge key)) s in
      elim created.0 [
        | ok done ↦ (ok challenge, created.1)
        | err e ↦ adopt_challenge world.read_again name digest e created.1
      ]

  unfoldable pub issue_fresh : IssueWorld → ChallengeBody → IngressMethod SignedChallenge
  issue_fresh world body = do
    key ← lift (found_or key_failed world.private_key)
    let body' = record body { receiver_encryption_public_key = kit.encode64 (kit.public_key key) }
    challenge ← lift (found_or sign_failed (kit.sign_challenge body'))
    digest ← lift (found_or digest_failed (kit.challenge_digest body'))
    create_or_adopt world (challenge_file_name kit body.handoff_id) digest challenge key

  unfoldable pub settle_challenge :
      IssueWorld
      → ChallengeBody
      → Result IngressError ChallengeRecord
      → IngressMethod SignedChallenge
  settle_challenge world body (ok existing) = lift (reissue body existing)
  settle_challenge world body (err e) = if is_missing e then issue_fresh world body else raise e

  -- `IssueChallenge`
  unfoldable pub issue_challenge : IssueWorld → ChallengeBody → IngressMethod SignedChallenge
  issue_challenge world body = do
    s ← gets (λ s. s)
    raise_if
        (not s.has_lock
          || not (bytes_eq body.receiver_agent_id s.receiver_agent)
          || (length body.ingress_instance_id == 0))
        invalid_challenge
    settle_challenge world body
        (read_challenge kit world.read (s.challenges (challenge_file_name kit body.handoff_id)))

  unfoldable pub upload_fields : Bytes → Bytes → ChallengeBody → Bytes → SemanticFields
  upload_fields owner_id agent_id body manifest_digest =
      (codes "owner_id", id owner_id)
      ∷ (codes "agent_id", id agent_id)
      ∷ (codes "agreement_body_digest", digest32 body.agreement_body_digest)
      ∷ (codes "obligation_id", id body.obligation_id)
      ∷ (codes "handoff_id", id body.handoff_id)
      ∷ (codes "sender_id", id body.sender_agent_id)
      ∷ (codes "receiver_id", id body.receiver_agent_id)
      ∷ (codes "content_manifest_digest", digest32 manifest_digest)
      ∷ []

  -- `UploadAuthorizationMaterial`; a failure is an error of the upload's authorization
  unfoldable pub upload_material :
      Bytes → Bytes → SignedChallenge → HandoffAuthorization → Option (Bytes × SemanticFields)
  upload_material owner_id agent_id challenge authorization =
      elim (kit.challenge_digest challenge.body) [
        | none ↦ none
        | some digest ↦ elim (kit.manifest_digest authorization) [
          | none ↦ none
          | some manifest_digest ↦
              elim (kit.marshal_upload (record {
                challenge_digest = digest;
                authorization = authorization;
                ciphertext_digest = authorization.ciphertext_digest;
                ciphertext_bytes = authorization.ciphertext_bytes;
              })) [
                | none ↦ none
                | some canonical ↦
                    some (canonical, upload_fields owner_id agent_id challenge.body manifest_digest)
              ]
        ]
      ]

  unfoldable pub is_authorized :
      IngressWorld → IngressAction → Bytes → Option (Bytes × SemanticFields) → Bool
  is_authorized world action fence none = false
  is_authorized world action fence (some (canonical, fields)) =
      world.authority.verify_action action fields canonical fence world.now

  unfoldable pub replays_upload : Bytes → IngressAction → ChallengeRecord → AcceptedRecord → Bool
  replays_upload digest action r accepted =
      bytes_eq r.authorization_digest digest
      && bytes_eq accepted.upload_action_id action.stable_action_id

  unfoldable pub private_key_of : ChallengeRecord → Result IngressError Bytes
  private_key_of r = elim (kit.decode64 r.encryption_private_key) [
    | none ↦ err invalid_key
    | some raw ↦ if (length raw == 32) && kit.usable_key raw then ok raw else err invalid_key
  ]

  abbrev pub object_content : Option IngressFile → Option Bytes
  object_content none = none
  object_content (some f) = some f.content

  -- The object is created, or is there with the same bytes.
  unfoldable pub place_object : IngressWorld → Bytes → Bytes → IngressMethod (Unit {0})
  place_object world name plaintext s =
      let created = create_object kit world.create name plaintext s in
      elim created.0 [
        | ok done ↦ (ok tt, created.1)
        | err e ↦ elim (object_content (created.1.objects name)) [
          | none ↦ (err object_conflict, created.1)
          | some existing ↦
              if not world.read_object && bytes_eq existing plaintext
              then (ok tt, created.1)
              else (err object_conflict, created.1)
        ]
      ]

  unfoldable pub accepted_of :
      ℕ
      → Bytes
      → Bytes
      → Bytes
      → Bytes
      → HandoffAuthorization
      → IngressAction
      → ChallengeBody
      → AcceptedRecord
  accepted_of now challenge_digest authorization_digest manifest_digest plaintext authorization
        action body =
      record {
        schema_version = 1;
        handoff_id = body.handoff_id;
        challenge_digest = challenge_digest;
        authorization_digest = authorization_digest;
        upload_action_id = action.stable_action_id;
        sender_disclosure_action_id = authorization.sender_disclosure_action_id;
        content_digest = authorization.content_digest;
        content_manifest_digest = manifest_digest;
        plaintext_bytes = length plaintext;
        immutable_object_digest = authorization.content_digest;
        retention_policy_digest = body.retention_policy_digest;
        accepted_at_unix = now;
        delete_not_after_unix = body.delete_not_after_unix;
      }

  -- The record of a challenge that has accepted its content; the key is forgotten.
  unfoldable pub with_accepted : AcceptedRecord → Bytes → ChallengeRecord → ChallengeRecord
  with_accepted accepted digest r = record r {
    accepted = some accepted;
    authorization_digest = digest;
    encryption_private_key = [];
  }

  -- The first upload for the challenge.
  unfoldable pub accept_content :
      IngressWorld
      → Bytes
      → Bytes
      → HandoffAuthorization
      → Bytes
      → IngressAction
      → Bytes
      → ChallengeRecord
      → IngressMethod AcceptedRecord
  accept_content world name challenge_digest authorization ciphertext action digest r = do
    key ← lift (private_key_of r)
    plaintext ← lift (
        found_or content_refused
          (kit.open_content r.challenge authorization ciphertext key world.now))
    place_object world (object_file_name authorization.content_digest) plaintext
    manifest_digest ← lift (found_or digest_failed (kit.manifest_digest authorization))
    let accepted =
        accepted_of world.now challenge_digest digest manifest_digest plaintext authorization action
          r.challenge.body
    replace_challenge kit world.replace name (with_accepted accepted digest r)
    pure accepted

  unfoldable pub settle_upload :
      IngressWorld
      → Bytes
      → Bytes
      → HandoffAuthorization
      → Bytes
      → IngressAction
      → Bytes
      → ChallengeRecord
      → Option AcceptedRecord
      → IngressMethod AcceptedRecord
  settle_upload world name challenge_digest authorization ciphertext action digest r
        (some accepted) =
      if replays_upload digest action r accepted then pure accepted else raise conflicting_bytes
  settle_upload world name challenge_digest authorization ciphertext action digest r none =
      accept_content world name challenge_digest authorization ciphertext action digest r

  -- `Accept`
  unfoldable pub accept :
      IngressWorld
      → Bytes
      → HandoffAuthorization
      → Bytes
      → IngressAction
      → Bytes
      → IngressMethod AcceptedRecord
  accept world challenge_digest authorization ciphertext action fence = do
    s ← gets (λ s. s)
    raise_if
        (not s.has_lock
          || not (bytes_eq action.action_kind (codes "content.upload"))
          || not (is_digest challenge_digest))
        invalid_upload
    raise_if (not (world.authority.verify_fence fence world.now (codes "content.upload")))
        fence_rejected
    raise_if (not (world.authority.confirm_current fence world.now)) fence_stale
    found ← lift (find_challenge kit world.list s.challenges challenge_digest world.entries)
    raise_if
        (not (bytes_eq authorization.challenge_digest challenge_digest)
          || not (
              is_authorized world action fence
                (upload_material action.owner_id action.agent_id found.1.challenge authorization)))
        upload_not_authorized
    digest ← lift (found_or digest_failed (kit.authorization_digest authorization))
    settle_upload world found.0 challenge_digest authorization ciphertext action digest found.1
        found.1.accepted

  -- `openAccepted`: the bytes of the file that is returned
  unfoldable pub open_object_file :
      OpenFaults → AcceptedRecord → Option IngressFile → Result IngressError Bytes
  open_object_file io accepted none = err object_unavailable
  open_object_file io accepted (some f) =
      if io.stat || not f.regular || not (length f.content == accepted.plaintext_bytes)
      then err object_unavailable
      else if io.opening
      then err open_failed
      else if io.changed
      then err object_changed
      else if io.read
      then err read_failed
      else if not (
          bytes_eq
            (sha256_prefix
              ++ hex_encode (kit.sha256 (take (accepted.plaintext_bytes + 1) f.content)))
            accepted.content_digest)
      then err digest_changed
      else if io.seek
      then err seek_object_failed
      else ok f.content

  -- `OpenAccepted`
  unfoldable pub open_accepted : OpenFaults → AcceptedRecord → IngressMethod Bytes
  open_accepted io accepted = do
    raise_if
        (not (is_digest accepted.content_digest)
          || not (bytes_eq accepted.immutable_object_digest accepted.content_digest))
        invalid_accepted
    s ← gets (λ s. s)
    lift (open_object_file io accepted (s.objects (object_file_name accepted.content_digest)))

  -- `Acknowledge`, where `sign` is the signature over the record for the receiver
  unfoldable pub acknowledge :
      (AcceptedRecord → Bytes → Option Bytes) → OpenFaults → AcceptedRecord → IngressMethod Bytes
  acknowledge sign io accepted = do
    s ← gets (λ s. s)
    raise_if (not s.has_lock) ingress_unavailable
    content ← open_accepted io accepted
    lift (found_or acknowledge_failed (sign accepted s.receiver_agent))

-- `Close`, on the lock. It also zeroes the bytes of the signing key, which is left out: the methods that sign
-- look for the lock first.
unfoldable pub close_ingress : Ingress → Ingress
close_ingress s = record s { has_lock = false }

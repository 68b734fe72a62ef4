-- ===== src/Ingress/Contents.antt =====
-- The records, the files and the helpers of pkg/privateingress/store.go. What a handoff signs and encrypts is
-- the package agentcommerce's, and a parameter.
use tos_ai.Commerce.Plan.{SemanticFields}
use tos_ai.Prelude.{
  Bool, List, Option, Result, [], drop, err, false, if◌then◌else◌, length, ltb, none, not, ok, some,
  take, true, ℕ, ◌&&◌, ◌++◌, ◌==◌, ◌||◌, ◌∷◌,
}
use tos_ai.Prelude.Exec.{Exec, gets, modify, raise_if, ◌>>=◌, ◌>>◌}
use tos_ai.Prelude.Text.{Bytes, bytes_eq, codes, has_prefix, hex_encode}

-- What the store uses of a commerce.PrivateHandoffChallengeBody. `terms` stands for the rest of it.
pub record ChallengeBody : Type 0 where
  pub handoff_id : Bytes
  pub ingress_instance_id : Bytes
  pub agreement_body_digest : Bytes
  pub obligation_id : Bytes
  pub sender_agent_id : Bytes
  pub receiver_agent_id : Bytes
  pub receiver_encryption_public_key : Bytes
  pub retention_policy_digest : Bytes
  pub delete_not_after_unix : ℕ  -- uint64
  pub terms : Bytes

pub record SignedChallenge : Type 0 where
  pub body : ChallengeBody
  pub signature : Bytes

-- What the store uses of a commerce.SignedPrivateHandoffAuthorization, with its manifest's content digest.
-- `terms` stands for the rest of it.
pub record HandoffAuthorization : Type 0 where
  pub challenge_digest : Bytes
  pub ciphertext_digest : Bytes
  pub ciphertext_bytes : ℕ  -- uint64
  pub content_digest : Bytes
  pub sender_disclosure_action_id : Bytes
  pub terms : Bytes

pub record AcceptedRecord : Type 0 where
  pub schema_version : ℕ
  pub handoff_id : Bytes
  pub challenge_digest : Bytes
  pub authorization_digest : Bytes
  pub upload_action_id : Bytes
  pub sender_disclosure_action_id : Bytes
  pub content_digest : Bytes
  pub content_manifest_digest : Bytes
  pub plaintext_bytes : ℕ  -- uint64
  pub immutable_object_digest : Bytes
  pub retention_policy_digest : Bytes
  pub accepted_at_unix : ℕ  -- uint64
  pub delete_not_after_unix : ℕ  -- uint64

pub data DeletionState : Type 0 where
  not_deleting deleting deleted : DeletionState
  other_deletion_state : Bytes → DeletionState

pub record ChallengeRecord : Type 0 where
  pub schema : Bytes
  pub challenge : SignedChallenge
  pub encryption_private_key : Bytes
  pub accepted : Option AcceptedRecord
  pub authorization_digest : Bytes
  pub deletion_action_id : Bytes
  pub deletion_request_digest : Bytes
  pub deletion_state : DeletionState
  pub deleted_at_unix : ℕ  -- uint64

pub record UploadRequest : Type 0 where
  pub challenge_digest : Bytes
  pub authorization : HandoffAuthorization
  pub ciphertext_digest : Bytes
  pub ciphertext_bytes : ℕ

pub record DeleteRequest : Type 0 where
  pub handoff_id : Bytes
  pub agreement_body_digest : Bytes
  pub obligation_id : Bytes
  pub content_manifest_digest : Bytes
  pub retention_policy_digest : Bytes

-- What the store uses of a commerce.AuthorizedAction and a commerce.WriterFence.
pub record IngressAction : Type 0 where
  pub action_kind : Bytes
  pub owner_id : Bytes
  pub agent_id : Bytes
  pub stable_action_id : Bytes
  pub proof : Bytes

-- The answers of the authorities at the time of a call: whether they return no error.
pub record IngressAuthority : Type 0 where
  pub verify_fence : Bytes → ℕ → Bytes → Bool
  pub confirm_current : Bytes → ℕ → Bool
  pub verify_action : IngressAction → SemanticFields → Bytes → Bytes → ℕ → Bool

-- The functions of other packages: SHA-256, `base64.RawURLEncoding`, X25519 keys, the digests, signatures and
-- decryption of agentcommerce, `codec`, and JSON. `none` is an error.
pub record IngressKit : Type 0 where
  pub sha256 : Bytes → Bytes
  pub encode64 : Bytes → Bytes
  pub decode64 : Bytes → Option Bytes
  pub public_key : Bytes → Bytes
  pub usable_key : Bytes → Bool
  pub challenge_digest : ChallengeBody → Option Bytes
  pub sign_challenge : ChallengeBody → Option SignedChallenge
  pub authorization_digest : HandoffAuthorization → Option Bytes
  pub manifest_digest : HandoffAuthorization → Option Bytes
  pub open_content : SignedChallenge → HandoffAuthorization → Bytes → Bytes → ℕ → Option Bytes
  pub request_digest : Bytes → Bytes
  pub marshal_upload : UploadRequest → Option Bytes
  pub marshal_delete : DeleteRequest → Option Bytes
  pub encode : ChallengeRecord → Bytes
  pub decode : Bytes → Option ChallengeRecord

pub record IngressFile : Type 0 where
  pub regular : Bool
  pub perm : ℕ
  pub content : Bytes

-- The challenge records and the objects, by file name: the two kinds of names differ at their first letter.
pub record Ingress : Type 0 where
  pub has_lock : Bool
  pub receiver_agent : Bytes
  pub challenges : Bytes → Option IngressFile
  pub objects : Bytes → Option IngressFile

pub data IngressError : Type 0 where
  invalid_challenge challenge_conflict key_failed sign_failed digest_failed : IngressError
  record_not_there invalid_record malformed_record stat_failed read_failed : IngressError
  create_failed write_failed sync_failed close_failed random_failed rename_failed : IngressError
  sync_files_failed invalid_upload fence_rejected fence_stale list_failed : IngressError
  too_many_entries upload_not_authorized conflicting_bytes invalid_key content_refused :
      IngressError
  object_conflict invalid_accepted object_unavailable open_failed object_changed : IngressError
  digest_changed seek_object_failed ingress_unavailable acknowledge_failed invalid_deletion :
      IngressError
  content_not_found deletion_not_authorized deletion_conflict remove_failed : IngressError

abbrev pub IngressMethod : Type 0 → Type 0
IngressMethod A = Exec Ingress IngressError A

pub record IngressReadFaults : Type 0 where
  pub stat : Bool
  pub read : Bool

pub record IngressWriteFaults : Type 0 where
  pub random : Bool
  pub create : Bool
  pub write : Bool
  pub written : ℕ
  pub sync : Bool
  pub close : Bool
  pub rename : Bool
  pub sync_directory : Bool

abbrev pub challenge_schema : Bytes
challenge_schema = codes "tos.ai.private-ingress-challenge.v1"

-- 1 << 20
abbrev pub max_challenge_bytes : ℕ
max_challenge_bytes = 1048576

abbrev pub file_of : Bytes → IngressFile
file_of content = record { regular = true; perm = 0o600; content = content }

abbrev pub set_challenge : Bytes → Option IngressFile → Ingress → Ingress
set_challenge name file s = record s {
  challenges = λ other. if bytes_eq other name then file else s.challenges other;
}

abbrev pub set_object : Bytes → Option IngressFile → Ingress → Ingress
set_object name file s = record s {
  objects = λ other. if bytes_eq other name then file else s.objects other;
}

abbrev pub is_deleted : DeletionState → Bool
is_deleted deleted = true
is_deleted _ = false

abbrev pub is_not_deleting : DeletionState → Bool
is_not_deleting not_deleting = true
is_not_deleting _ = false

-- `objectPath`, inside the directory; a digest that is shorter than its prefix panics there
unfoldable pub object_file_name : Bytes → Bytes
object_file_name digest = codes "object-" ++ drop 7 digest ++ codes ".bin"

module _ (kit : IngressKit) where
  -- `challengePath`, inside the directory
  unfoldable pub challenge_file_name : Bytes → Bytes
  challenge_file_name handoff_id =
      codes "challenge-" ++ hex_encode (kit.sha256 handoff_id) ++ codes ".json"

  -- `readChallenge`
  unfoldable pub read_challenge :
      IngressReadFaults → Option IngressFile → Result IngressError ChallengeRecord
  read_challenge io file = if io.stat then err stat_failed else elim file [
    | none ↦ err record_not_there
    | some f ↦
        if not f.regular
          || not (f.perm == 0o600)
          || (length f.content == 0)
          || ltb max_challenge_bytes (length f.content)
        then err invalid_record
        else if io.read
        then err read_failed
        else elim (kit.decode f.content) [
          | none ↦ err malformed_record
          | some r ↦ if bytes_eq r.schema challenge_schema then ok r else err malformed_record
        ]
  ]

  -- `createPrivate`, of a challenge record: what was written stays when a later step fails
  unfoldable pub create_challenge : IngressWriteFaults → Bytes → Bytes → IngressMethod (Unit {0})
  create_challenge io name content = do
    s ← gets (λ s. s)
    raise_if (io.create || elim (s.challenges name) [ none ↦ false | some f ↦ true ]) create_failed
    modify (
        set_challenge name (some (file_of (if io.write then take io.written content else content))))
    raise_if io.write write_failed
    raise_if io.sync sync_failed
    raise_if io.close close_failed
    raise_if io.sync_directory sync_files_failed

  -- `createPrivate`, of an object
  unfoldable pub create_object : IngressWriteFaults → Bytes → Bytes → IngressMethod (Unit {0})
  create_object io name content = do
    s ← gets (λ s. s)
    raise_if (io.create || elim (s.objects name) [ none ↦ false | some f ↦ true ]) create_failed
    modify
        (set_object name (some (file_of (if io.write then take io.written content else content))))
    raise_if io.write write_failed
    raise_if io.sync sync_failed
    raise_if io.close close_failed
    raise_if io.sync_directory sync_files_failed

  -- `replacePrivate`
  unfoldable pub replace_challenge :
      IngressWriteFaults → Bytes → ChallengeRecord → IngressMethod (Unit {0})
  replace_challenge io name r = do
    raise_if io.random random_failed
    raise_if io.create create_failed
    raise_if io.write write_failed
    raise_if io.sync sync_failed
    raise_if io.close close_failed
    raise_if io.rename rename_failed
    modify (set_challenge name (some (file_of (kit.encode r))))
    raise_if io.sync_directory sync_files_failed

  -- The name of a challenge record: "challenge-", 64 characters, ".json".
  unfoldable pub is_challenge_name : Bytes → Bool
  is_challenge_name name =
      (length name == 79)
      && has_prefix (codes "challenge-") name
      && bytes_eq (drop 74 name) (codes ".json")

  -- Whether the record in the file is of the challenge with this digest.
  unfoldable pub has_digest : Bytes → Result IngressError ChallengeRecord → Bool
  has_digest digest (err e) = false
  has_digest digest (ok r) = elim (kit.challenge_digest r.challenge.body) [
    | none ↦ false
    | some d ↦ bytes_eq d digest
  ]

  -- The loop of `findChallenge`: a record that cannot be read is passed over.
  unfoldable pub search_challenge :
      (Bytes → Option IngressFile)
      → Bytes
      → List (Bool × Bytes × IngressReadFaults)
      → Result IngressError (Bytes × ChallengeRecord)
  search_challenge files digest [] = err record_not_there
  search_challenge files digest ((regular, name, io) ∷ entries) =
      let rest = search_challenge files digest entries in
      let found = read_challenge io (files name) in
      if regular && is_challenge_name name && has_digest digest found
      then elim found [ err e ↦ err e | ok r ↦ ok (name, r) ]
      else rest

  -- `findChallenge`, on the entries that `os.ReadDir` lists
  unfoldable pub find_challenge :
      Bool
      → (Bytes → Option IngressFile)
      → Bytes
      → List (Bool × Bytes × IngressReadFaults)
      → Result IngressError (Bytes × ChallengeRecord)
  find_challenge fault files digest entries =
      if fault
      then err list_failed
      else if ltb 10000 (length entries)
      then err too_many_entries
      else search_challenge files digest entries

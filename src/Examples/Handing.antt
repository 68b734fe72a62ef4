-- ===== src/Examples/Handing.antt =====
-- A private ingress of pkg/privateingress with one challenge, before and behind its upload.
use tos_ai.Examples.Gating.{some_digest, zeros}
use tos_ai.Ingress.Accepting.{
  IngressWorld, accept, accept_content, accepted_of, is_authorized, open_accepted, place_object,
  private_key_of, settle_upload, upload_fields, upload_material,
}
use tos_ai.Ingress.Contents.{
  AcceptedRecord, ChallengeBody, ChallengeRecord, HandoffAuthorization, Ingress, IngressAction,
  IngressFile, IngressKit, IngressWriteFaults, challenge_schema, create_object, file_of,
  find_challenge, has_digest, is_challenge_name, not_deleting, read_challenge, replace_challenge,
  search_challenge,
}
use tos_ai.Ingress.Deleting.{
  DeleteResolution, accepted_in, admit_deletion, begin_deletion, begin_new, begun_deletion,
  conflicting_deletion, delete_content, delete_fields, delete_material, ended_deletion,
  remove_content, resolution_of, settle_deletion,
}
use tos_ai.Ingress.Handoff.{delete_content-open_accepted, no_open_faults}
use tos_ai.Ingress.Uploads.{accept-open_accepted}
use tos_ai.Prelude.{
  Option, [], arith, false, if◌then◌else◌, none, ok, refl, some, true, ℕ, ◌++◌, ◌==◌, ◌∷◌, ◌≡◌, ◌≢◌,
}
use tos_ai.Prelude.Exec.{◌>>=◌}
use tos_ai.Prelude.Text.{Bytes, bytes_eq, codes, has_prefix, hex_encode, is_digest, sha256_prefix}

abbrev body : ChallengeBody
body = record {
  handoff_id = codes "handoff";
  ingress_instance_id = codes "instance";
  agreement_body_digest = some_digest;
  obligation_id = codes "obligation";
  sender_agent_id = codes "sender";
  receiver_agent_id = codes "receiver";
  receiver_encryption_public_key = codes "key";
  retention_policy_digest = some_digest;
  delete_not_after_unix = 100;
  terms = [];
}

abbrev handoff : HandoffAuthorization
handoff = record {
  challenge_digest = some_digest;
  ciphertext_digest = some_digest;
  ciphertext_bytes = 3;
  content_digest = some_digest;
  sender_disclosure_action_id = some_digest;
  terms = [];
}

abbrev upload : IngressAction
upload = record {
  action_kind = codes "content.upload";
  owner_id = codes "owner";
  agent_id = codes "agent";
  stable_action_id = some_digest;
  proof = [];
}

abbrev deletion : IngressAction
deletion = record upload { action_kind = codes "content.delete" }

abbrev accepted_upload : AcceptedRecord
accepted_upload = record {
  schema_version = 1;
  handoff_id = codes "handoff";
  challenge_digest = some_digest;
  authorization_digest = some_digest;
  upload_action_id = some_digest;
  sender_disclosure_action_id = some_digest;
  content_digest = some_digest;
  content_manifest_digest = some_digest;
  plaintext_bytes = 2;
  immutable_object_digest = some_digest;
  retention_policy_digest = some_digest;
  accepted_at_unix = 4;
  delete_not_after_unix = 100;
}

-- The record of another handoff whose content is the same.
abbrev other_upload : AcceptedRecord
other_upload = record accepted_upload { handoff_id = codes "other" }

abbrev challenge_in : Option AcceptedRecord → ChallengeRecord
challenge_in accepted' = record {
  schema = challenge_schema;
  challenge = record { body = body; signature = [] };
  encryption_private_key = codes "private";
  accepted = accepted';
  authorization_digest = some_digest;
  deletion_action_id = [];
  deletion_request_digest = [];
  deletion_state = not_deleting;
  deleted_at_unix = 0;
}

abbrev plain : Bytes
plain = 1 ∷ 2 ∷ []

abbrev ingress_kit : IngressKit
ingress_kit = record {
  sha256 = λ raw. zeros 32;
  encode64 = λ raw. raw;
  decode64 = λ text. some (zeros 32);
  public_key = λ key. key;
  usable_key = λ key. true;
  challenge_digest = λ b. some some_digest;
  sign_challenge = λ b. some (record { body = b; signature = [] });
  authorization_digest = λ a. some some_digest;
  manifest_digest = λ a. some some_digest;
  open_content = λ challenge a ciphertext key now. some plain;
  request_digest = λ raw. some_digest;
  marshal_upload = λ r. some (codes "upload");
  marshal_delete = λ r. some (codes "delete");
  encode = λ r. elim r.accepted [ none ↦ 1 ∷ [] | some a ↦ 2 ∷ [] ];
  decode = λ raw. elim raw [
    | [] ↦ none
    | c ∷ cs ↦ some (challenge_in (if c == 1 then none else some accepted_upload))
  ];
}

abbrev no_ingress_faults : IngressWriteFaults
no_ingress_faults = record {
  random = false;
  create = false;
  write = false;
  written = 0;
  sync = false;
  close = false;
  rename = false;
  sync_directory = false;
}

abbrev challenge_name : Bytes
challenge_name =
    codes "challenge-0000000000000000000000000000000000000000000000000000000000000000.json"

abbrev world : IngressWorld
world = record {
  now = 4;
  authority = record {
    verify_fence = λ fence now purpose. true;
    confirm_current = λ fence now. true;
    verify_action = λ action fields canonical fence now. true;
  };
  list = false;
  entries = (true, challenge_name, record { stat = false; read = false }) ∷ [];
  create = no_ingress_faults;
  read_object = false;
  replace = no_ingress_faults;
  remove = false;
  sync_directory = false;
  replace_end = no_ingress_faults;
}

abbrev ingress_with : ℕ → Option IngressFile → Ingress
ingress_with code object = record {
  has_lock = true;
  receiver_agent = codes "receiver";
  challenges = λ name. some (file_of (code ∷ []));
  objects = λ name. object;
}

finds_fresh :
    find_challenge ingress_kit world.list (ingress_with 1 none).challenges some_digest world.entries
    ≡ ok (challenge_name, challenge_in none)
unfolding find_challenge search_challenge has_digest read_challenge is_challenge_name bytes_eq
    has_prefix
finds_fresh = refl

accepts :
    (accept ingress_kit world some_digest handoff [] upload [] (ingress_with 1 none)).0
    ≡ ok accepted_upload
unfolding accept find_challenge search_challenge has_digest read_challenge is_challenge_name
    upload_material upload_fields is_authorized settle_upload accept_content private_key_of
    place_object create_object replace_challenge accepted_of is_digest bytes_eq has_prefix ◌>>=◌
accepts = refl

is_sum : is_digest some_digest ≡ true
unfolding is_digest has_prefix
is_sum = refl

sums_plain :
    (key plaintext : Bytes)
    → some plain ≡ some plaintext
    → sha256_prefix ++ hex_encode (ingress_kit.sha256 plaintext) ≡ some_digest
unfolding hex_encode
sums_plain key plaintext h = refl

accept-open_accepted_example :
    let after =
      (accept ingress_kit world some_digest handoff [] upload [] (ingress_with 1 none)).1 in
    (key plaintext : Bytes) × (ingress_kit.open_content
        (challenge_in none).challenge
        handoff
        []
        key
        world.now
      ≡ some plaintext)
    × ((open_accepted ingress_kit no_open_faults accepted_upload after).0 ≡ ok plaintext)
accept-open_accepted_example =
    accept-open_accepted ingress_kit world some_digest handoff [] upload [] (ingress_with 1 none)
      challenge_name (challenge_in none) accepted_upload finds_fresh refl (λ f h. ground arith)
      is_sum sums_plain accepts

finds_accepted :
    find_challenge ingress_kit world.list
      (ingress_with 2 (some (file_of plain))).challenges
      some_digest
      world.entries
    ≡ ok (challenge_name, challenge_in (some accepted_upload))
unfolding find_challenge search_challenge has_digest read_challenge is_challenge_name bytes_eq
    has_prefix
finds_accepted = refl

abbrev resolution : DeleteResolution
resolution = record {
  stable_action_id = some_digest;
  exact_request_digest = some_digest;
  challenge_digest = some_digest;
  content_digest = some_digest;
}

deletes :
    (delete_content ingress_kit world some_digest deletion []
      (ingress_with 2 (some (file_of plain)))).0
    ≡ ok resolution
unfolding delete_content accepted_in find_challenge search_challenge has_digest read_challenge
    is_challenge_name delete_material delete_fields admit_deletion conflicting_deletion
    settle_deletion remove_content begin_deletion begin_new replace_challenge resolution_of
    is_digest begun_deletion ended_deletion bytes_eq has_prefix ◌>>=◌
deletes = refl

delete_content-open_accepted_example :
    let after =
      (delete_content ingress_kit world some_digest deletion []
        (ingress_with 2 (some (file_of plain)))).1 in
    (open_accepted ingress_kit no_open_faults other_upload after).0 ≢ ok plain
delete_content-open_accepted_example =
    delete_content-open_accepted ingress_kit world some_digest deletion []
      (ingress_with 2 (some (file_of plain))) challenge_name (challenge_in (some accepted_upload))
      accepted_upload other_upload resolution no_open_faults plain finds_accepted refl refl refl
      deletes

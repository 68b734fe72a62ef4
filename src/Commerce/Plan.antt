-- ===== src/Commerce/Plan.antt =====
-- The data of pkg/commercegate/gate.go: plans, tickets, fences and authorized actions, and what the gate
-- uses of the packages agentcommerce and codec and of the standard library.
use tos_ai.Prelude.{
  Bool, Option, ℕ, List, ◌&&◌, ◌==◌, ltb, drop, length, ◌-◌, ◌^◌, ◌*◌, if◌then◌else◌,
}
use tos_ai.Prelude.Text.{Bytes, has_prefix, hex_decodes, sha256_prefix}

pub data LeaseLossPolicy : Type 0 where
  lease_loss_continue lease_loss_drain lease_loss_kill : LeaseLossPolicy
  other_policy : Bytes → LeaseLossPolicy

pub record FileBinding : Type 0 where
  pub path : Bytes
  pub digest : Bytes
  pub size : ℕ  -- uint64

pub record NetworkBinding : Type 0 where
  pub binding_id : Bytes
  pub scheme : Bytes
  pub host : Bytes
  pub port : ℕ  -- uint16
  pub resolved_ips : List Bytes
  pub tls_server_name : Bytes
  pub allow_redirects : Bool
  pub max_request_bytes : ℕ  -- uint64
  pub max_response_bytes : ℕ  -- uint64

pub record CredentialBinding : Type 0 where
  pub handle_id : Bytes
  pub scope_digest : Bytes
  pub expires_at_unix : ℕ  -- uint64

pub record EffectBinding : Type 0 where
  pub plan_effect_id : Bytes
  pub effect_profile_digest : Bytes
  pub target_digest : Bytes
  pub operation_kind : Bytes
  pub effect_semantic_key_digest : Bytes
  pub network_binding_id : Bytes
  pub credential_handle_id : Bytes
  pub maximum_uses : ℕ  -- uint32

pub record Plan : Type 0 where
  pub owner_id : Bytes
  pub agent_id : Bytes
  pub agreement_body_digest : Bytes
  pub execution_obligation_id : Bytes
  pub canonical_plan_digest : Bytes
  pub accepted_input_manifest_digest : Bytes
  pub attempt_index : ℕ  -- uint64
  pub predecessor_terminal_resolution_digest : Bytes
  pub execution_id : Bytes
  pub reservation_id : Bytes
  pub policy_revision : ℕ  -- uint64
  pub writer_generation : ℕ  -- uint64
  pub lease_loss_policy : LeaseLossPolicy
  pub files : List FileBinding
  pub network_bindings : List NetworkBinding
  pub credential_bindings : List CredentialBinding
  pub effect_bindings : List EffectBinding

pub record Ticket : Type 0 where
  pub execution_id : Bytes
  pub secret : Bytes
  pub start_not_after_unix : ℕ  -- uint64
  pub plan_digest : Bytes

pub record HttpHeader : Type 0 where
  pub name : Bytes
  pub value : Bytes

pub record HttpsRequest : Type 0 where
  pub plan_effect_id : Bytes
  pub method : Bytes
  pub path_and_query : Bytes
  pub headers : List HttpHeader
  pub body : Bytes

-- What the gate uses of a commerce.WriterFence. `proof` stands for the rest of it.
pub record WriterFence : Type 0 where
  pub owner_id : Bytes
  pub agent_id : Bytes
  pub writer_generation : ℕ  -- uint64
  pub expires_at_unix : ℕ  -- uint64
  pub proof : Bytes

-- What the gate uses of a commerce.AuthorizedAction. `proof` stands for the rest of it.
pub record AuthorizedAction : Type 0 where
  pub action_kind : Bytes
  pub stable_action_id : Bytes
  pub exact_request_digest : Bytes
  pub expires_at_unix : ℕ  -- uint64
  pub proof : Bytes

-- The calls commerce.ID, commerce.Digest32, commerce.Kind and commerce.U64.
pub data SemanticValue : Type 0 where
  id digest32 kind : Bytes → SemanticValue
  u64 : ℕ → SemanticValue

-- map[string]commerce.SemanticValue
abbrev pub SemanticFields : Type 0
SemanticFields = List (Bytes × SemanticValue)

-- The answers of commerce.VerifyWriterFence, of the WriterAuthority's ConfirmCurrentWriterFence and of
-- commerce.VerifyAuthorizedAction at the time of a call: whether they return no error.
pub record Authority : Type 0 where
  pub verify_fence : WriterFence → ℕ → Bytes → Bool
  pub confirm_current : WriterFence → ℕ → Bool
  pub verify_action : AuthorizedAction → SemanticFields → Bytes → WriterFence → ℕ → Bool

-- The methods of net.IP that `publicIP` asks.
pub record IpTraits : Type 0 where
  pub global_unicast : Bool
  pub private : Bool
  pub loopback : Bool
  pub link_local_unicast : Bool
  pub link_local_multicast : Bool

-- The functions of other packages: `filepath.Clean`, `net.ParseIP`, SHA-256, `codec.Digest` under a domain,
-- `codec.Marshal`, and `commerce.DeriveStableActionID`. `none` is an error.
pub record PlanKit : Type 0 where
  pub clean : Bytes → Bytes
  pub parse_ip : Bytes → Option IpTraits
  pub sha256 : Bytes → Bytes
  pub digest_plan : Bytes → Plan → Option Bytes
  pub digest_network : Bytes → NetworkBinding → Option Bytes
  pub marshal_plan : Plan → Option Bytes
  pub marshal_ticket : Ticket → Option Bytes
  pub marshal_request : HttpsRequest → Option Bytes
  pub derive_action_id : Bytes → SemanticFields → Option Bytes

pub data GateError : Type 0 where
  incomplete_plan bad_file_binding bad_network_binding : GateError
  bad_credential_binding bad_effect_binding plan_digest_failed identity_failed : GateError
  marshal_failed invalid_preparation fence_refused fence_not_current : GateError
  preparation_not_authorized identity_conflict already_started ticket_expired : GateError
  no_secret record_absent invalid_gate_record stat_record read_record_failed : GateError
  invalid_effect_record create_record_failed write_record_failed sync_record_failed : GateError
  close_record_failed sync_directory_failed create_temporary_failed chmod_failed : GateError
  rename_failed invalid_start start_mismatch start_not_authorized start_ambiguous : GateError
  not_startable open_input input_identity_changed input_digest_changed seek_failed : GateError
  invalid_identity gate_unavailable transition_mismatch completion_not_terminal : GateError
  no_outcome_digest effect_not_planned broker_unavailable not_running_launch : GateError
  effect_not_authorized effect_conflict effect_ambiguous response_unavailable : GateError
  credential_expired credential_failed capability_revoked request_invalid : GateError
  unsafe_header call_failed response_too_large response_digest_failed : GateError
  predecessor_lost invalid_gate_config gate_directory_failed gate_not_private : GateError
  gate_owned list_failed : GateError

-- `validDigest`
unfoldable pub valid_digest : Bytes → Bool
valid_digest s = (length s == 71) && has_prefix sha256_prefix s && hex_decodes (drop 7 s)

-- strings.TrimPrefix(value, prefix), with the prefix first
abbrev pub trim_prefix : Bytes → Bytes → Bytes
trim_prefix prefix s = if has_prefix prefix s then drop (length prefix) s else s

-- `now.Before(time.Unix(int64(seconds), 0))`, with `now` in nanoseconds since 1970. From 2^63 - 62135596800
-- on, the seconds that package time counts from the year 1 overflow to the past.
unfoldable pub before_unix : ℕ → ℕ → Bool
before_unix now seconds = ltb seconds (2 ^ 63 - 62135596800) && ltb now (seconds * 1000000000)

-- ===== src/Commerce/Requests.antt =====
-- The HTTPS requests of pkg/commercegate/gate.go: what an effect authorizes, `validHTTPSRequest`, and
-- `performPinnedHTTPS` up to the connection, which is a parameter with the rest of net/http.
use tos_ai.Commerce.Plan.{
  EffectBinding, GateError, HttpHeader, HttpsRequest, NetworkBinding, Plan, PlanKit, SemanticFields,
  call_failed, digest32, effect_not_planned, id, kind, marshal_failed, request_invalid,
  response_too_large, trim_prefix, unsafe_header,
}
use tos_ai.Commerce.Preparing.{or_fail}
use tos_ai.Prelude.{
  Bool, List, Option, Result, [], all, any, err, false, if◌then◌else◌, leb, length, ltb, map, none,
  not, ok, reject_if, some, take, true, ℕ, ◌&&◌, ◌+◌, ◌-◌, ◌==◌, ◌^◌, ◌||◌, ◌∷◌,
}
use tos_ai.Prelude.Results.{◌>>=◌, ◌>>◌}
use tos_ai.Prelude.Sorting.{bytes_lt}
use tos_ai.Prelude.Text.{Bytes, bytes_eq, codes, sha256_prefix}

-- `http.CanonicalHeaderKey` and `strings.ToUpper`.
pub record HttpKit : Type 0 where
  pub canonical_header_key : Bytes → Bytes
  pub to_upper : Bytes → Bytes

-- The request as it is handed to net/http: the address that the dialer is given instead of the URL's host,
-- which `JoinHostPort` writes, and the parts of the URL, which is `https://host:port` and the path.
pub record WireRequest : Type 0 where
  pub dial_ip : Option Bytes
  pub port : ℕ
  pub server_name : Bytes
  pub host : Bytes
  pub path_and_query : Bytes
  pub method : Bytes
  pub headers : List HttpHeader
  pub idempotency_key : Bytes
  pub body : Bytes

pub record Reply : Type 0 where
  pub status : ℕ
  pub body : Bytes
  pub body_fails : Bool

-- Whether `http.NewRequestWithContext` takes the request, and what `client.Do` returns.
pub record Exchange : Type 0 where
  pub accepts : Bool
  pub reply : WireRequest → Option Reply

pub record HttpsResponse : Type 0 where
  pub status_code : ℕ
  pub body : Bytes
  pub digest : Bytes

unfoldable pub find_effect_binding : Bytes → List EffectBinding → Option EffectBinding
find_effect_binding name [] = none
find_effect_binding name (b ∷ bs) =
    if bytes_eq b.plan_effect_id name then some b else find_effect_binding name bs

unfoldable pub effect_fields : Plan → EffectBinding → SemanticFields
effect_fields plan effect =
    (codes "owner_id", id plan.owner_id)
    ∷ (codes "agent_id", id plan.agent_id)
    ∷ (codes "agreement_body_digest", digest32 plan.agreement_body_digest)
    ∷ (codes "obligation_id", id plan.execution_obligation_id)
    ∷ (codes "execution_id", digest32 plan.execution_id)
    ∷ (codes "plan_effect_id", id effect.plan_effect_id)
    ∷ (codes "effect_profile_digest", digest32 effect.effect_profile_digest)
    ∷ (codes "target_digest", digest32 effect.target_digest)
    ∷ (codes "operation_kind", kind effect.operation_kind)
    ∷ (codes "effect_semantic_key_digest", digest32 effect.effect_semantic_key_digest)
    ∷ []

-- `EffectAuthorizationMaterial`
unfoldable pub effect_material :
    PlanKit → Plan → HttpsRequest → Result GateError (Bytes × SemanticFields)
effect_material kit plan request = do
  effect ←
      or_fail effect_not_planned (find_effect_binding request.plan_effect_id plan.effect_bindings)
  canonical ← or_fail marshal_failed (kit.marshal_request request)
  ok (canonical, effect_fields plan effect)

-- strings.ContainsAny(value, "\r\n")
unfoldable pub has_line_break : Bytes → Bool
has_line_break s = any (λ c. (c == b'\r') || (c == b'\n')) s

-- The headers that only the connection sets.
unfoldable pub is_connection_header : Bytes → Bool
is_connection_header name =
    bytes_eq name (codes "Host")
    || bytes_eq name (codes "Connection")
    || bytes_eq name (codes "Transfer-Encoding")
    || bytes_eq name (codes "Idempotency-Key")

unfoldable pub is_reserved_header : Bytes → Bool
is_reserved_header name =
    bytes_eq name (codes "Authorization")
    || bytes_eq name (codes "Proxy-Authorization")
    || is_connection_header name

unfoldable pub starts_with_slash : Bytes → Bool
starts_with_slash [] = false
starts_with_slash (c ∷ cs) = c == b'/'

module _ (http : HttpKit) where
  unfoldable pub valid_header : Bytes → HttpHeader → Bool
  valid_header last header =
      let name = http.canonical_header_key header.name in
      not (length name == 0)
      && bytes_eq name header.name
      && bytes_lt last name
      && not (length header.value == 0)
      && not (has_line_break header.value)
      && not (is_reserved_header name)

  unfoldable pub valid_headers : Bytes → List HttpHeader → Bool
  valid_headers last [] = true
  valid_headers last (h ∷ hs) =
      valid_header last h && valid_headers (http.canonical_header_key h.name) hs

  -- `validHTTPSRequest`
  unfoldable pub valid_https_request : HttpsRequest → EffectBinding → NetworkBinding → Bool
  valid_https_request request effect binding =
      bytes_eq request.method (http.to_upper (trim_prefix (codes "https.") effect.operation_kind))
      && starts_with_slash request.path_and_query
      && not (has_line_break request.path_and_query)
      && leb (length request.body) binding.max_request_bytes
      && valid_headers [] request.headers

  unfoldable pub safe_header : HttpHeader → Bool
  safe_header header =
      let name = http.canonical_header_key header.name in
      not (length name == 0) && not (has_line_break header.value) && not (is_connection_header name)

  unfoldable pub wire_request :
      NetworkBinding → HttpsRequest → List HttpHeader → Bytes → WireRequest
  wire_request binding request headers stable_id = record {
    dial_ip = elim binding.resolved_ips [ [] ↦ none | ip ∷ ips ↦ some ip ];
    port = binding.port;
    server_name = binding.tls_server_name;
    host = binding.host;
    path_and_query = request.path_and_query;
    method = request.method;
    headers =
        map (λ (h : HttpHeader). record h { name = http.canonical_header_key h.name }) headers;
    idempotency_key = trim_prefix sha256_prefix stable_id;
    body = request.body;
  }

  -- int64(MaxResponseBytes) + 1, as the limit of `io.LimitReader`, which reads nothing below 1.
  unfoldable pub response_limit : ℕ → ℕ
  response_limit bytes = if ltb bytes (2 ^ 63 - 1) then bytes + 1 else 0

  unfoldable pub read_reply : NetworkBinding → Option Reply → Result GateError HttpsResponse
  read_reply binding none = err call_failed
  read_reply binding (some reply) = do
    let body = take (response_limit binding.max_response_bytes) reply.body
    reject_if (reply.body_fails || ltb binding.max_response_bytes (length body)) response_too_large
    ok (record { status_code = reply.status; body = body; digest = [] })

  -- `performPinnedHTTPS`
  unfoldable pub perform_pinned_https :
      Exchange
      → NetworkBinding
      → HttpsRequest
      → List HttpHeader
      → Bytes
      → Result GateError HttpsResponse
  perform_pinned_https exchange binding request headers stable_id = do
    reject_if (not exchange.accepts) request_invalid
    reject_if (not (all safe_header headers)) unsafe_header
    read_reply binding (exchange.reply (wire_request binding request headers stable_id))

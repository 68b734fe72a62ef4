-- ===== src/Commerce/Responses.antt =====
-- What `PerformHTTPS` sends and what it takes for the response.
use tos_ai.Commerce.Effects.{
  SendWorld, Submission, credential_headers, response_name, send_effect, with_digest,
  write_effect_response,
}
use tos_ai.Commerce.Plan.{AuthorizedAction, HttpHeader, HttpsRequest, NetworkBinding}
use tos_ai.Commerce.Records.{Gate, ReplaceFaults}
use tos_ai.Commerce.Requests.{
  Exchange, HttpKit, HttpsResponse, Reply, perform_pinned_https, read_reply, safe_header,
  wire_request,
}
use tos_ai.Prelude.{
  List, Option, all, arith, inl, inr, length, none, ok, some, subst, true, ℕ, ◌++◌, ◌≡◌, ◌≤◌,
}
use tos_ai.Prelude.Exec.{◌>>=◌}
use tos_ai.Prelude.Results.{Result-cases}
use tos_ai.Prelude.Text.{Bytes, bytes_eq_self}

module _ (http : HttpKit) where
  read_reply-bounds :
      (binding : NetworkBinding) (reply : Option Reply) (response : HttpsResponse)
      → read_reply http binding reply ≡ ok response
      → length response.body ≤ binding.max_response_bytes
  unfolding read_reply
  read_reply-bounds binding none response h = ground arith
  read_reply-bounds binding (some reply) response h = ground arith

  perform_pinned_https-ok :
      (exchange : Exchange) (binding : NetworkBinding) (request : HttpsRequest)
      (headers : List HttpHeader) (stable_id : Bytes) (response : HttpsResponse)
      → perform_pinned_https http exchange binding request headers stable_id ≡ ok response
      → (all (safe_header http) headers ≡ true)
        × (length response.body ≤ binding.max_response_bytes)
  unfolding perform_pinned_https
  perform_pinned_https-ok exchange binding request headers stable_id response h =
      let reply = exchange.reply (wire_request http binding request headers stable_id) in
      (ground arith, read_reply-bounds binding reply response (ground arith))

  write_effect_response-ok :
      (io : ReplaceFaults) (stable_id body : Bytes) (g : Gate)
      → (write_effect_response io stable_id body g).0 ≡ ok tt
      → (write_effect_response io stable_id body g).1.responses (response_name stable_id)
        ≡ some body
  unfolding write_effect_response ◌>>=◌
  write_effect_response-ok io stable_id body g h =
      ground (arith, bytes_eq_self (response_name stable_id))

  with_digest-body :
      (response response' : HttpsResponse) (digest : Option Bytes)
      → with_digest response digest ≡ ok response'
      → response'.body ≡ response.body
  with_digest-body response response' none h = ground arith
  with_digest-body response response' (some digest) h = ground arith

  -- A response that is sent for has at most the binding's bytes, all headers of the request and the credential
  -- were safe, the capability was confirmed, and the response is stored under the action's name.
  pub send_effect-ok :
      (now : ℕ) (world : SendWorld) (request : HttpsRequest) (action : AuthorizedAction)
      (submission : Submission) (g : Gate) (response : HttpsResponse)
      → let after = send_effect http now world request action submission g in
        after.0 ≡ ok response
        → (world.revalidates ≡ true)
          × ((secrets : List HttpHeader) × (credential_headers now world action
                  submission.credential
                ≡ ok secrets)
              × (all (safe_header http) (request.headers ++ secrets) ≡ true))
          × (length response.body ≤ submission.network.max_response_bytes)
          × (after.1.responses (response_name action.stable_action_id) ≡ some response.body)
  unfolding send_effect ◌>>=◌
  send_effect-ok now world request action submission g response h =
      let id' = action.stable_action_id in
      elim (Result-cases (credential_headers now world action submission.credential)) [
        | inl (e, refused) ↦ ground arith
        | inr (secrets, resolved) ↦
            let headers = request.headers ++ secrets in
            elim (Result-cases
              (perform_pinned_https http world.exchange submission.network request headers id')) [
                | inl (e, refused) ↦ ground arith
                | inr (got, performed) ↦
                    elim (Result-cases (with_digest got (world.digest got.status_code got.body))) [
                      | inl (e, refused) ↦ ground arith
                      | inr (digested, hashed) ↦
                          let written = write_effect_response world.replace id' digested.body g in
                          elim (Result-cases written.0) [
                            | inl (e, failed) ↦ ground arith
                            | inr (_, done) ↦
                                let (safe, bounded) =
                                  perform_pinned_https-ok world.exchange submission.network request
                                    headers id' got performed in
                                let body = with_digest-body got digested _ hashed in
                                let stored =
                                  write_effect_response-ok world.replace id' digested.body g done in
                                let same : digested ≡ response = ground arith in
                                (
                                  ground arith,
                                  (secrets, resolved, safe),
                                  subst
                                      (λ (t : HttpsResponse).
                                        length t.body ≤ submission.network.max_response_bytes)
                                      same (rw body bounded),
                                  ground (arith, stored),
                                )
                          ]
                    ]
              ]
      ]

-- ===== src/Ingress/Deleting.antt =====
-- `Delete` of pkg/privateingress/store.go: the record says `deleting` before the object is removed, and
-- `deleted` after it.
use tos_ai.Commerce.Plan.{SemanticFields, digest32, id}
use tos_ai.Ingress.Accepting.{IngressWorld}
use tos_ai.Ingress.Contents.{
  AcceptedRecord, ChallengeBody, ChallengeRecord, IngressAction, IngressError, IngressKit,
  IngressMethod, SignedChallenge, content_not_found, deleted, deleting, deletion_conflict,
  deletion_not_authorized, fence_rejected, fence_stale, find_challenge, invalid_deletion,
  is_deleted, is_not_deleting, object_file_name, remove_failed, replace_challenge, set_object,
  sync_files_failed,
}
use tos_ai.Prelude.{
  Bool, Option, Result, [], err, if◌then◌else◌, length, none, not, ok, some, ℕ, ◌&&◌, ◌==◌, ◌||◌,
  ◌∷◌,
}
use tos_ai.Prelude.Exec.{gets, lift, modify, pure, raise_if, ◌>>=◌, ◌>>◌}
use tos_ai.Prelude.Text.{Bytes, bytes_eq, codes, is_digest}

-- What `Delete` returns: the parts of a commerce.ActionResolution that are not constant.
pub record DeleteResolution : Type 0 where
  pub stable_action_id : Bytes
  pub exact_request_digest : Bytes
  pub challenge_digest : Bytes
  pub content_digest : Bytes

module _ (kit : IngressKit) where
  unfoldable pub delete_fields : Bytes → Bytes → ChallengeBody → AcceptedRecord → SemanticFields
  delete_fields owner_id agent_id body accepted =
      (codes "owner_id", id owner_id)
      ∷ (codes "agent_id", id agent_id)
      ∷ (codes "agreement_body_digest", digest32 body.agreement_body_digest)
      ∷ (codes "obligation_id", id body.obligation_id)
      ∷ (codes "handoff_id", id body.handoff_id)
      ∷ (codes "content_manifest_digest", digest32 accepted.content_manifest_digest)
      ∷ (codes "retention_policy_digest", digest32 accepted.retention_policy_digest)
      ∷ []

  -- `DeleteAuthorizationMaterial`
  unfoldable pub delete_material :
      Bytes → Bytes → SignedChallenge → AcceptedRecord → Option (Bytes × SemanticFields)
  delete_material owner_id agent_id challenge accepted =
      elim (kit.marshal_delete (record {
        handoff_id = challenge.body.handoff_id;
        agreement_body_digest = challenge.body.agreement_body_digest;
        obligation_id = challenge.body.obligation_id;
        content_manifest_digest = accepted.content_manifest_digest;
        retention_policy_digest = accepted.retention_policy_digest;
      })) [
        | none ↦ none
        | some canonical ↦ some (canonical, delete_fields owner_id agent_id challenge.body accepted)
      ]

  -- The digest of the request, if the action authorizes it.
  unfoldable pub admit_deletion :
      IngressWorld
      → IngressAction
      → Bytes
      → Option (Bytes × SemanticFields)
      → Result IngressError Bytes
  admit_deletion world action fence none = err deletion_not_authorized
  admit_deletion world action fence (some (canonical, fields)) =
      if world.authority.verify_action action fields canonical fence world.now
      then ok (kit.request_digest canonical)
      else err deletion_not_authorized

  unfoldable pub conflicting_deletion : IngressAction → Bytes → ChallengeRecord → Bool
  conflicting_deletion action request_digest r =
      not (length r.deletion_action_id == 0)
      && (not (bytes_eq r.deletion_action_id action.stable_action_id)
          || not (bytes_eq r.deletion_request_digest request_digest))

  unfoldable pub begun_deletion : IngressAction → Bytes → ChallengeRecord → ChallengeRecord
  begun_deletion action request_digest r = record r {
    deletion_action_id = action.stable_action_id;
    deletion_request_digest = request_digest;
    deletion_state = deleting;
  }

  unfoldable pub begin_new : IngressWorld → Bytes → ChallengeRecord → IngressMethod ChallengeRecord
  begin_new world name r = do replace_challenge kit world.replace name r; pure r

  -- The record behind a deletion that begins, or has begun before.
  unfoldable pub begin_deletion :
      IngressWorld → Bytes → IngressAction → Bytes → ChallengeRecord → IngressMethod ChallengeRecord
  begin_deletion world name action request_digest r =
      if is_not_deleting r.deletion_state
      then begin_new world name (begun_deletion action request_digest r)
      else pure r

  unfoldable pub ended_deletion : ℕ → ChallengeRecord → ChallengeRecord
  ended_deletion now r = record r { deletion_state = deleted; deleted_at_unix = now }

  unfoldable pub resolution_of : IngressAction → Bytes → Bytes → AcceptedRecord → DeleteResolution
  resolution_of action request_digest challenge_digest accepted = record {
    stable_action_id = action.stable_action_id;
    exact_request_digest = request_digest;
    challenge_digest = challenge_digest;
    content_digest = accepted.content_digest;
  }

  unfoldable pub remove_content :
      IngressWorld
      → Bytes
      → IngressAction
      → Bytes
      → Bytes
      → ChallengeRecord
      → AcceptedRecord
      → IngressMethod DeleteResolution
  remove_content world name action request_digest challenge_digest r accepted = do
    r' ← begin_deletion world name action request_digest r
    raise_if world.remove remove_failed
    modify (set_object (object_file_name accepted.content_digest) none)
    raise_if world.sync_directory sync_files_failed
    replace_challenge kit world.replace_end name (ended_deletion world.now r')
    pure (resolution_of action request_digest challenge_digest accepted)

  unfoldable pub settle_deletion :
      IngressWorld
      → Bytes
      → IngressAction
      → Bytes
      → Bytes
      → ChallengeRecord
      → AcceptedRecord
      → IngressMethod DeleteResolution
  settle_deletion world name action request_digest challenge_digest r accepted =
      if is_deleted r.deletion_state
      then pure (resolution_of action request_digest challenge_digest accepted)
      else remove_content world name action request_digest challenge_digest r accepted

  -- The record of the challenge and what it has accepted.
  unfoldable pub accepted_in :
      Result IngressError (Bytes × ChallengeRecord)
      → Result IngressError (Bytes × ChallengeRecord × AcceptedRecord)
  accepted_in (err e) = err content_not_found
  accepted_in (ok (name, r)) = elim r.accepted [
    | none ↦ err content_not_found
    | some accepted ↦ ok (name, r, accepted)
  ]

  -- `Delete`
  unfoldable pub delete_content :
      IngressWorld → Bytes → IngressAction → Bytes → IngressMethod DeleteResolution
  delete_content world challenge_digest action fence = do
    s ← gets (λ s. s)
    raise_if
        (not s.has_lock
          || not (bytes_eq action.action_kind (codes "content.delete"))
          || not (is_digest challenge_digest))
        invalid_deletion
    raise_if (not (world.authority.verify_fence fence world.now (codes "content.delete")))
        fence_rejected
    raise_if (not (world.authority.confirm_current fence world.now)) fence_stale
    found ←
        lift
          (accepted_in (find_challenge kit world.list s.challenges challenge_digest world.entries))
    request_digest ← lift (
        admit_deletion world action fence
          (delete_material action.owner_id action.agent_id found.1.challenge found.2))
    raise_if (conflicting_deletion action request_digest found.1) deletion_conflict
    settle_deletion world found.0 action request_digest challenge_digest found.1 found.2

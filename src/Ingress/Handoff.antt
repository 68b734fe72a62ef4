-- ===== src/Ingress/Handoff.antt =====
-- What is accepted can be opened, and what is deleted cannot.
use tos_ai.Ingress.Accepting.{IngressWorld, OpenFaults, open_accepted, open_object_file}
use tos_ai.Ingress.Contents.{
  AcceptedRecord, ChallengeRecord, Ingress, IngressAction, IngressKit, IngressWriteFaults,
  find_challenge, is_deleted, object_file_name, replace_challenge, set_object,
}
use tos_ai.Ingress.Deleting.{
  DeleteResolution, accepted_in, admit_deletion, begin_deletion, delete_content, delete_material,
  ended_deletion, remove_content, settle_deletion,
}
use tos_ai.Prelude.{ap, arith, false, inl, inr, none, ok, refl, some, subst, sym, ◌∙◌, ◌≡◌, ◌≢◌}
use tos_ai.Prelude.Exec.{◌>>=◌}
use tos_ai.Prelude.Results.{Result-cases}
use tos_ai.Prelude.Text.{Bytes, bytes_eq_self}

abbrev pub no_open_faults : OpenFaults
no_open_faults = record {
  stat = false;
  opening = false;
  changed = false;
  read = false;
  seek = false;
}

module _ (kit : IngressKit) where
  -- An object that is not there cannot be opened.
  open_accepted-missing :
      (io : OpenFaults) (accepted : AcceptedRecord) (s : Ingress) (content : Bytes)
      → s.objects (object_file_name accepted.content_digest) ≡ none
      → (open_accepted kit io accepted s).0 ≢ ok content
  unfolding open_accepted open_object_file ◌>>=◌
  open_accepted-missing io accepted s content missing h = ground arith

  pub replace_challenge-objects :
      (io : IngressWriteFaults) (name : Bytes) (r : ChallengeRecord) (s : Ingress)
      → (replace_challenge kit io name r s).1.objects ≡ s.objects
  unfolding replace_challenge ◌>>=◌
  replace_challenge-objects io name r s = ground arith

  remove_content-ok :
      (world : IngressWorld) (name : Bytes) (action : IngressAction)
      (request_digest challenge_digest : Bytes) (r : ChallengeRecord) (accepted : AcceptedRecord)
      (s : Ingress) (resolution : DeleteResolution)
      → let after =
          remove_content kit world name action request_digest challenge_digest r accepted s in
        after.0 ≡ ok resolution → after.1.objects (object_file_name accepted.content_digest) ≡ none
  unfolding remove_content ◌>>=◌
  remove_content-ok world name action request_digest challenge_digest r accepted s resolution h =
      let own = object_file_name accepted.content_digest in
      elim (Result-cases (begin_deletion kit world name action request_digest r s).0) [
        | inl (e, failed) ↦ ground arith
        | inr (r', begun) ↦
            let middle =
              set_object own none (begin_deletion kit world name action request_digest r s).1 in
            let ended =
              replace_challenge kit world.replace_end name (ended_deletion kit world.now r')
                middle in
            let gone : middle.objects own ≡ none = rw (bytes_eq_self own) refl in
            let kept =
              replace_challenge-objects world.replace_end name (ended_deletion kit world.now r')
                middle in
            elim (Result-cases ended.0) [
              | inl (e, failed) ↦ ground arith
              | inr (_, done) ↦
                  let still : ended.1.objects own ≡ none = ap (λ files. files own) kept ∙ gone in
                  ground (arith, still)
            ]
      ]

  -- What a deletion that succeeds tells: it has removed the object, unless the record was deleted before.
  delete_content-ok :
      (world : IngressWorld) (challenge_digest : Bytes) (action : IngressAction) (fence : Bytes)
      (s : Ingress) (name : Bytes) (r : ChallengeRecord) (accepted : AcceptedRecord)
      (resolution : DeleteResolution)
      → let after = delete_content kit world challenge_digest action fence s in
        find_challenge kit world.list s.challenges challenge_digest world.entries ≡ ok (name, r)
        → r.accepted ≡ some accepted
        → is_deleted r.deletion_state ≡ false
        → after.0 ≡ ok resolution
        → after.1.objects (object_file_name accepted.content_digest) ≡ none
  unfolding delete_content accepted_in settle_deletion ◌>>=◌
  delete_content-ok world challenge_digest action fence s name r accepted resolution found has live
        h =
      let material = delete_material kit action.owner_id action.agent_id r.challenge accepted in
      elim (Result-cases (admit_deletion kit world action fence material)) [
        | inl (e, refused) ↦ ground arith
        | inr (request_digest, admitted) ↦
            let removed =
              remove_content kit world name action request_digest challenge_digest r accepted s in
            elim (Result-cases removed.0) [
              | inl (e, failed) ↦ ground arith
              | inr (done, ok_removed) ↦
                  let gone =
                    remove_content-ok world name action request_digest challenge_digest r accepted s
                      done ok_removed in
                  ground (arith, gone)
            ]
      ]

  -- Once Delete has resolved for a record that was not deleted before, no accepted record with the same content
  -- digest can be opened, be it of this handoff or of another one.
  pub delete_content-open_accepted :
      (world : IngressWorld) (challenge_digest : Bytes) (action : IngressAction) (fence : Bytes)
      (s : Ingress) (name : Bytes) (r : ChallengeRecord) (accepted other : AcceptedRecord)
      (resolution : DeleteResolution) (io : OpenFaults) (content : Bytes)
      → find_challenge kit world.list s.challenges challenge_digest world.entries ≡ ok (name, r)
      → r.accepted ≡ some accepted
      → is_deleted r.deletion_state ≡ false
      → other.content_digest ≡ accepted.content_digest
      → (delete_content kit world challenge_digest action fence s).0 ≡ ok resolution
      → let after = (delete_content kit world challenge_digest action fence s).1 in
        (open_accepted kit io other after).0 ≢ ok content
  delete_content-open_accepted world challenge_digest action fence s name r accepted other
        resolution io content found has live same h =
      let after = (delete_content kit world challenge_digest action fence s).1 in
      let gone =
        delete_content-ok world challenge_digest action fence s name r accepted resolution found has
          live h in
      open_accepted-missing io other after content
        (subst (λ d. after.objects (object_file_name d) ≡ none) (sym same) gone)

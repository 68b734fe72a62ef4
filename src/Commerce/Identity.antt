-- ===== src/Commerce/Identity.antt =====
-- The identity of an execution: the same under another writer, and of a plan that was prepared before.
use tos_ai.Commerce.Plan.{Plan, PlanKit, WriterFence}
use tos_ai.Commerce.Preparing.{
  arranged, check_bindings, credential_key, effect_key, file_key, identify, incomplete, network_key,
  prepare_plan, slot_fields,
}
use tos_ai.Prelude.{
  Bool-cases, Option-cases, ap, arith, eq_of_some, false, inl, inr, ok, refl, some, subst, sym, ◌∙◌,
  ◌≡◌,
}
use tos_ai.Prelude.Results.{Result-cases, eq_of_ok}
use tos_ai.Prelude.Sorting.{length-sort_by, sort_by_twice}
use tos_ai.Prelude.Text.{Bytes, codes}

module _ (kit : PlanKit) where
  -- The digest of the plan without its writer, and the identity that follows from it.
  identify-ok :
      (plan p : Plan)
      → identify kit plan ≡ ok p
      → (canonical execution_id' : Bytes) × (kit.digest_plan
            (codes "tos.local-execution-plan.v1")
            (record plan { writer_generation = 0 })
          ≡ some canonical)
        × (kit.derive_action_id (codes "execution.slot") (slot_fields plan canonical)
            ≡ some execution_id')
        × (p ≡ record plan { canonical_plan_digest = canonical; execution_id = execution_id' })
  unfolding identify
  identify-ok plan p h =
      elim (Option-cases (
        kit.digest_plan (codes "tos.local-execution-plan.v1")
          (record plan { writer_generation = 0 }))) [
            | inl none_there ↦ ground arith
            | inr (canonical, digested) ↦
                elim (Option-cases
                  (kit.derive_action_id (codes "execution.slot") (slot_fields plan canonical))) [
                    | inl none_there ↦ ground arith
                    | inr (found, derived) ↦ (canonical, found, digested, derived, ground arith)
                  ]
          ]

  prepare_plan-ok :
      (plan : Plan) (fence : WriterFence) (p : Plan) (digest : Bytes)
      → prepare_plan kit plan fence ≡ ok (p, digest)
      → (incomplete plan fence ≡ false)
        × (check_bindings kit (arranged plan fence) ≡ ok tt)
        × (identify kit (arranged plan fence) ≡ ok p)
        × (kit.digest_plan (codes "tos.local-execution-plan-bound.v1") p ≡ some digest)
  unfolding prepare_plan
  prepare_plan-ok plan fence p digest h = elim (Bool-cases (incomplete plan fence)) [
    | inl refused ↦ ground arith
    | inr complete ↦ elim (Result-cases (check_bindings kit (arranged plan fence))) [
      | inl (e, refused) ↦ ground arith
      | inr (_, checked) ↦ elim (Result-cases (identify kit (arranged plan fence))) [
        | inl (e, refused) ↦ ground arith
        | inr (q, identified) ↦
            elim (Option-cases (kit.digest_plan (codes "tos.local-execution-plan-bound.v1") q)) [
              | inl none_there ↦ ground arith
              | inr (found, digested) ↦
                  let computed : prepare_plan kit plan fence ≡ ok (q, found) =
                    rw (complete, checked, identified, digested) refl in
                  let pair = eq_of_ok (sym computed ∙ h) in
                  (
                    complete,
                    checked,
                    identified ∙ ap (λ r. ok r.0) pair,
                    ap (kit.digest_plan (codes "tos.local-execution-plan-bound.v1"))
                          (sym (ap (λ r. r.0) pair))
                        ∙ digested
                        ∙ ap (λ r. some r.1) pair,
                  )
            ]
      ]
    ]
  ]

  -- If a plan can be prepared under the fences of two writers, then as the same execution with the same
  -- canonical digest.
  pub prepare_plan-takeover :
      (plan : Plan) (fence fence' : WriterFence) (p p' : Plan) (digest digest' : Bytes)
      → prepare_plan kit plan fence ≡ ok (p, digest)
      → prepare_plan kit plan fence' ≡ ok (p', digest')
      → (p.execution_id ≡ p'.execution_id) × (p.canonical_plan_digest ≡ p'.canonical_plan_digest)
  unfolding arranged slot_fields
  prepare_plan-takeover plan fence fence' p p' digest digest' h h' =
      let (_, _, identified, _) = prepare_plan-ok plan fence p digest h in
      let (_, _, identified', _) = prepare_plan-ok plan fence' p' digest' h' in
      let (c, e, digested, derived, is_p) = identify-ok (arranged plan fence) p identified in
      let (c', e', digested', derived', is_p') =
        identify-ok (arranged plan fence') p' identified' in
      let same : c ≡ c' = eq_of_some (sym digested ∙ digested') in
      let derived'' : kit.derive_action_id (codes "execution.slot")
            (slot_fields (arranged plan fence') c)
          ≡ some e' =
        subst
          (λ canonical.
            kit.derive_action_id (codes "execution.slot")
              (slot_fields (arranged plan fence') canonical)
            ≡ some e')
          (sym same) derived' in
      let same_id : e ≡ e' = eq_of_some (sym derived ∙ derived'') in
      (
        ap (λ (q : Plan). q.execution_id) is_p
            ∙ same_id
            ∙ sym (ap (λ (q : Plan). q.execution_id) is_p'),
        ap (λ (q : Plan). q.canonical_plan_digest) is_p
            ∙ same
            ∙ sym (ap (λ (q : Plan). q.canonical_plan_digest) is_p'),
      )

  arranged_again :
      (plan : Plan) (fence : WriterFence) (c e : Bytes)
      → arranged
          (record (arranged plan fence) { canonical_plan_digest = c; execution_id = e })
          fence
        ≡ arranged plan fence
  unfolding arranged
  arranged_again plan fence c e =
      rw
        (
          sort_by_twice file_key plan.files,
          sort_by_twice network_key plan.network_bindings,
          sort_by_twice credential_key plan.credential_bindings,
          sort_by_twice effect_key plan.effect_bindings,
        )
        refl

  incomplete_again :
      (plan : Plan) (fence : WriterFence) (c e : Bytes)
      → incomplete
          (record (arranged plan fence) { canonical_plan_digest = c; execution_id = e })
          fence
        ≡ incomplete plan fence
  unfolding arranged incomplete
  incomplete_again plan fence c e =
      rw
        (
          length-sort_by file_key plan.files,
          length-sort_by network_key plan.network_bindings,
          length-sort_by credential_key plan.credential_bindings,
          length-sort_by effect_key plan.effect_bindings,
        )
        refl

  -- A plan that was prepared is prepared again, under the same fence, as itself with the same digest.
  pub prepare_plan-prepare_plan :
      (plan : Plan) (fence : WriterFence) (p : Plan) (digest : Bytes)
      → prepare_plan kit plan fence ≡ ok (p, digest)
      → prepare_plan kit p fence ≡ ok (p, digest)
  unfolding prepare_plan
  prepare_plan-prepare_plan plan fence p digest h =
      let (complete, checked, identified, digested) = prepare_plan-ok plan fence p digest h in
      let (c, e, _, _, is_p) = identify-ok (arranged plan fence) p identified in
      let same_plan : arranged p fence ≡ arranged plan fence =
        ap (λ q. arranged q fence) is_p ∙ arranged_again plan fence c e in
      let still : incomplete p fence ≡ false =
        ap (λ q. incomplete q fence) is_p ∙ incomplete_again plan fence c e ∙ complete in
      rw (still, same_plan, checked, identified, digested) refl

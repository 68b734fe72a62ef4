-- ===== src/Work/Claims.antt =====
-- What the methods of the journal do to its files, whichever system call fails.
use tos_ai.Prelude.{
  Bool, Bool-cases, Option, Option-cases, arith, false, inl, inr, none, ok, some, subst, true, ◌≡◌,
}
use tos_ai.Prelude.Exec.{◌>>=◌}
use tos_ai.Prelude.Text.{Bytes, bytes_eq, bytes_eq_self, bytes_eq→eq}
use tos_ai.Work.Contract.{Outcome}
use tos_ai.Work.Journal.{
  ClaimFaults, Codec, CompleteFaults, Journal, JournalRecord, abandon_if, begin_claim, claim,
  complete_claim, join_claim, open_claim, path, running_record, withdraw_if,
}

abbrev pub is_some {ℓ} : {A : Type ℓ} → Option A → Bool
is_some none = false
is_some (some a) = true

abbrev pub has_file : Journal → Bytes → Bool
has_file j name = is_some (j.files name)

module _ (codec : Codec) where
  pub begin_claim-other :
      (io : ClaimFaults) (name : Bytes) (r : JournalRecord) (j : Journal) (other : Bytes)
      → bytes_eq other name ≡ false
      → (begin_claim codec io name r j).1.files other ≡ j.files other
  unfolding begin_claim withdraw_if ◌>>=◌
  begin_claim-other io name r j other h = ground arith

  begin_claim-granted :
      (io : ClaimFaults) (name : Bytes) (r : JournalRecord) (j : Journal) (b : Bool)
      (r' : JournalRecord)
      → (begin_claim codec io name r j).0 ≡ ok (b, r')
      → has_file (begin_claim codec io name r j).1 name ≡ true
  unfolding begin_claim withdraw_if ◌>>=◌
  begin_claim-granted io name r j b r' h = ground (arith, bytes_eq_self name)

  open_claim-has_file :
      (io : ClaimFaults) (name fingerprint : Bytes) (j : Journal) (other : Bytes)
      → has_file j other ≡ true
      → has_file (open_claim codec io name fingerprint (j.files name) j).1 other ≡ true
  unfolding open_claim join_claim ◌>>=◌
  open_claim-has_file io name fingerprint j other h = elim (Bool-cases (bytes_eq other name)) [
    | inl same ↦
        let e = bytes_eq→eq other name same in
        let there : has_file j name ≡ true = subst (λ n. has_file j n ≡ true) e h in
        elim (Option-cases (j.files name)) [
          | inl absent ↦ ground arith
          | inr (f, present) ↦ rw present (ground arith)
        ]
    | inr differs ↦ elim (Option-cases (j.files name)) [
      | inl absent ↦
          rw absent
            (ground (arith, begin_claim-other io name (running_record codec fingerprint) j other))
      | inr (f, present) ↦ rw present (ground arith)
    ]
  ]

  -- A claim removes no file that was there.
  pub claim-has_file :
      (io : ClaimFaults) (id fingerprint : Bytes) (j : Journal) (other : Bytes)
      → has_file j other ≡ true
      → has_file (claim codec io id fingerprint j).1 other ≡ true
  unfolding claim ◌>>=◌
  claim-has_file io id fingerprint j other h =
      ground (arith, open_claim-has_file io (path id) fingerprint j other)

  -- A claim is granted where there was no file, and leaves one.
  pub claim-granted :
      (io : ClaimFaults) (id fingerprint : Bytes) (j : Journal) (r : JournalRecord)
      → (claim codec io id fingerprint j).0 ≡ ok (true, r)
      → (has_file j (path id) ≡ false)
        × (has_file (claim codec io id fingerprint j).1 (path id) ≡ true)
  unfolding claim open_claim join_claim ◌>>=◌
  claim-granted io id fingerprint j r h = elim (Option-cases (j.files (path id))) [
    | inl absent ↦
        ground (arith, begin_claim-granted io (path id) (running_record codec fingerprint) j true r)
    | inr (f, present) ↦ ground arith
  ]

  -- A completion removes no file.
  pub complete_claim-has_file :
      (io : CompleteFaults) (id fingerprint : Bytes) (o : Outcome) (j : Journal) (other : Bytes)
      → has_file j other ≡ true
      → has_file (complete_claim codec io id fingerprint o j).1 other ≡ true
  unfolding complete_claim abandon_if ◌>>=◌
  complete_claim-has_file io id fingerprint o j other h = ground arith

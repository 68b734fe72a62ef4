-- ===== src/Work/Settled.antt =====
-- An outcome on record stays on record, and answers every later call.
use tos_ai.Executor.Policy.{failed}
use tos_ai.Prelude.{
  Bool, Bool-cases, Option, Option-cases, Result, [], ap, arith, err, false, inl, inr, length,
  length-append, none, not, ok, refl, some, subst, sym, true, ◌||◌, ◌∷◌, ◌≡◌, ◌≤◌, ◌⊎◌,
}
use tos_ai.Prelude.Exec.{◌>>=◌}
use tos_ai.Prelude.Results.{Result-cases}
use tos_ai.Prelude.Text.{Bytes, bytes_eq, bytes_eq_self, bytes_eq_iff, bytes_eq→eq, is_digest}
use tos_ai.Work.Claims.{begin_claim-other}
use tos_ai.Work.Contract.{Outcome, WorkError}
use tos_ai.Work.Journal.{
  ClaimFaults, Codec, CompleteFaults, Journal, JournalFile, JournalRecord, abandon_if, begin_claim,
  claim, completable, complete, complete_claim, completed_record, encoded, is_running, join_claim,
  journal_schema, max_record_bytes, open_claim, path, private_file, read_journal_record,
  running_record, set_file, valid_state, withdraw_if,
}

-- The journal has the outcome of this execution on record.
pub record IsSettled (codec : Codec) (id fingerprint : Bytes) (o : Outcome) (j : Journal)
    : Type 0 where
  pub existing : JournalRecord
  pub found : read_journal_record codec false (j.files (path id)) ≡ ok existing
  pub belongs : existing.fingerprint ≡ fingerprint
  pub finished : existing.state ≡ complete
  pub outcome : existing.outcome ≡ o

module _ (codec : Codec) where
  -- A record's file is read back as that record, and is not longer than what is read. The newline behind
  -- the JSON value is white space.
  pub record IsReadable (r : JournalRecord) : Type 0 where
    pub decodes : codec.decode (encoded codec r) ≡ some r
    pub fits : length (encoded codec r) ≤ max_record_bytes

  pub read_journal_record-has_file :
      (file : Option JournalFile) (r : JournalRecord)
      → read_journal_record codec false file ≡ ok r
      → (f : JournalFile) × (file ≡ some f)
  unfolding read_journal_record
  read_journal_record-has_file none r h = cc
  read_journal_record-has_file (some f) r h = (f, refl)

  read_journal_record-parts :
      (fault : Bool) (file : Option JournalFile) (r : JournalRecord)
      → read_journal_record codec fault file ≡ ok r
      → (read_journal_record codec false file ≡ ok r)
        × (bytes_eq r.schema journal_schema ≡ true)
        × (is_digest r.fingerprint ≡ true)
  unfolding read_journal_record
  read_journal_record-parts fault none r h = cc
  read_journal_record-parts fault (some f) r h = elim (Option-cases (codec.decode f.content)) [
    | inl garbage ↦ ground arith
    | inr (r', decoded) ↦ ground arith
  ]

  read_journal_record-encoded :
      (r : JournalRecord)
      → IsReadable r
      → bytes_eq r.schema journal_schema ≡ true
      → is_digest r.fingerprint ≡ true
      → valid_state r.state ≡ true
      → read_journal_record codec false (private_file (encoded codec r)) ≡ ok r
  unfolding read_journal_record
  read_journal_record-encoded r readable schema fingerprint state =
      ground (arith, readable.decodes, readable.fits, length-append (codec.encode r) (b'\n' ∷ []))

  open_claim-keeps :
      (io : ClaimFaults) (own fingerprint : Bytes) (j : Journal) (name : Bytes) (f : JournalFile)
      → j.files name ≡ some f
      → (open_claim codec io own fingerprint (j.files own) j).1.files name ≡ some f
  unfolding open_claim join_claim ◌>>=◌
  open_claim-keeps io own fingerprint j name f h = elim (Bool-cases (bytes_eq name own)) [
    | inl same ↦
        let there : j.files own ≡ some f =
          subst (λ n. j.files n ≡ some f) (bytes_eq→eq name own same) h in
        rw there (ground arith)
    | inr differs ↦ elim (Option-cases (j.files own)) [
      | inl absent ↦
          rw absent (
            ground
              (arith, begin_claim-other codec io own (running_record codec fingerprint) j name))
      | inr (g, present) ↦ rw present (ground arith)
    ]
  ]

  pub claim-keeps :
      (io : ClaimFaults) (id fingerprint : Bytes) (j : Journal) (name : Bytes) (f : JournalFile)
      → j.files name ≡ some f
      → (claim codec io id fingerprint j).1.files name ≡ some f
  unfolding claim ◌>>=◌
  claim-keeps io id fingerprint j name f h =
      ground (arith, open_claim-keeps io (path id) fingerprint j name f)

  completable-parts :
      (fingerprint : Bytes) (m : Result WorkError JournalRecord) (r : JournalRecord)
      → completable codec fingerprint m ≡ ok r
      → (m ≡ ok r) × (bytes_eq r.fingerprint fingerprint ≡ true) × (is_running codec r.state ≡ true)
  unfolding completable
  completable-parts fingerprint (err e) r h = cc
  completable-parts fingerprint (ok r') r h = ground arith

  complete_claim-cases :
      (io : CompleteFaults) (id fingerprint : Bytes) (o : Outcome) (j : Journal)
      → let after = complete_claim codec io id fingerprint o j in
        ((after.1.files ≡ j.files) × (failed after.0 ≡ true))
        ⊎ ((r : JournalRecord) × (completable codec fingerprint
                (read_journal_record codec io.read (j.files (path id)))
              ≡ ok r)
            × (after.1.files
                ≡ (set_file
                    (path id)
                    (private_file (encoded codec (completed_record codec r fingerprint o)))
                    j).files))
  unfolding complete_claim abandon_if ◌>>=◌
  complete_claim-cases io id fingerprint o j =
      elim (Result-cases
        (completable codec fingerprint (read_journal_record codec io.read (j.files (path id))))) [
          | inl (e, refused) ↦ inl (ground arith)
          | inr (r, allowed) ↦
              elim (Bool-cases (
                not j.has_lock
                || io.create
                || io.chmod
                || io.write
                || io.sync
                || io.close
                || io.rename)) [
                  | inl stopped ↦ inl (ground arith)
                  | inr through ↦ inr (r, allowed, ground arith)
                ]
        ]

  pub complete_claim-keeps :
      (io : CompleteFaults) (id fingerprint : Bytes) (o : Outcome) (j : Journal) (name : Bytes)
      (r : JournalRecord)
      → read_journal_record codec false (j.files name) ≡ ok r
      → r.state ≡ complete
      → (complete_claim codec io id fingerprint o j).1.files name ≡ j.files name
  complete_claim-keeps io id fingerprint o j name r h done =
      elim (complete_claim-cases io id fingerprint o j) [
        | inl (same, refused) ↦ ap (λ files. files name) same
        | inr (r', allowed, changed) ↦
            let (found, belongs, ongoing) = completable-parts fingerprint _ r' allowed in
            let (clean, schema, valid) = read_journal_record-parts io.read _ r' found in
            elim (Bool-cases (bytes_eq name (path id))) [
              | inl own ↦
                  let e = bytes_eq→eq name (path id) own in
                  let twice : read_journal_record codec false (j.files (path id)) ≡ ok r =
                    subst (λ n. read_journal_record codec false (j.files n) ≡ ok r) e h in
                  ground arith
              | inr other ↦ rw changed (ground arith)
            ]
      ]

  pub complete_claim-IsSettled :
      (io : CompleteFaults) (id fingerprint : Bytes) (o : Outcome) (j : Journal)
      → IsReadable (completed_record codec (running_record codec fingerprint) fingerprint o)
      → (complete_claim codec io id fingerprint o j).0 ≡ ok tt
      → IsSettled codec id fingerprint o (complete_claim codec io id fingerprint o j).1
  complete_claim-IsSettled io id fingerprint o j readable h =
      elim (complete_claim-cases io id fingerprint o j) [
        | inl (same, refused) ↦ ground arith
        | inr (r, allowed, changed) ↦
            let (found, belongs, ongoing) = completable-parts fingerprint _ r allowed in
            let (clean, schema, valid) = read_journal_record-parts io.read _ r found in
            let stored = completed_record codec r fingerprint o in
            let kept : IsReadable stored =
              subst (λ t. IsReadable (record stored { schema = t }))
                (sym (bytes_eq→eq r.schema journal_schema schema)) readable in
            let known : is_digest fingerprint ≡ true =
              subst (λ t. is_digest t ≡ true) (bytes_eq→eq r.fingerprint fingerprint belongs)
                valid in
            let reads = read_journal_record-encoded stored kept schema known refl in
            record {
              existing = stored;
              found = rw changed (rw (bytes_eq_self (path id)) reads);
              belongs = refl;
              finished = refl;
              outcome = refl;
            }
      ]

  pub claim-settled :
      (io : ClaimFaults) (id fingerprint : Bytes) (o : Outcome) (j : Journal)
      → (s : IsSettled codec id fingerprint o j) → j.has_lock ≡ true
      → io.create ≡ false
      → io.read ≡ false
      → is_digest id ≡ true
      → claim codec io id fingerprint j ≡ (ok (false, s.existing), j)
  unfolding claim open_claim join_claim ◌>>=◌
  claim-settled io id fingerprint o j s locked no_create no_read valid =
      let (clean, schema, known) = read_journal_record-parts false _ s.existing s.found in
      let own : is_digest fingerprint ≡ true = subst (λ t. is_digest t ≡ true) s.belongs known in
      let same : bytes_eq s.existing.fingerprint fingerprint ≡ true =
        subst (λ t. bytes_eq s.existing.fingerprint t ≡ true) s.belongs
          (bytes_eq_self s.existing.fingerprint) in
      let (f, present) = read_journal_record-has_file _ s.existing s.found in
      let reads : read_journal_record codec false (some f) ≡ ok s.existing =
        subst (λ file. read_journal_record codec false file ≡ ok s.existing) present s.found in
      rw (locked, valid, own, no_create, present, no_read, reads, same) refl

  pub claim-joined :
      (io : ClaimFaults) (id fingerprint : Bytes) (j : Journal) (r : JournalRecord)
      → (claim codec io id fingerprint j).0 ≡ ok (false, r)
      → (read_journal_record codec false ((claim codec io id fingerprint j).1.files (path id))
          ≡ ok r)
        × (r.fingerprint ≡ fingerprint)
  unfolding claim open_claim join_claim begin_claim withdraw_if ◌>>=◌
  claim-joined io id fingerprint j r h = elim (Option-cases (j.files (path id))) [
    | inl absent ↦ ground arith
    | inr (f, present) ↦ ground (
      arith,
      read_journal_record-parts io.read (some f) r,
      bytes_eq_iff r.fingerprint fingerprint,
    )
  ]

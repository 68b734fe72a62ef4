-- ===== src/Commerce/Advance.antt =====
-- The steps that the gate takes with the record of an execution, and how a file changes with them.
use tos_ai.Commerce.Opening.{interrupted}
use tos_ai.Commerce.Records.{
  CreateFaults, EffectRecord, Gate, GateFile, GateRecord, ReadFaults, RecordCodec, ReplaceFaults,
  create_record, is_prepared, is_running, is_starting, no_read_faults, private_file, put_effect,
  read_record, replace_record, set_file, state_prepared, state_running, state_starting,
}
use tos_ai.Commerce.Running.{is_final}
use tos_ai.Prelude.{
  Bool-cases, Option, Option-cases, ap, arith, inl, inr, length, none, ok, refl, some, subst, sym,
  take, take-all, true, ℕ, ◌||◌, ◌∙◌, ◌≡◌, ◌⊎◌,
}
use tos_ai.Prelude.Exec.{change, ◌>>=◌}
use tos_ai.Prelude.Text.{Bytes, bytes_eq, bytes_eq→eq}

-- The changed_by record of an execution.
pub data IsAdvance (r s : GateRecord) : Type 0 where
  is_start :
      is_prepared r.state ≡ true → s.state ≡ state_starting → s.effects ≡ r.effects → IsAdvance r s
  is_run :
      is_starting r.state ≡ true → s.state ≡ state_running → s.effects ≡ r.effects → IsAdvance r s
  is_completion :
      is_running r.state ≡ true → is_final s.state ≡ true → s.effects ≡ r.effects → IsAdvance r s
  is_recovery : interrupted r.state ≡ some s.state → s.effects ≡ r.effects → IsAdvance r s
  is_effect :
      (name : Bytes) (effect : EffectRecord)
      → s.state ≡ r.state
      → s.effects ≡ put_effect name effect r.effects
      → IsAdvance r s

module _ (codec : RecordCodec) where
  pub data IsChange (f g : Option GateFile) : Type 0 where
    is_same : g ≡ f → IsChange f g
    is_created :
        (n : ℕ) (r : GateRecord)
        → f ≡ none
        → r.state ≡ state_prepared
        → g ≡ private_file (take n (codec.encode r))
        → IsChange f g
    is_replaced :
        (io : ReadFaults) (r s : GateRecord)
        → read_record codec io f ≡ ok r
        → IsAdvance r s
        → g ≡ private_file (codec.encode s)
        → IsChange f g

  -- One change after the other.
  pub data IsEvolution (f : Option GateFile) : Option GateFile → Type 0 where
    unchanged : IsEvolution f f
    changed_by : {g h : Option GateFile} → IsEvolution f g → IsChange g h → IsEvolution f h

  pub IsEvolution-append :
      {f g h : Option GateFile} → IsEvolution f g → IsEvolution g h → IsEvolution f h
  IsEvolution-append first unchanged = first
  IsEvolution-append first (changed_by rest last) = changed_by (IsEvolution-append first rest) last

  pub IsEvolution-one : {f g : Option GateFile} → IsChange f g → IsEvolution f g
  IsEvolution-one change = changed_by unchanged change

  -- What is read in spite of a fault's chance is what is there.
  pub read_record-reads :
      (io : ReadFaults) (f : Option GateFile) (r : GateRecord)
      → read_record codec io f ≡ ok r
      → read_record codec no_read_faults f ≡ ok r
  unfolding read_record
  read_record-reads io none r h = ground arith
  read_record-reads io (some f) r h = ground arith

  pub read_record-some :
      (io : ReadFaults) (f : Option GateFile) (r : GateRecord)
      → read_record codec io f ≡ ok r
      → (file : GateFile) × (f ≡ some file)
  unfolding read_record
  read_record-some io none r h = ground arith
  read_record-some io (some f) r h = (f, refl)

  -- A record that is read back is one that the file's content decodes to.
  pub read_record-decodes :
      (io : ReadFaults) (content : Bytes) (r : GateRecord)
      → read_record codec io (private_file content) ≡ ok r
      → codec.decode content ≡ some r
  unfolding read_record
  read_record-decodes io content r h = ground arith

  replace_record-cases :
      (io : ReplaceFaults) (own : Bytes) (r : GateRecord) (g : Gate)
      → let after = (replace_record codec io own r g).1 in
        (after.files ≡ g.files)
        ⊎ (after.files ≡ (set_file own (private_file (codec.encode r)) g).files)
  unfolding replace_record ◌>>=◌
  replace_record-cases io own r g =
      elim (Bool-cases (io.create || io.chmod || io.write || io.sync || io.close || io.rename)) [
        | inl stopped ↦ inl (ground arith)
        | inr through ↦ inr (ground arith)
      ]

  pub replace_record-IsChange :
      (fault : ReadFaults) (io : ReplaceFaults) (own : Bytes) (q r : GateRecord) (g : Gate)
      (name : Bytes)
      → read_record codec fault (g.files own) ≡ ok q
      → IsAdvance q r
      → IsChange (g.files name) ((replace_record codec io own r g).1.files name)
  replace_record-IsChange fault io own q r g name reads advance =
      elim (replace_record-cases io own r g) [
        | inl same ↦ is_same (ap (λ files. files name) same)
        | inr changed ↦ elim (Bool-cases (bytes_eq name own)) [
          | inr other ↦ is_same (ap (λ files. files name) changed ∙ rw other refl)
          | inl named ↦
              let e = bytes_eq→eq name own named in
              let there : read_record codec fault (g.files name) ≡ ok q =
                subst (λ n. read_record codec fault (g.files n) ≡ ok q) (sym e) reads in
              is_replaced fault q r there advance (ap (λ files. files name) changed ∙ rw named refl)
        ]
      ]

  create_record-cases :
      (io : CreateFaults) (own : Bytes) (r : GateRecord) (g : Gate)
      → let after = (create_record codec io own r g).1 in
        (after.files ≡ g.files)
        ⊎ ((n : ℕ) × (g.files own ≡ none)
            × (after.files ≡ (set_file own (private_file (take n (codec.encode r))) g).files))
  unfolding create_record ◌>>=◌
  create_record-cases io own r g = elim (Option-cases (g.files own)) [
    | inr (f, present) ↦ inl (ground arith)
    | inl absent ↦ elim (Bool-cases io.create) [
      | inl refused ↦ inl (ground arith)
      | inr through ↦ elim (Bool-cases io.write) [
        | inl torn ↦ inr (io.written, absent, ground arith)
        | inr whole ↦
            let content = codec.encode r in
            let all_of_it = take-all (length content) content (omega arith) in
            inr (length content, absent, rw all_of_it (ground arith))
      ]
    ]
  ]

  pub create_record-IsChange :
      (io : CreateFaults) (own : Bytes) (r : GateRecord) (g : Gate) (name : Bytes)
      → r.state ≡ state_prepared
      → IsChange (g.files name) ((create_record codec io own r g).1.files name)
  create_record-IsChange io own r g name is_new = elim (create_record-cases io own r g) [
    | inl same ↦ is_same (ap (λ files. files name) same)
    | inr (n, absent, changed) ↦ elim (Bool-cases (bytes_eq name own)) [
      | inr other ↦ is_same (ap (λ files. files name) changed ∙ rw other refl)
      | inl named ↦
          is_created n r (subst (λ m. g.files m ≡ none) (sym (bytes_eq→eq name own named)) absent)
            is_new (ap (λ files. files name) changed ∙ rw named refl)
    ]
  ]

-- ===== src/Commerce/Recovery.antt =====
-- `recoverInterruptedStates`: what opening the gate leaves of interrupted executions.
use tos_ai.Commerce.Opening.{
  DirectoryEntry, OpenWorld, interrupted, is_record_name, open_gate, recover_entry, recover_file,
  recover_interrupted, recover_record, with_state,
}
use tos_ai.Commerce.Phases.{
  KeepsState, Phase, phase_of, phase_of-private, phase_of-recorded, recorded,
}
use tos_ai.Commerce.Records.{
  Gate, GateRecord, GateState, RecordCodec, private_file, read_record, replace_record, set_file,
  state_running, state_starting,
}
use tos_ai.Prelude.{
  Bool, Bool-cases, List, Option-cases, [], any, ap, arith, false, inl, inr, length, none, not, ok,
  refl, some, subst, sym, take-all, true, ◌&&◌, ◌||◌, ◌∙◌, ◌∷◌, ◌≡◌, ◌⊎◌,
}
use tos_ai.Prelude.Exec.{pure, ◌>>=◌}
use tos_ai.Prelude.Results.{Result-cases}
use tos_ai.Prelude.Text.{Bytes, bytes_eq, bytes_eq_self, bytes_eq→eq}

abbrev pub is_interrupted : Phase → Bool
is_interrupted (recorded state_starting) = true
is_interrupted (recorded state_running) = true
is_interrupted _ = false

-- The entries have a record's file of the name.
unfoldable pub lists : Bytes → List DirectoryEntry → Bool
lists name entries =
    any (λ entry. entry.regular && is_record_name entry.name && bytes_eq entry.name name) entries

interrupted-some : (s t : GateState) → interrupted s ≡ some t → is_interrupted (recorded t) ≡ false
interrupted-some s t h = ground arith

interrupted-none : (s : GateState) → interrupted s ≡ none → is_interrupted (recorded s) ≡ false
interrupted-none s h = ground arith

module _ (codec : RecordCodec) where
  -- What recovery does with an entry: nothing, or the ambiguous state of an interrupted record.
  pub recover_entry-cases :
      (entry : DirectoryEntry) (g : Gate)
      → let after = (recover_entry codec entry g).1 in
        (after.files ≡ g.files)
        ⊎ ((r : GateRecord) × (state : GateState) × (read_record codec entry.read
                (g.files entry.name)
              ≡ ok r)
            × (interrupted r.state ≡ some state)
            × (after.files
                ≡ (set_file entry.name (private_file (codec.encode (with_state state r))) g).files))
  unfolding recover_entry recover_file recover_record replace_record ◌>>=◌
  recover_entry-cases entry g =
      elim (Result-cases (read_record codec entry.read (g.files entry.name))) [
        | inl (e, refused) ↦ inl (ground arith)
        | inr (r, found) ↦ elim (Option-cases (interrupted r.state)) [
          | inl settled ↦ inl (ground arith)
          | inr (state, ambiguous) ↦
              elim (Bool-cases (
                not (entry.regular && is_record_name entry.name)
                || entry.replace.create
                || entry.replace.chmod
                || entry.replace.write
                || entry.replace.sync
                || entry.replace.close
                || entry.replace.rename)) [
                  | inl stopped ↦ inl (ground arith)
                  | inr through ↦ inr (r, state, found, ambiguous, ground arith)
                ]
        ]
      ]

  pub recover_file-ok :
      (entry : DirectoryEntry) (g : Gate)
      → (recover_file codec entry g).0 ≡ ok tt
      → (r : GateRecord) × (read_record codec entry.read (g.files entry.name) ≡ ok r)
        × ((interrupted r.state ≡ none)
            ⊎ ((state : GateState) × (interrupted r.state ≡ some state)
                × ((recover_file codec entry g).1.files entry.name
                    ≡ private_file (codec.encode (with_state state r)))))
  unfolding recover_file recover_record replace_record ◌>>=◌
  recover_file-ok entry g h =
      elim (Result-cases (read_record codec entry.read (g.files entry.name))) [
        | inl (e, refused) ↦ ground arith
        | inr (r, found) ↦ elim (Option-cases (interrupted r.state)) [
          | inl settled ↦ (r, found, inl settled)
          | inr (state, ambiguous) ↦
              (r, found, inr (state, ambiguous, ground (arith, bytes_eq_self entry.name)))
        ]
      ]

  -- The ambiguous state of an interrupted record is not interrupted.
  settled-encoded :
      (laws : KeepsState codec) (r : GateRecord) (state : GateState)
      → interrupted r.state ≡ some state
      → is_interrupted (phase_of codec (private_file (codec.encode (with_state state r)))) ≡ false
  unfolding with_state
  settled-encoded laws r state ambiguous =
      let content = codec.encode (with_state state r) in
      elim (phase_of-private codec content) [
        | inl lost ↦ rw lost refl
        | inr (q, decoded, phase) ↦
            let whole = take-all (length content) content (omega arith) in
            let kept = laws.keeps (length content) (with_state state r) q (rw whole decoded) in
            rw (phase, kept) (interrupted-some r.state state ambiguous)
      ]

  pub recover_interrupted-step :
      (entry : DirectoryEntry) (entries : List DirectoryEntry) (g : Gate)
      → (recover_interrupted codec (entry ∷ entries) g).0 ≡ ok tt
      → let first = recover_entry codec entry g in
        (first.0 ≡ ok tt)
        × ((recover_interrupted codec entries first.1).0 ≡ ok tt)
        × ((recover_interrupted codec (entry ∷ entries) g).1
            ≡ (recover_interrupted codec entries first.1).1)
  unfolding recover_interrupted ◌>>=◌
  recover_interrupted-step entry entries g h = elim (Result-cases (recover_entry codec entry g).0) [
    | inl (e, failed) ↦ ground arith
    | inr (_, done) ↦ (done, ground arith, ground arith)
  ]

  pub recover_entry-taken :
      (entry : DirectoryEntry) (g : Gate)
      → (entry.regular && is_record_name entry.name) ≡ true
      → recover_entry codec entry g ≡ recover_file codec entry g
  unfolding recover_entry
  recover_entry-taken entry g taken = rw taken refl

  -- Opening the gate leaves no execution of the entries interrupted, and undoes none that recovery has settled.
  settled-recover_entry :
      (laws : KeepsState codec) (entry : DirectoryEntry) (g : Gate) (name : Bytes)
      → is_interrupted (phase_of codec (g.files name)) ≡ false
      → is_interrupted (phase_of codec ((recover_entry codec entry g).1.files name)) ≡ false
  settled-recover_entry laws entry g name settled = elim (recover_entry-cases entry g) [
    | inl same ↦ rw (ap (λ files. files name) same) settled
    | inr (r, state, found, ambiguous, changed) ↦ elim (Bool-cases (bytes_eq name entry.name)) [
      | inr other ↦
          let same : (recover_entry codec entry g).1.files name ≡ g.files name =
            ap (λ files. files name) changed ∙ rw other refl in
          rw same settled
      | inl own ↦
          let written : (recover_entry codec entry g).1.files name
              ≡ private_file (codec.encode (with_state state r)) =
            ap (λ files. files name) changed ∙ rw own refl in
          rw written (settled-encoded laws r state ambiguous)
    ]
  ]

  settled-recover_interrupted :
      (laws : KeepsState codec) (entries : List DirectoryEntry) (g : Gate) (name : Bytes)
      → is_interrupted (phase_of codec (g.files name)) ≡ false
      → (recover_interrupted codec entries g).0 ≡ ok tt
      → is_interrupted (phase_of codec ((recover_interrupted codec entries g).1.files name)) ≡ false
  unfolding recover_interrupted pure
  settled-recover_interrupted laws [] g name settled h = settled
  settled-recover_interrupted laws (entry ∷ entries) g name settled h =
      let (_, rest, after) = recover_interrupted-step entry entries g h in
      subst (λ t. is_interrupted (phase_of codec (t.files name)) ≡ false) (sym after)
        (settled-recover_interrupted laws entries _ name
          (settled-recover_entry laws entry g name settled) rest)

  recover_entry-settles :
      (laws : KeepsState codec) (entry : DirectoryEntry) (g : Gate)
      → (entry.regular && is_record_name entry.name) ≡ true
      → (recover_entry codec entry g).0 ≡ ok tt
      → is_interrupted (phase_of codec ((recover_entry codec entry g).1.files entry.name)) ≡ false
  recover_entry-settles laws entry g taken h =
      let is_file = recover_entry-taken entry g taken in
      let (r, found, outcome) = recover_file-ok entry g (subst (λ m. m.0 ≡ ok tt) is_file h) in
      elim outcome [
        | inl settled ↦ settled-recover_entry laws entry g entry.name (
            rw (phase_of-recorded codec entry.read (g.files entry.name) r found)
              (interrupted-none r.state settled))
        | inr (state, ambiguous, written) ↦
            rw (is_file, written) (settled-encoded laws r state ambiguous)
      ]

  recover_interrupted-settles :
      (laws : KeepsState codec) (entries : List DirectoryEntry) (g : Gate) (name : Bytes)
      → lists name entries ≡ true
      → (recover_interrupted codec entries g).0 ≡ ok tt
      → is_interrupted (phase_of codec ((recover_interrupted codec entries g).1.files name)) ≡ false
  unfolding lists
  recover_interrupted-settles laws [] g name listed h = ground arith
  recover_interrupted-settles laws (entry ∷ entries) g name listed h =
      let (first, rest, after) = recover_interrupted-step entry entries g h in
      subst (λ t. is_interrupted (phase_of codec (t.files name)) ≡ false) (sym after)
        (elim (Bool-cases
          (entry.regular && is_record_name entry.name && bytes_eq entry.name name)) [
            | inr passed ↦ recover_interrupted-settles laws entries _ name (ground arith) rest
            | inl own ↦
                let own_name = bytes_eq→eq entry.name name (ground arith) in
                let settled = recover_entry-settles laws entry g (ground arith) first in
                settled-recover_interrupted laws entries _ name
                  (subst
                    (λ n.
                      is_interrupted (phase_of codec ((recover_entry codec entry g).1.files n))
                      ≡ false)
                    own_name settled)
                  rest
          ])

  pub open_gate-ok :
      (world : OpenWorld) (entries : List DirectoryEntry) (g : Gate)
      → (open_gate codec world entries g).0 ≡ ok tt
      → ((recover_interrupted codec entries g).0 ≡ ok tt)
        × ((open_gate codec world entries g).1.files
            ≡ (recover_interrupted codec entries g).1.files)
  unfolding open_gate ◌>>=◌
  open_gate-ok world entries g h = elim (Result-cases (recover_interrupted codec entries g).0) [
    | inl (e, failed) ↦ ground arith
    | inr (_, done) ↦ (done, ground arith)
  ]

  -- When Open returns the gate, no execution whose file the directory listed can be read as STARTING or
  -- RUNNING. What decodes from a record's encoding has the record's state.
  pub open_gate-settles :
      (world : OpenWorld) (entries : List DirectoryEntry) (g : Gate) (name : Bytes)
      → KeepsState codec
      → lists name entries ≡ true
      → (open_gate codec world entries g).0 ≡ ok tt
      → is_interrupted (phase_of codec ((open_gate codec world entries g).1.files name)) ≡ false
  open_gate-settles world entries g name laws listed h =
      let (recovered, files) = open_gate-ok world entries g h in
      rw (ap (λ f. f name) files) (recover_interrupted-settles laws entries g name listed recovered)

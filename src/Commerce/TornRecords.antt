-- ===== src/Commerce/TornRecords.antt =====
-- What becomes of a record whose file was written in part.
use tos_ai.Commerce.Advance.{
  IsChange, IsEvolution, changed_by, is_created, is_replaced, is_same, unchanged,
}
use tos_ai.Commerce.History.{GateEvent, run_events, run_events-IsEvolution}
use tos_ai.Commerce.Opening.{
  DirectoryEntry, OpenWorld, is_record_name, open_gate, recover_entry, recover_interrupted,
}
use tos_ai.Commerce.Plan.{PlanKit}
use tos_ai.Commerce.Records.{
  CreateFaults, Gate, GateFile, GateRecord, ReadFaults, RecordCodec, create_record, private_file,
  read_record,
}
use tos_ai.Commerce.Recovery.{
  lists, open_gate-ok, recover_entry-cases, recover_entry-taken, recover_file-ok,
  recover_interrupted-step,
}
use tos_ai.Commerce.Requests.{HttpKit}
use tos_ai.Prelude.{
  Bool-cases, List, Option, [], ap, arith, false, inl, inr, none, ok, refl, subst, sym, take, true,
  ◌&&◌, ◌∙◌, ◌∷◌, ◌≡◌, ◌≢◌,
}
use tos_ai.Prelude.Exec.{◌>>=◌}
use tos_ai.Prelude.Text.{Bytes, bytes_eq, bytes_eq_self, bytes_eq→eq}

module _ (codec : RecordCodec) where
  -- A file that is there and is no record.
  pub IsTorn : Option GateFile → Type 0
  IsTorn f = (io : ReadFaults) (r : GateRecord) → read_record codec io f ≢ ok r

  IsTorn-recover_entry :
      (entry : DirectoryEntry) (g : Gate) (name : Bytes)
      → IsTorn (g.files name)
      → IsTorn ((recover_entry codec entry g).1.files name)
  unfolding IsTorn
  IsTorn-recover_entry entry g name torn = elim (recover_entry-cases codec entry g) [
    | inl same ↦ subst IsTorn (sym (ap (λ files. files name) same)) torn
    | inr (r, state, found, _, changed) ↦ elim (Bool-cases (bytes_eq name entry.name)) [
      | inr other ↦ subst IsTorn (sym (ap (λ files. files name) changed ∙ rw other refl)) torn
      | inl own ↦
          let own_name = bytes_eq→eq name entry.name own in
          absurd (
            torn entry.read r
              (subst (λ n. read_record codec entry.read (g.files n) ≡ ok r) (sym own_name) found))
    ]
  ]

  torn-recover_interrupted :
      (entries : List DirectoryEntry) (g : Gate) (name : Bytes)
      → IsTorn (g.files name)
      → lists name entries ≡ true
      → (recover_interrupted codec entries g).0 ≢ ok tt
  unfolding lists IsTorn
  torn-recover_interrupted [] g name torn listed h = ground arith
  torn-recover_interrupted (entry ∷ entries) g name torn listed h =
      let (first, rest, _) = recover_interrupted-step codec entry entries g h in
      elim (Bool-cases (entry.regular && is_record_name entry.name && bytes_eq entry.name name)) [
        | inr passed ↦
            torn-recover_interrupted entries (recover_entry codec entry g).1 name
              (IsTorn-recover_entry entry g name torn) (ground arith) rest
        | inl own ↦
            let taken = recover_entry-taken codec entry g (ground arith) in
            let (r, found, _) =
              recover_file-ok codec entry g (subst (λ m. m.0 ≡ ok tt) taken first) in
            let own_name = bytes_eq→eq entry.name name (ground arith) in
            torn entry.read r
              (subst (λ n. read_record codec entry.read (g.files n) ≡ ok r) own_name found)
      ]

  create_record-IsTorn :
      (io : CreateFaults) (name : Bytes) (r : GateRecord) (g : Gate)
      → io.create ≡ false
      → io.write ≡ true
      → g.files name ≡ none
      → codec.decode (take io.written (codec.encode r)) ≡ none
      → IsTorn ((create_record codec io name r g).1.files name)
  unfolding IsTorn create_record read_record ◌>>=◌
  create_record-IsTorn io name r g opened torn absent undecoded read s h =
      ground (arith, bytes_eq_self name)

  -- No step of the gate changes a file that is there and is no record.
  IsChange-torn :
      {f g : Option GateFile} (content : Bytes)
      → IsChange codec f g
      → f ≡ private_file content
      → IsTorn f
      → g ≡ f
  unfolding IsTorn
  IsChange-torn content (is_same same) there torn = same
  IsChange-torn content (is_created n r absent prepared new) there torn = cc
  IsChange-torn content (is_replaced io r s found advance new) there torn = absurd (torn io r found)

  IsEvolution-torn :
      {f g : Option GateFile} (content : Bytes)
      → IsEvolution codec f g
      → f ≡ private_file content
      → IsTorn f
      → g ≡ f
  IsEvolution-torn content unchanged there torn = refl
  IsEvolution-torn content (changed_by path change) there torn =
      let same = IsEvolution-torn content path there torn in
      IsChange-torn content change (same ∙ there) (subst IsTorn (sym same) torn) ∙ same

  create_record-torn :
      (io : CreateFaults) (name : Bytes) (r : GateRecord) (g : Gate)
      → io.create ≡ false
      → io.write ≡ true
      → g.files name ≡ none
      → (create_record codec io name r g).1.files name
        ≡ private_file (take io.written (codec.encode r))
  unfolding create_record ◌>>=◌
  create_record-torn io name r g opened torn absent = ground (arith, bytes_eq_self name)

  -- If the write of a new record stops at a prefix that does not decode, then after any calls, failures,
  -- crashes and restarts the file still holds that prefix, and an Open whose directory lists it returns an
  -- error.
  pub create_record-open_gate :
      (kit : PlanKit) (http : HttpKit) (io : CreateFaults) (name : Bytes) (r : GateRecord)
      (g : Gate) (es : List GateEvent) (world : OpenWorld) (entries : List DirectoryEntry)
      → io.create ≡ false
      → io.write ≡ true
      → g.files name ≡ none
      → codec.decode (take io.written (codec.encode r)) ≡ none
      → lists name entries ≡ true
      → let later = run_events kit http codec (create_record codec io name r g).1 es in
        (later.files name ≡ private_file (take io.written (codec.encode r)))
        × ((open_gate codec world entries later).0 ≢ ok tt)
  create_record-open_gate kit http io name r g es world entries opened torn absent undecoded
        listed =
      let after = (create_record codec io name r g).1 in
      let later = run_events kit http codec after es in
      let there = create_record-torn io name r g opened torn absent in
      let lost = create_record-IsTorn io name r g opened torn absent undecoded in
      let same =
        IsEvolution-torn (take io.written (codec.encode r))
          (run_events-IsEvolution kit http codec after es name) there lost in
      let still = subst IsTorn (sym same) lost in
      (
        same ∙ there,
        λ h.
            torn-recover_interrupted entries later name still listed
              (open_gate-ok codec world entries later h).0,
      )

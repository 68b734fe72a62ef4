-- ===== src/Outbox/Listing.antt =====
-- pkg/messengereventbridge/outbox.go: what opens the outbox, what feeds it, and the listing of pending results.
use tos_ai.Outbox.{
  Outbox, OutboxError, OutboxKit, ResultFile, ResultRecord, ResultState, list_outbox, outbox_closed,
  read_result_file, result_pending,
}
use tos_ai.Prelude.{
  Bool, Bool-cases, List, Option, Result, [], any, ap, arith, drop, err, false, if◌then◌else◌, inl,
  inr, leb, length, not, ok, refl, reject_if, subst, sym, true, ℕ, ◌&&◌, ◌-◌, ◌||◌, ◌∙◌, ◌∷◌, ◌≡◌,
}
use tos_ai.Prelude.Results.{Result-cases, eq_of_ok, ◌>>=◌, ◌>>◌}
use tos_ai.Prelude.Sorting.{any-sort_by, is_sorted, sort_by, sort_by-sorted}
use tos_ai.Prelude.Text.{Bytes, bytes_eq, codes}

pub record PendingResult : Type 0 where
  pub source_event_id : Bytes
  pub conversation_id : Bytes
  pub sender_agent_id : Bytes
  pub source_created_at : ℕ
  pub result_kind : Bytes
  pub result_json : Bytes
  pub result_digest : Bytes

-- What `os.ReadDir` tells of an entry, and whether its file then fails to be read.
pub record OutboxEntry : Type 0 where
  pub is_directory : Bool
  pub name : Bytes
  pub read : Bool

-- The checks of the root, and the lock.
pub record RootFaults : Type 0 where
  pub not_clean : Bool
  pub make : Bool
  pub not_private : Bool
  pub locked : Bool

pub data ListError : Type 0 where
  invalid_outbox_root make_outbox_root outbox_not_private outbox_owned : ListError
  not_a_result encode_result : ListError

abbrev pub is_pending : ResultState → Bool
is_pending result_pending = true
is_pending _ = false

-- filepath.Ext(name) == ".json"
unfoldable pub is_json_name : Bytes → Bool
is_json_name name = leb 5 (length name) && bytes_eq (drop (length name - 5) name) (codes ".json")

-- `pendingResult`
unfoldable pub pending_result : ResultRecord → PendingResult
pending_result r = record {
  source_event_id = r.source_event_id;
  conversation_id = r.conversation_id;
  sender_agent_id = r.sender_agent_id;
  source_created_at = r.source_created_at;
  result_kind = r.result_kind;
  result_json = r.result_json;
  result_digest = r.result_digest;
}

abbrev pub event_of : PendingResult → Bytes
event_of result = result.source_event_id

-- `OpenResultOutbox`, on the files that are there
unfoldable pub open_outbox : RootFaults → (Bytes → Option ResultFile) → Result ListError Outbox
open_outbox io files = do
  reject_if io.not_clean invalid_outbox_root
  reject_if io.make make_outbox_root
  reject_if io.not_private outbox_not_private
  reject_if io.locked outbox_owned
  ok (record { has_lock = true; files = files })

module _ (kit : OutboxKit) where
  -- The loop of `Pending`: the first file that cannot be read ends it.
  unfoldable pub collect_pending :
      (Bytes → Option ResultFile) → List OutboxEntry → Result OutboxError (List PendingResult)
  collect_pending files [] = ok []
  collect_pending files (entry ∷ entries) =
      let rest = collect_pending files entries in
      if entry.is_directory || not (is_json_name entry.name) then rest else do
        r ← read_result_file kit entry.read (files entry.name)
        results ← rest
        ok (if is_pending r.state then pending_result r ∷ results else results)

  -- `Pending`
  unfoldable pub pending :
      Bool → List OutboxEntry → Outbox → Result OutboxError (List PendingResult)
  pending fault entries o = do
    reject_if (not o.has_lock) outbox_closed
    reject_if fault list_outbox
    results ← collect_pending o.files entries
    ok (sort_by event_of results)

  -- What a listed file adds to the results.
  abbrev pub passes : (Bytes → Option ResultFile) → (PendingResult → Bool) → OutboxEntry → Bool
  passes files p entry =
      not entry.is_directory
      && is_json_name entry.name
      && elim (read_result_file kit entry.read (files entry.name)) [
        | err e ↦ false
        | ok r ↦ is_pending r.state && p (pending_result r)
      ]

  collect_pending-any :
      (files : Bytes → Option ResultFile) (entries : List OutboxEntry) (p : PendingResult → Bool)
      (results : List PendingResult)
      → collect_pending files entries ≡ ok results
      → any p results ≡ any (passes files p) entries
  unfolding collect_pending
  collect_pending-any files [] p results h = ap (any p) (sym (eq_of_ok h))
  collect_pending-any files (entry ∷ entries) p results h =
      elim (Bool-cases (entry.is_directory || not (is_json_name entry.name))) [
        | inl passed ↦
            let rest = collect_pending-any files entries p results (ground arith) in
            ground (arith, rest)
        | inr taken ↦ elim (Result-cases (read_result_file kit entry.read (files entry.name))) [
          | inl (e, refused) ↦ ground arith
          | inr (r, found) ↦ elim (Result-cases (collect_pending files entries)) [
            | inl (e, refused) ↦ ground arith
            | inr (others, collected) ↦
                let rest = collect_pending-any files entries p others collected in
                let listed = if is_pending r.state then pending_result r ∷ others else others in
                let computed : collect_pending files (entry ∷ entries) ≡ ok listed =
                  rw (taken, found, collected) refl in
                let same : listed ≡ results = eq_of_ok (sym computed ∙ h) in
                let is_file : (not entry.is_directory && is_json_name entry.name) ≡ true =
                  ground arith in
                elim (Bool-cases (is_pending r.state)) [
                  | inl is_new ↦ ap (any p) (sym same) ∙ rw (is_new, found) (ground arith)
                  | inr done ↦ ap (any p) (sym same) ∙ rw (done, found) (ground arith)
                ]
          ]
        ]
      ]

  -- What Pending returns is in the order of the events, and a test holds of some result exactly if it holds of
  -- the pending record of some listed file.
  pub pending-lists :
      (fault : Bool) (entries : List OutboxEntry) (o : Outbox) (results : List PendingResult)
      → pending fault entries o ≡ ok results
      → (is_sorted event_of results ≡ true)
        × ((p : PendingResult → Bool) → any p results ≡ any (passes o.files p) entries)
  unfolding pending
  pending-lists fault entries o results h = elim (Result-cases (collect_pending o.files entries)) [
    | inl (e, refused) ↦ ground arith
    | inr (found, collected) ↦
        let same : sort_by event_of found ≡ results = ground arith in
        (
          subst (λ rs. is_sorted event_of rs ≡ true) same (sort_by-sorted event_of found),
          λ p.
              ap (any p) (sym same)
              ∙ any-sort_by event_of p found
              ∙ collect_pending-any o.files entries p found collected,
        )
  ]

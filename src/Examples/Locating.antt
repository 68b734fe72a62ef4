-- ===== src/Examples/Locating.antt =====
-- A locator of pkg/artifacthttp whose disk is full while it writes its index.
use tos_ai.Artifacts.{Descriptor}
use tos_ai.Locators.{
  IndexFaults, IndexReadFaults, Locator, LocatorKit, artifact_url, artifact_url-open_persistent,
  artifact_url_of, find_descriptor, index_schema, matches_object, open_persistent,
  publish_descriptor, register, valid_descriptor, write_index,
}
use tos_ai.Prelude.{[], false, none, ok, refl, some, true, ◌∷◌, ◌≡◌, ◌≢◌}
use tos_ai.Prelude.Exec.{◌>>=◌}
use tos_ai.Prelude.Sorting.{insert_by, sort_by}
use tos_ai.Prelude.Text.{bytes_eq, codes, has_prefix, is_digest}

abbrev locating_kit : LocatorKit
locating_kit = record {
  get = λ digest. some (1 ∷ 2 ∷ []);
  encode = λ ds. 1 ∷ 1 ∷ [];
  decode = λ raw. elim raw [
    | [] ↦ none
    | c ∷ cs ↦ elim cs [ [] ↦ none | x ∷ xs ↦ some (index_schema, []) ]
  ];
}

abbrev locator : Locator
locator = record { origin = codes "https://h"; has_index = true; index = none; descriptors = [] }

abbrev published : Descriptor
published = record {
  digest = codes "sha256:0000000000000000000000000000000000000000000000000000000000000000";
  media_type = codes "text/plain";
  size_bytes = 2;
}

abbrev full_disk : IndexFaults
full_disk = record {
  create = false;
  chmod = false;
  write = true;
  written = 1;
  sync = false;
  close = false;
  rename = false;
  sync_directory = false;
}

publishes :
    (artifact_url locating_kit full_disk published locator).0
    ≡ ok (artifact_url_of locator published)
unfolding artifact_url valid_descriptor matches_object register publish_descriptor write_index
    find_descriptor sort_by insert_by is_digest bytes_eq has_prefix ◌>>=◌
publishes = refl

fresh_descriptor : find_descriptor published.digest locator.descriptors ≡ none
unfolding find_descriptor
fresh_descriptor = refl

abbrev no_index_read_faults : IndexReadFaults
no_index_read_faults = record { stat = false; opening = false; changed = false }

artifact_url-open_persistent_example :
    open_persistent locating_kit no_index_read_faults locator.origin
      (artifact_url locating_kit full_disk published locator).1.index
    ≢ ok locator
artifact_url-open_persistent_example =
    artifact_url-open_persistent locating_kit full_disk published locator
      (artifact_url_of locator published) no_index_read_faults locator.origin locator refl
      fresh_descriptor refl refl refl publishes

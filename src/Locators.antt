-- ===== src/Locators.antt =====
-- pkg/artifacthttp/locator.go: the publication of stored objects under an HTTPS origin, with an index that
-- survives restarts. The store's `Get`, `url.Parse` and JSON are parameters.
use tos_ai.Artifacts.{Descriptor, max_object_bytes_hard}
use tos_ai.Prelude.{
  Bool, List, Option, Result, [], all, any, arith, drop, err, false, if◌then◌else◌, inl, inr, leb,
  length, ltb, none, not, ok, refl, some, subst, take, true, ℕ, ◌&&◌, ◌++◌, ◌+◌, ◌==◌, ◌||◌, ◌∙◌,
  ◌∷◌, ◌≡◌, ◌≢◌,
}
use tos_ai.Prelude.Exec.{Exec, gets, modify, pure, raise_if, ◌>>=◌, ◌>>◌}
use tos_ai.Prelude.Results.{Result-cases}
use tos_ai.Prelude.Sorting.{bytes_lt, sort_by}
use tos_ai.Prelude.Text.{Bytes, bytes_eq, codes, is_digest}

pub record IndexFile : Type 0 where
  pub regular : Bool
  pub perm : ℕ
  pub content : Bytes

-- The map of published descriptors, and the index file, if there is an index.
pub record Locator : Type 0 where
  pub origin : Bytes
  pub has_index : Bool
  pub index : Option IndexFile
  pub descriptors : List Descriptor

-- `get` is the store's. `encode` and `decode` are of the index: its schema and its descriptors.
pub record LocatorKit : Type 0 where
  pub get : Bytes → Option Bytes
  pub encode : List Descriptor → Bytes
  pub decode : Bytes → Option (Bytes × List Descriptor)

pub data LocatorError : Type 0 where
  invalid_descriptor unmatched_object conflicting_metadata encode_index create_index : LocatorError
  write_index_failed commit_index sync_index invalid_index open_index index_changed : LocatorError
  decode_index invalid_entry unmatched_index invalid_origin : LocatorError

pub record IndexFaults : Type 0 where
  pub create : Bool
  pub chmod : Bool
  pub write : Bool
  pub written : ℕ
  pub sync : Bool
  pub close : Bool
  pub rename : Bool
  pub sync_directory : Bool

pub record IndexReadFaults : Type 0 where
  pub stat : Bool
  pub opening : Bool
  pub changed : Bool

abbrev pub index_schema : Bytes
index_schema = codes "tos.service.artifact-publications.v1"

-- 8 << 20
abbrev pub maximum_index_bytes : ℕ
maximum_index_bytes = 8388608

abbrev pub digest_of : Descriptor → Bytes
digest_of d = d.digest

-- `validDescriptor`
unfoldable pub valid_descriptor : Descriptor → Bool
valid_descriptor d =
    is_digest d.digest
    && not (d.size_bytes == 0)
    && leb d.size_bytes max_object_bytes_hard
    && not (length d.media_type == 0)
    && not (any (λ c. (c == b'\r') || (c == b'\n') || (c == 0)) d.media_type)

unfoldable pub find_descriptor : Bytes → List Descriptor → Option Descriptor
find_descriptor digest [] = none
find_descriptor digest (d ∷ ds) =
    if bytes_eq d.digest digest then some d else find_descriptor digest ds

unfoldable pub same_descriptor : Descriptor → Descriptor → Bool
same_descriptor a b =
    bytes_eq a.digest b.digest
    && bytes_eq a.media_type b.media_type
    && (a.size_bytes == b.size_bytes)

abbrev pub index_file : Bytes → Option IndexFile
index_file content = some (record { regular = true; perm = 0o600; content = content })

-- What `url.Parse` tells of an origin.
pub record OriginUrl : Type 0 where
  pub scheme : Bytes
  pub host : Bytes
  pub has_user : Bool
  pub path : Bytes
  pub raw_path : Bytes
  pub raw_query : Bytes
  pub fragment : Bytes

unfoldable pub ends_in_slash : Bytes → Bool
ends_in_slash [] = false
ends_in_slash (c ∷ []) = c == b'/'
ends_in_slash (c ∷ d ∷ ds) = ends_in_slash (d ∷ ds)

unfoldable pub valid_origin : Bytes → OriginUrl → Bool
valid_origin origin url =
    bytes_eq url.scheme (codes "https")
    && not (length url.host == 0)
    && not url.has_user
    && (length url.path == 0)
    && (length url.raw_path == 0)
    && (length url.raw_query == 0)
    && (length url.fragment == 0)
    && not (ends_in_slash origin)

-- `New`, on what `url.Parse` returns for the origin
unfoldable pub new_locator : Bytes → Option OriginUrl → Result LocatorError Locator
new_locator origin none = err invalid_origin
new_locator origin (some url) =
    if valid_origin origin url
    then ok (record { origin = origin; has_index = false; index = none; descriptors = [] })
    else err invalid_origin

-- The digests are valid and each above the one before.
unfoldable pub valid_entries : Bytes → List Descriptor → Bool
valid_entries previous [] = true
valid_entries previous (d ∷ ds) =
    valid_descriptor d && bytes_lt previous d.digest && valid_entries d.digest ds

-- What is written of the index. The error of `Chmod` or of `Write` stands in a variable of the `if` statement's
-- own, so it does not stop what follows.
unfoldable pub written_index : IndexFaults → Bytes → Bytes
written_index io content =
    if io.chmod then [] else if io.write then take io.written content else content

unfoldable pub artifact_url_of : Locator → Descriptor → Bytes
artifact_url_of l d = l.origin ++ codes "/v1/artifacts/sha256/" ++ drop 7 d.digest

abbrev pub add_descriptor : Descriptor → Locator → Locator
add_descriptor d l = record l { descriptors = d ∷ l.descriptors }

module _ (kit : LocatorKit) where
  -- `writePublicationIndexLocked`
  unfoldable pub write_index : IndexFaults → Descriptor → Exec Locator LocatorError (Unit {0})
  write_index io d = do
    l ← gets (λ l. l)
    let encoded = kit.encode (sort_by digest_of (d ∷ l.descriptors))
    raise_if (ltb maximum_index_bytes (length encoded + 1)) encode_index
    raise_if io.create create_index
    raise_if io.sync write_index_failed
    raise_if io.close write_index_failed
    raise_if io.rename commit_index
    modify (λ s. record s { index = index_file (written_index io (encoded ++ b'\n' ∷ [])) })
    raise_if io.sync_directory sync_index

  unfoldable pub publish_descriptor :
      IndexFaults → Descriptor → Bool → Exec Locator LocatorError (Unit {0})
  publish_descriptor io d true = do write_index io d; modify (add_descriptor d)
  publish_descriptor io d false = modify (add_descriptor d)

  unfoldable pub register :
      IndexFaults → Descriptor → Option Descriptor → Bool → Exec Locator LocatorError (Unit {0})
  register io d (some existing) has_index =
      raise_if (not (same_descriptor existing d)) conflicting_metadata
  register io d none has_index = publish_descriptor io d has_index

  unfoldable pub matches_object : Descriptor → Bool
  matches_object d = elim (kit.get d.digest) [
    | none ↦ false
    | some value ↦ length value == d.size_bytes
  ]

  -- `ArtifactURL`
  unfoldable pub artifact_url : IndexFaults → Descriptor → Exec Locator LocatorError Bytes
  artifact_url io d = do
    raise_if (not (valid_descriptor d)) invalid_descriptor
    raise_if (not (matches_object d)) unmatched_object
    l ← gets (λ l. l)
    register io d (find_descriptor d.digest l.descriptors) l.has_index
    pure (artifact_url_of l d)

  -- `readPublicationIndex`
  unfoldable pub read_index :
      IndexReadFaults → Option IndexFile → Result LocatorError (List Descriptor)
  read_index io none = ok []
  read_index io (some f) =
      if io.stat
        || not f.regular
        || not (f.perm == 0o600)
        || ltb maximum_index_bytes (length f.content)
      then err invalid_index
      else if io.opening
      then err open_index
      else if io.changed
      then err index_changed
      else elim (kit.decode f.content) [
        | none ↦ err decode_index
        | some document ↦
            if not (bytes_eq document.0 index_schema)
            then err decode_index
            else if valid_entries [] document.1
            then ok document.1
            else err invalid_entry
      ]

  -- `OpenPersistent`, behind the checks of the origin and of the index's path
  unfoldable pub open_persistent :
      IndexReadFaults → Bytes → Option IndexFile → Result LocatorError Locator
  open_persistent io origin index = elim (read_index io index) [
    | err e ↦ err e
    | ok ds ↦
        if all matches_object ds
        then ok (record { origin = origin; has_index = true; index = index; descriptors = ds })
        else err unmatched_index
  ]

  write_index-torn :
      (io : IndexFaults) (d : Descriptor) (l : Locator)
      → (write_index io d l).0 ≡ ok tt
      → (write_index io d l).1.index
        ≡ index_file
            (written_index io (kit.encode (sort_by digest_of (d ∷ l.descriptors)) ++ b'\n' ∷ []))
  unfolding write_index ◌>>=◌
  write_index-torn io d l h = ground arith

  artifact_url-index :
      (io : IndexFaults) (d : Descriptor) (l : Locator) (url : Bytes)
      → l.has_index ≡ true
      → find_descriptor d.digest l.descriptors ≡ none
      → (artifact_url io d l).0 ≡ ok url
      → (artifact_url io d l).1.index
        ≡ index_file
            (written_index io (kit.encode (sort_by digest_of (d ∷ l.descriptors)) ++ b'\n' ∷ []))
  unfolding artifact_url register publish_descriptor ◌>>=◌
  artifact_url-index io d l url indexed fresh h = elim (Result-cases (write_index io d l).0) [
    | inl (e, failed) ↦ ground arith
    | inr (_, done) ↦ let torn = write_index-torn io d l done in ground (arith, torn)
  ]

  -- If the index is written in part only, and the part does not decode, then an ArtifactURL that has published
  -- a new descriptor in spite of it leaves an index with which OpenPersistent returns no locator.
  pub artifact_url-open_persistent :
      (io : IndexFaults) (d : Descriptor) (l : Locator) (url : Bytes) (read : IndexReadFaults)
      (origin : Bytes) (l' : Locator)
      → let content = kit.encode (sort_by digest_of (d ∷ l.descriptors)) ++ b'\n' ∷ [] in
        l.has_index ≡ true
        → find_descriptor d.digest l.descriptors ≡ none
        → io.chmod ≡ false
        → io.write ≡ true
        → kit.decode (take io.written content) ≡ none
        → (artifact_url io d l).0 ≡ ok url
        → open_persistent read origin (artifact_url io d l).1.index ≢ ok l'
  unfolding open_persistent read_index written_index
  artifact_url-open_persistent io d l url read origin l' indexed fresh protected torn undecoded h
        k =
      let index = artifact_url-index io d l url indexed fresh h in
      let content = kit.encode (sort_by digest_of (d ∷ l.descriptors)) ++ b'\n' ∷ [] in
      let stored : (artifact_url io d l).1.index ≡ index_file (take io.written content) =
        index ∙ rw (protected, torn) refl in
      let k' : open_persistent read origin (index_file (take io.written content)) ≡ ok l' =
        subst (λ f. open_persistent read origin f ≡ ok l') stored k in
      ground arith

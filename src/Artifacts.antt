-- ===== src/Artifacts.antt =====
-- pkg/artifactstore/store.go: objects under the text of their SHA-256 digest, linked into place and never
-- written again. SHA-256 is a parameter, and so are the answers of the system calls. The temporary files
-- `.put-*` are left out: no name that is read is one of theirs.
pub mod RoundTrip
use tos_ai.Prelude.{
  Bool, Option, Result, [], all, any, drop, err, false, if◌then◌else◌, leb, length, ltb, none, not,
  ok, some, take, true, ℕ, ◌&&◌, ◌++◌, ◌+◌, ◌==◌, ◌||◌, ◌∷◌,
}
use tos_ai.Prelude.Exec.{Exec, gets, lift, modify, pure, raise_if, ◌>>=◌, ◌>>◌}
use tos_ai.Prelude.Text.{Bytes, bytes_eq, codes, has_prefix, hex_encode, is_digest, sha256_prefix}

pub record Descriptor : Type 0 where
  pub digest : Bytes
  pub media_type : Bytes
  pub size_bytes : ℕ  -- uint64

pub record ObjectFile : Type 0 where
  pub regular : Bool
  pub perm : ℕ
  pub content : Bytes

-- The bound, and the files of the `objects` directory by name.
pub record Store : Type 0 where
  pub maximum : ℕ  -- uint64
  pub objects : Bytes → Option ObjectFile

pub data StoreError : Type 0 where
  invalid_config invalid_root invalid_put cancelled_call create_object write_object : StoreError
  object_too_large sync_object close_object protect_object commit_object : StoreError
  existing_failed sync_objects invalid_get invalid_object open_object : StoreError
  object_changed read_object digest_mismatch : StoreError

abbrev pub StoreMethod : Type 0 → Type 0
StoreMethod A = Exec Store StoreError A

pub record GetFaults : Type 0 where
  pub cancelled : Bool
  pub stat : Bool
  pub opening : Bool
  pub changed : Bool
  pub read : Bool

-- `copy` covers a write that fails and a context that ends while bytes are copied.
pub record PutFaults : Type 0 where
  pub cancelled : Bool
  pub create : Bool
  pub copy : Bool
  pub sync : Bool
  pub close : Bool
  pub chmod : Bool
  pub link : Bool
  pub get : GetFaults
  pub sync_directory : Bool

-- What a reader yields, and whether it then fails.
pub record Source : Type 0 where
  pub content : Bytes
  pub fails : Bool

-- 64 << 20
abbrev pub max_object_bytes_hard : ℕ
max_object_bytes_hard = 67108864

abbrev is_media_start : ℕ → Bool
is_media_start c = leb b'a' c && leb c b'z' || leb b'0' c && leb c b'9'

abbrev is_media_character : ℕ → Bool
is_media_character c = is_media_start c || any (λ d. c == d) (codes "!#$&^_.+-")

-- `[a-z0-9][a-z0-9!#$&^_.+-]{0,126}`
unfoldable pub is_media_token : Bytes → Bool
is_media_token [] = false
is_media_token (c ∷ cs) = is_media_start c && all is_media_character cs && leb (length cs) 126

-- The bytes before the first slash and behind it.
unfoldable pub split_slash : Bytes → Option (Bytes × Bytes)
split_slash [] = none
split_slash (c ∷ cs) =
    let rest = split_slash cs in
    if c == b'/'
    then some ([], cs)
    else elim rest [ none ↦ none | some parts ↦ some (c ∷ parts.0, parts.1) ]

-- `mediaTypePattern`: neither part has a slash
unfoldable pub is_media_type : Bytes → Bool
is_media_type text = elim (split_slash text) [
  | none ↦ false
  | some parts ↦ is_media_token parts.0 && is_media_token parts.1
]

-- What `Open` meets: its checks of the path, and the failures of its system calls.
pub record RootWorld : Type 0 where
  pub not_canonical : Bool
  pub make_root : Bool
  pub symlink : Bool
  pub root_not_private : Bool
  pub make_objects : Bool
  pub objects_not_private : Bool

-- `Open`, on the objects that are there
unfoldable pub open_store : RootWorld → ℕ → (Bytes → Option ObjectFile) → Result StoreError Store
open_store world maximum objects =
    if world.not_canonical || (maximum == 0) || ltb max_object_bytes_hard maximum
    then err invalid_config
    else if world.make_root || world.symlink || world.root_not_private || world.make_objects
        || world.objects_not_private
    then err invalid_root
    else ok (record { maximum = maximum; objects = objects })

-- `path`, inside the objects
unfoldable pub object_name : Bytes → Bytes
object_name digest = if has_prefix sha256_prefix digest then drop 7 digest else digest

-- `copyBounded`: at most maximum + 1 bytes are read, so a reader that yields more than that is not read to its
-- failure.
unfoldable pub copy_bounded : Bool → Source → ℕ → Result StoreError Bytes
copy_bounded fault source maximum =
    if fault || source.fails && leb (length source.content) maximum
    then err write_object
    else if ltb maximum (length (take (maximum + 1) source.content))
    then err object_too_large
    else ok (take (maximum + 1) source.content)

abbrev pub linked : Bytes → ObjectFile
linked content = record { regular = true; perm = 0o400; content = content }

abbrev pub set_object : Bytes → ObjectFile → Store → Store
set_object name file s = record s {
  objects = λ other. if bytes_eq other name then some file else s.objects other;
}

module _ (sha256 : Bytes → Bytes) where
  -- "sha256:" + hex.EncodeToString(...)
  unfoldable pub object_digest : Bytes → Bytes
  object_digest content = sha256_prefix ++ hex_encode (sha256 content)

  -- The checks of `Get` on the object that is found.
  unfoldable pub read_object_file :
      GetFaults → ℕ → Bytes → Option ObjectFile → Result StoreError Bytes
  read_object_file io maximum digest none = err invalid_object
  read_object_file io maximum digest (some f) =
      if io.stat || not f.regular || not (f.perm == 0o400) || ltb maximum (length f.content)
      then err invalid_object
      else if io.opening
      then err open_object
      else if io.changed
      then err object_changed
      else if io.read
      then err read_object
      else if bytes_eq (object_digest f.content) digest
      then ok f.content
      else err digest_mismatch

  -- `Get`
  unfoldable pub get_object : GetFaults → Bytes → StoreMethod Bytes
  get_object io digest = do
    raise_if (not (is_digest digest)) invalid_get
    raise_if io.cancelled cancelled_call
    s ← gets (λ s. s)
    lift (read_object_file io s.maximum digest (s.objects (object_name digest)))

  -- The object is there already: it is read and its length compared.
  unfoldable pub join_object : PutFaults → Bytes → ℕ → StoreMethod (Unit {0})
  join_object io digest written s = elim (get_object io.get digest s).0 [
    | err e ↦ (err existing_failed, s)
    | ok stored ↦ if length stored == written then (ok tt, s) else (err existing_failed, s)
  ]

  unfoldable pub link_object :
      PutFaults → Bytes → Bytes → Option ObjectFile → StoreMethod (Unit {0})
  link_object io digest content (some f) = join_object io digest (length content)
  link_object io digest content none = do
    modify (set_object (object_name digest) (linked content))
    raise_if io.sync_directory sync_objects

  -- `Put`
  unfoldable pub put_object : PutFaults → Bytes → Source → StoreMethod Descriptor
  put_object io media_type source = do
    raise_if (not (is_media_type media_type)) invalid_put
    raise_if io.cancelled cancelled_call
    raise_if io.create create_object
    s ← gets (λ s. s)
    content ← lift (copy_bounded io.copy source s.maximum)
    raise_if io.sync sync_object
    raise_if io.close close_object
    raise_if io.chmod protect_object
    raise_if io.link commit_object
    let digest = object_digest content
    link_object io digest content (s.objects (object_name digest))
    pure (record { digest = digest; media_type = media_type; size_bytes = length content })

-- ===== src/Examples/Storing.antt =====
-- An artifact store of pkg/artifactstore with one object, under a toy SHA-256.
use tos_ai.Artifacts.{
  Descriptor, PutFaults, Source, Store, copy_bounded, get_object, is_media_token, is_media_type,
  link_object, linked, object_digest, put_object, split_slash,
}
use tos_ai.Artifacts.RoundTrip.{
  StoreCall, gets_object, no_get_faults, put_object-get_object, puts, run_calls, run_calls-keeps,
}
use tos_ai.Prelude.{
  ap, arith, Bool-cases, List, [], false, if◌then◌else◌, inl, inr, length, none, ok, refl, some,
  suc, true, zero, ℕ, ◌∷◌, ◌≡◌,
}
use tos_ai.Prelude.Exec.{◌>>=◌}
use tos_ai.Prelude.Text.{Bytes, bytes_eq, bytes_eq→eq, codes, hex_encode, is_digest}

abbrev value : Bytes
value = 1 ∷ 2 ∷ []

abbrev ones : ℕ → Bytes
ones zero = []
ones (suc n) = 17 ∷ ones n

-- The value has a sum of its own.
abbrev toy_sha256 : Bytes → Bytes
toy_sha256 raw = if bytes_eq raw value then ones 32 else []

abbrev store : Store
store = record { maximum = 10; objects = λ name. none }

abbrev source : Source
source = record { content = value; fails = false }

abbrev no_put_faults : PutFaults
no_put_faults = record {
  cancelled = false;
  create = false;
  copy = false;
  sync = false;
  close = false;
  chmod = false;
  link = false;
  get = no_get_faults;
  sync_directory = false;
}

abbrev descriptor : Descriptor
descriptor = record {
  digest = codes "sha256:1111111111111111111111111111111111111111111111111111111111111111";
  media_type = codes "text/plain";
  size_bytes = 2;
}

sums : is_digest (object_digest toy_sha256 value) ≡ true
unfolding object_digest hex_encode is_digest bytes_eq
sums = refl

unique_sum :
    (other : Bytes)
    → object_digest toy_sha256 other ≡ object_digest toy_sha256 value
    → other ≡ value
unfolding object_digest hex_encode bytes_eq
unique_sum other h = elim (Bool-cases (bytes_eq other value)) [
  | inl same ↦ bytes_eq→eq other value same
  | inr differs ↦
      let short : length (object_digest toy_sha256 other) ≡ 7 = rw differs refl in
      let long : length (object_digest toy_sha256 value) ≡ 71 = refl in
      let same : length (object_digest toy_sha256 other) ≡ length (object_digest toy_sha256 value) =
        ap length h in
      absurd (omega (arith, short, long, same))
]

put_ok : (put_object toy_sha256 no_put_faults (codes "text/plain") source store).0 ≡ ok descriptor
unfolding put_object is_media_type split_slash is_media_token copy_bounded link_object object_digest
    hex_encode bytes_eq ◌>>=◌
put_ok = refl

abbrev other_calls : List StoreCall
other_calls =
    puts no_put_faults (codes "text/plain") (record { content = 3 ∷ []; fails = false })
    ∷ gets_object no_get_faults descriptor.digest
    ∷ []

put_object-get_object_example :
    let later =
      run_calls toy_sha256
        (put_object toy_sha256 no_put_faults (codes "text/plain") source store).1
        other_calls in
    ((get_object toy_sha256 no_get_faults descriptor.digest later).0 ≡ ok value)
    × (descriptor.size_bytes ≡ length value)
put_object-get_object_example =
    put_object-get_object toy_sha256 no_put_faults (codes "text/plain") source store descriptor
      other_calls sums unique_sum put_ok

abbrev full_store : Store
full_store = record { maximum = 10; objects = λ name. some (linked value) }

run_calls-keeps_example :
    let after = run_calls toy_sha256 full_store other_calls in
    (after.objects (codes "name") ≡ some (linked value)) × (after.maximum ≡ full_store.maximum)
run_calls-keeps_example =
    run_calls-keeps toy_sha256 full_store other_calls (codes "name") (linked value) refl

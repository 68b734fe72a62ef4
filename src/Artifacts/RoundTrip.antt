-- ===== src/Artifacts/RoundTrip.antt =====
-- What `Put` has stored, `Get` returns, whatever is put in between.
use tos_ai.Artifacts.{
  Descriptor, GetFaults, ObjectFile, PutFaults, Source, Store, copy_bounded, get_object,
  join_object, link_object, linked, object_digest, object_name, put_object, read_object_file,
}
use tos_ai.Prelude.{
  Bool, Bool-cases, List, Option, Option-cases, [], ap, arith, false, inl, inr, length, length-take,
  none, ok, refl, some, subst, sym, take, take-all, true, ℕ, ◌+◌, ◌∙◌, ◌∷◌, ◌≡◌, ◌≤◌,
}
use tos_ai.Prelude.Exec.{◌>>=◌}
use tos_ai.Prelude.Results.{Result-cases}
use tos_ai.Prelude.Text.{Bytes, bytes_eq, bytes_eq_self, bytes_eq→eq, is_digest}

abbrev pub no_get_faults : GetFaults
no_get_faults = record {
  cancelled = false;
  stat = false;
  opening = false;
  changed = false;
  read = false;
}

pub data StoreCall : Type 0 where
  puts : PutFaults → Bytes → Source → StoreCall
  gets_object : GetFaults → Bytes → StoreCall

copy_bounded-ok :
    (fault : Bool) (source : Source) (maximum : ℕ) (content : Bytes)
    → copy_bounded fault source maximum ≡ ok content
    → (content ≡ source.content) × (length source.content ≤ maximum)
unfolding copy_bounded
copy_bounded-ok fault source maximum content h =
    let all_of_it = length-take (maximum + 1) source.content in
    let bounded : length source.content ≤ maximum = ground arith in
    let taken : content ≡ take (maximum + 1) source.content = ground arith in
    (taken ∙ take-all (maximum + 1) source.content (omega arith), bounded)

module _ (sha256 : Bytes → Bytes) where
  pub after_call : Store → StoreCall → Store
  after_call s (puts io media_type source) = (put_object sha256 io media_type source s).1
  after_call s (gets_object io digest) = (get_object sha256 io digest s).1

  pub run_calls : Store → List StoreCall → Store
  run_calls s [] = s
  run_calls s (c ∷ cs) = run_calls (after_call s c) cs

  join_object-state :
      (io : PutFaults) (digest : Bytes) (written : ℕ) (s : Store)
      → (join_object sha256 io digest written s).1 ≡ s
  unfolding join_object
  join_object-state io digest written s =
      elim (Result-cases (get_object sha256 io.get digest s).0) [
        | inl (e, failed) ↦ ground arith
        | inr (stored, found) ↦ ground arith
      ]

  link_object-keeps :
      (io : PutFaults) (digest content : Bytes) (s : Store) (name : Bytes) (f : ObjectFile)
      → s.objects name ≡ some f
      → let after = (link_object sha256 io digest content (s.objects (object_name digest)) s).1 in
        (after.objects name ≡ some f) × (after.maximum ≡ s.maximum)
  unfolding link_object ◌>>=◌
  link_object-keeps io digest content s name f h =
      elim (Option-cases (s.objects (object_name digest))) [
        | inr (g, present) ↦
            let same = join_object-state io digest (length content) s in
            rw (present, same) (h, refl)
        | inl missing ↦ elim (Bool-cases (bytes_eq name (object_name digest))) [
          | inl same ↦
              let there : s.objects (object_name digest) ≡ some f =
                subst (λ n. s.objects n ≡ some f) (bytes_eq→eq name (object_name digest) same) h in
              ground arith
          | inr other ↦ rw missing (ground arith)
        ]
      ]

  -- An object that is there stays as it is.
  put-keeps :
      (io : PutFaults) (media_type : Bytes) (source : Source) (s : Store) (name : Bytes)
      (f : ObjectFile)
      → s.objects name ≡ some f
      → let after = (put_object sha256 io media_type source s).1 in
        (after.objects name ≡ some f) × (after.maximum ≡ s.maximum)
  unfolding put_object ◌>>=◌
  put-keeps io media_type source s name f h =
      elim (Result-cases (copy_bounded io.copy source s.maximum)) [
        | inl (e, failed) ↦ (ground arith, ground arith)
        | inr (content, copied) ↦
            let digest = object_digest sha256 content in
            let (kept, bound) = link_object-keeps io digest content s name f h in
            (ground arith, ground arith)
      ]

  get_object-state :
      (io : GetFaults) (digest : Bytes) (s : Store) → (get_object sha256 io digest s).1 ≡ s
  unfolding get_object ◌>>=◌
  get_object-state io digest s = ground arith

  -- An object that is there stays as it is, and so does the bound, whatever calls follow.
  pub run_calls-keeps :
      (s : Store) (cs : List StoreCall) (name : Bytes) (f : ObjectFile)
      → s.objects name ≡ some f
      → let after = run_calls s cs in (after.objects name ≡ some f) × (after.maximum ≡ s.maximum)
  unfolding run_calls after_call
  run_calls-keeps s [] name f h = (h, refl)
  run_calls-keeps s (puts io media_type source ∷ cs) name f h =
      let (kept, bound) = put-keeps io media_type source s name f h in
      let (still, same) =
        run_calls-keeps (put_object sha256 io media_type source s).1 cs name f kept in
      (still, same ∙ bound)
  run_calls-keeps s (gets_object io digest ∷ cs) name f h =
      let same = get_object-state io digest s in
      let (still, bound) =
        run_calls-keeps (get_object sha256 io digest s).1 cs name f
          (ap (λ (t : Store). t.objects name) same ∙ h) in
      (still, bound ∙ ap (λ (t : Store). t.maximum) same)

  read_object_file-ok :
      (io : GetFaults) (maximum : ℕ) (digest : Bytes) (f : ObjectFile) (value : Bytes)
      → read_object_file sha256 io maximum digest (some f) ≡ ok value
      → (read_object_file sha256 no_get_faults maximum digest (some f) ≡ ok value)
        × (object_digest sha256 value ≡ digest)
  unfolding read_object_file
  read_object_file-ok io maximum digest f value h =
      let same : f.content ≡ value = ground arith in
      (
        ground arith,
        subst (λ v. object_digest sha256 v ≡ digest) same
            (bytes_eq→eq (object_digest sha256 f.content) digest (ground arith)),
      )

  -- An object that `Put` finds: what `Get` reads of it.
  join_object-ok :
      (io : PutFaults) (digest : Bytes) (written : ℕ) (s : Store)
      → (join_object sha256 io digest written s).0 ≡ ok tt
      → (value : Bytes) × (read_object_file sha256 io.get s.maximum digest
            (s.objects (object_name digest))
          ≡ ok value)
        × (length value ≡ written)
  unfolding join_object get_object ◌>>=◌
  join_object-ok io digest written s h =
      elim (Result-cases
        (read_object_file sha256 io.get s.maximum digest (s.objects (object_name digest)))) [
          | inl (e, failed) ↦ ground arith
          | inr (value, found) ↦ (value, found, ground arith)
        ]

  linked-reads :
      (maximum : ℕ) (content : Bytes)
      → length content ≤ maximum
      → read_object_file sha256 no_get_faults maximum
          (object_digest sha256 content)
          (some (linked content))
        ≡ ok content
  unfolding read_object_file
  linked-reads maximum content h = ground (arith, bytes_eq_self (object_digest sha256 content))

  -- What a link that succeeds tells of the object: it is there, and it can be read.
  link_object-ok :
      (io : PutFaults) (content : Bytes) (s : Store)
      → let digest = object_digest sha256 content in
        let after = link_object sha256 io digest content (s.objects (object_name digest)) s in
        length content ≤ s.maximum
        → after.0 ≡ ok tt
        → (f : ObjectFile) × (value : Bytes) × (after.1.objects (object_name digest) ≡ some f)
          × (read_object_file sha256 no_get_faults s.maximum digest (some f) ≡ ok value)
          × (object_digest sha256 value ≡ digest)
          × (length value ≡ length content)
  unfolding link_object ◌>>=◌
  link_object-ok io content s bounded h =
      let digest = object_digest sha256 content in
      elim (Option-cases (s.objects (object_name digest))) [
        | inl missing ↦
            let reads = linked-reads s.maximum content bounded in
            (
              linked content,
              content,
              rw missing (ground (arith, bytes_eq_self (object_name digest))),
              reads,
              refl,
              refl,
            )
        | inr (f, present) ↦
            let joined : (join_object sha256 io digest (length content) s).0 ≡ ok tt =
              ground arith in
            let (value, found, same_length) = join_object-ok io digest (length content) s joined in
            let there : read_object_file sha256 io.get s.maximum digest (some f) ≡ ok value =
              subst (λ o. read_object_file sha256 io.get s.maximum digest o ≡ ok value) present
                found in
            let (reads, hashes) = read_object_file-ok io.get s.maximum digest f value there in
            (
              f,
              value,
              rw (present, join_object-state io digest (length content) s) present,
              reads,
              hashes,
              same_length,
            )
      ]

  put_object-ok :
      (io : PutFaults) (media_type : Bytes) (source : Source) (s : Store) (d : Descriptor)
      → (put_object sha256 io media_type source s).0 ≡ ok d
      → (content : Bytes) × let digest = object_digest sha256 content in
          let linking = link_object sha256 io digest content (s.objects (object_name digest)) s in
          (copy_bounded io.copy source s.maximum ≡ ok content)
          × (d ≡ record { digest = digest; media_type = media_type; size_bytes = length content })
          × (linking.0 ≡ ok tt)
          × ((put_object sha256 io media_type source s).1 ≡ linking.1)
  unfolding put_object ◌>>=◌
  put_object-ok io media_type source s d h =
      elim (Result-cases (copy_bounded io.copy source s.maximum)) [
        | inl (e, failed) ↦ ground arith
        | inr (content, copied) ↦
            let digest = object_digest sha256 content in
            elim (Result-cases
              (link_object sha256 io digest content (s.objects (object_name digest)) s).0) [
                | inl (e, failed) ↦ ground arith
                | inr (_, done) ↦ (content, (copied, ground arith, done, ground arith))
              ]
      ]

  link_object-maximum :
      (io : PutFaults) (digest content : Bytes) (s : Store) (found : Option ObjectFile)
      → (link_object sha256 io digest content found s).1.maximum ≡ s.maximum
  unfolding link_object ◌>>=◌
  link_object-maximum io digest content s none = ground arith
  link_object-maximum io digest content s (some f) =
      ap (λ (t : Store). t.maximum) (join_object-state io digest (length content) s)

  get_object-reads :
      (digest : Bytes) (s : Store) (value : Bytes)
      → is_digest digest ≡ true
      → read_object_file sha256 no_get_faults s.maximum digest (s.objects (object_name digest))
        ≡ ok value
      → (get_object sha256 no_get_faults digest s).0 ≡ ok value
  unfolding get_object ◌>>=◌
  get_object-reads digest s value sums found = rw (sums, found) refl

  -- Once Put has returned a descriptor, then after any further calls Get of its digest returns exactly the bytes
  -- of the reader, and the descriptor has their number, if no system call of that Get fails, and SHA-256 sums
  -- the bytes to 32 bytes, to which it sums no others.
  pub put_object-get_object :
      (io : PutFaults) (media_type : Bytes) (source : Source) (s : Store) (d : Descriptor)
      (cs : List StoreCall)
      → is_digest (object_digest sha256 source.content) ≡ true
      → ((value : Bytes)
          → object_digest sha256 value ≡ object_digest sha256 source.content
          → value ≡ source.content)
      → (put_object sha256 io media_type source s).0 ≡ ok d
      → let later = run_calls (put_object sha256 io media_type source s).1 cs in
        ((get_object sha256 no_get_faults d.digest later).0 ≡ ok source.content)
        × (d.size_bytes ≡ length source.content)
  put_object-get_object io media_type source s d cs is_sum unique h =
      let after = (put_object sha256 io media_type source s).1 in
      let later = run_calls after cs in
      let (content, (copied, is_d, linked', same)) = put_object-ok io media_type source s d h in
      let (whole, bounded) = copy_bounded-ok io.copy source s.maximum content copied in
      let digest = object_digest sha256 content in
      let name = object_name digest in
      let (f, value, there, reads, hashes, _) =
        link_object-ok io content s (subst (λ c. length c ≤ s.maximum) (sym whole) bounded)
          linked' in
      let there' : after.objects name ≡ some f = ap (λ (t : Store). t.objects name) same ∙ there in
      let (still, bound) = run_calls-keeps after cs name f there' in
      let unchanged_bound : later.maximum ≡ s.maximum =
        bound
        ∙ ap (λ (t : Store). t.maximum) same
        ∙ link_object-maximum io digest content s (s.objects name) in
      let is_value : value ≡ source.content =
        unique value (hashes ∙ ap (object_digest sha256) whole) in
      let found : read_object_file sha256 no_get_faults later.maximum digest (later.objects name)
          ≡ ok value =
        rw (unchanged_bound, still) reads in
      let sums : is_digest digest ≡ true = rw whole is_sum in
      let named : d.digest ≡ digest = ap (λ (t : Descriptor). t.digest) is_d in
      (
        subst (λ e. (get_object sha256 no_get_faults e later).0 ≡ ok source.content) (sym named)
            (get_object-reads digest later value sums found ∙ ap ok is_value),
        ap (λ (t : Descriptor). t.size_bytes) is_d ∙ ap length whole,
      )

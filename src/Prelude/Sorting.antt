-- ===== src/Prelude/Sorting.antt =====
-- Strings in byte order, and a stable sort by a key: its result is sorted, and sorting it again changes
-- nothing.
use tos_ai.Prelude.{
  Bool, List, [], any, ap, arith, false, if◌then◌else◌, length, ltb, not, refl, suc, true, ◌&&◌,
  ◌==◌, ◌||◌, ◌∙◌, ◌∷◌, ◌≡◌,
}
use tos_ai.Prelude.Text.{Bytes}

-- s < t on Go strings
unfoldable pub bytes_lt : Bytes → Bytes → Bool
bytes_lt s [] = false
bytes_lt [] (t ∷ ts) = true
bytes_lt (s ∷ ss) (t ∷ ts) = ltb s t || (s == t) && bytes_lt ss ts

bytes_lt-asym : (s t : Bytes) → bytes_lt s t ≡ true → bytes_lt t s ≡ false
unfolding bytes_lt
bytes_lt-asym s [] h = ground arith
bytes_lt-asym [] (t ∷ ts) h = refl
bytes_lt-asym (s ∷ ss) (t ∷ ts) h = ground (arith, bytes_lt-asym ss ts)

module _ {A : Type 0} (key : A → Bytes) where
  unfoldable pub insert_by : A → List A → List A
  insert_by x [] = x ∷ []
  insert_by x (y ∷ ys) =
      let rest = insert_by x ys in if bytes_lt (key y) (key x) then y ∷ rest else x ∷ y ∷ ys

  -- `sort.Slice(values, func(i, j int) bool { return key(values[i]) < key(values[j]) })`
  unfoldable pub sort_by : List A → List A
  sort_by [] = []
  sort_by (x ∷ xs) = insert_by x (sort_by xs)

  -- No element is below the one before it.
  unfoldable pub is_sorted : List A → Bool
  is_sorted [] = true
  is_sorted (x ∷ []) = true
  is_sorted (x ∷ y ∷ ys) = not (bytes_lt (key y) (key x)) && is_sorted (y ∷ ys)

  length-insert_by : (x : A) (ys : List A) → length (insert_by x ys) ≡ suc (length ys)
  unfolding insert_by
  length-insert_by x [] = refl
  length-insert_by x (y ∷ ys) = ground (arith, length-insert_by x ys)

  pub length-sort_by : (xs : List A) → length (sort_by xs) ≡ length xs
  unfolding sort_by
  length-sort_by [] = refl
  length-sort_by (x ∷ xs) = length-insert_by x (sort_by xs) ∙ ap suc (length-sort_by xs)

  insert_by-sorted : (x : A) (ys : List A) → is_sorted ys ≡ true → is_sorted (insert_by x ys) ≡ true
  unfolding insert_by is_sorted
  insert_by-sorted x [] h = refl
  insert_by-sorted x (y ∷ []) h = ground (arith, bytes_lt-asym (key y) (key x))
  insert_by-sorted x (y ∷ z ∷ zs) h =
      ground (arith, bytes_lt-asym (key y) (key x), insert_by-sorted x (z ∷ zs))

  pub sort_by-sorted : (xs : List A) → is_sorted (sort_by xs) ≡ true
  unfolding sort_by is_sorted
  sort_by-sorted [] = refl
  sort_by-sorted (x ∷ xs) = insert_by-sorted x (sort_by xs) (sort_by-sorted xs)

  insert_by-first : (x : A) (ys : List A) → is_sorted (x ∷ ys) ≡ true → insert_by x ys ≡ x ∷ ys
  unfolding insert_by is_sorted
  insert_by-first x [] h = refl
  insert_by-first x (y ∷ ys) h = ground arith

  is_sorted-tail : (x : A) (ys : List A) → is_sorted (x ∷ ys) ≡ true → is_sorted ys ≡ true
  unfolding is_sorted
  is_sorted-tail x [] h = refl
  is_sorted-tail x (y ∷ ys) h = ground arith

  sort_by-fixed : (xs : List A) → is_sorted xs ≡ true → sort_by xs ≡ xs
  unfolding sort_by
  sort_by-fixed [] h = refl
  sort_by-fixed (x ∷ xs) h =
      ap (insert_by x) (sort_by-fixed xs (is_sorted-tail x xs h)) ∙ insert_by-first x xs h

  pub sort_by_twice : (xs : List A) → sort_by (sort_by xs) ≡ sort_by xs
  sort_by_twice xs = sort_by-fixed (sort_by xs) (sort_by-sorted xs)

  any-insert_by : (p : A → Bool) (x : A) (ys : List A) → any p (insert_by x ys) ≡ any p (x ∷ ys)
  unfolding insert_by
  any-insert_by p x [] = refl
  any-insert_by p x (y ∷ ys) = ground (arith, any-insert_by p x ys)

  -- Sorting keeps the elements.
  pub any-sort_by : (p : A → Bool) (xs : List A) → any p (sort_by xs) ≡ any p xs
  unfolding sort_by
  any-sort_by p [] = refl
  any-sort_by p (x ∷ xs) =
      any-insert_by p x (sort_by xs) ∙ ap (λ rest. p x || rest) (any-sort_by p xs)

-- ===== src/Upload/Progress.antt =====
-- `mergeUploadedChunks` of frontend/src/store/modules/knowledge-base/index.ts, and what the test
-- `uploadedChunks.length === totalChunks` says.
use smart_copilot.Common.{
  ℕ, suc, ◌+◌, ◌≤◌, ◌<◌, ◌≡◌, ◌≢◌, refl, sym, ◌∙◌, List, [], ◌∷◌, ◌++◌, arith, length, Bool, true,
  false, not, ◌&&◌, ◌||◌, leb, eqb, eqb_iff, Bool-cases, inl, inr, filter, All, All-mono,
}
use smart_copilot.Common.Sort.{sort, insert}

-- `xs.includes(x)` on numbers
abbrev pub has : List ℕ → ℕ → Bool
has [] x = false
has (y ∷ ys) x = eqb y x || has ys x

-- `Array.from(new Set(xs))`: each element once, where it stands first.
unfoldable pub unique : List ℕ → List ℕ
unique [] = []
unique (x ∷ xs) = x ∷ filter (λ y. not (eqb y x)) (unique xs)

abbrev by_value : ℕ → ℕ
by_value n = n

unfoldable pub merge_uploaded_chunks : List ℕ → List ℕ → List ℕ
merge_uploaded_chunks current latest = sort by_value (unique (current ++ latest))

-- Every element is below those behind it.
abbrev pub IsIncreasing : List ℕ → Type 0
IsIncreasing [] = Unit
IsIncreasing (x ∷ xs) = All (λ y. x < y) xs × IsIncreasing xs

abbrev pub distinct_numbers : List ℕ → Bool
distinct_numbers [] = true
distinct_numbers (x ∷ xs) = not (has xs x) && distinct_numbers xs

has-filter : (p : ℕ → Bool) (xs : List ℕ) (x : ℕ) → has (filter p xs) x ≡ (has xs x && p x)
has-filter p [] x = refl
has-filter p (y ∷ ys) x = elim (Bool-cases (eqb y x)) [
  | inl same ↦ rw ((eqb_iff y x).0 same) (ground (arith, has-filter p ys x))
  | inr other ↦ ground (arith, has-filter p ys x)
]

distinct-filter :
    (p : ℕ → Bool) (xs : List ℕ)
    → distinct_numbers xs ≡ true
    → distinct_numbers (filter p xs) ≡ true
distinct-filter p [] h = refl
distinct-filter p (x ∷ xs) h = ground (arith, distinct-filter p xs, has-filter p xs x)

unique-distinct : (xs : List ℕ) → distinct_numbers (unique xs) ≡ true
unfolding unique
unique-distinct [] = refl
unique-distinct (x ∷ xs) = ground (
  arith,
  distinct-filter (λ y. not (eqb y x)) (unique xs),
  unique-distinct xs,
  has-filter (λ y. not (eqb y x)) (unique xs) x,
)

has-unique : (xs : List ℕ) (x : ℕ) → has (unique xs) x ≡ has xs x
unfolding unique
has-unique [] x = refl
has-unique (y ∷ ys) x =
    ground (arith, has-filter (λ z. not (eqb z y)) (unique ys) x, has-unique ys x)

has-insert : (x : ℕ) (ys : List ℕ) (z : ℕ) → has (insert by_value x ys) z ≡ has (x ∷ ys) z
unfolding insert
has-insert x [] z = refl
has-insert x (y ∷ ys) z = ground (arith, has-insert x ys z)

has-sort : (xs : List ℕ) (z : ℕ) → has (sort by_value xs) z ≡ has xs z
unfolding sort
has-sort [] z = refl
has-sort (x ∷ xs) z = ground (arith, has-insert x (sort by_value xs) z, has-sort xs z)

has-append : (xs ys : List ℕ) (z : ℕ) → has (xs ++ ys) z ≡ (has xs z || has ys z)
has-append [] ys z = refl
has-append (x ∷ xs) ys z = ground (arith, has-append xs ys z)

-- The merged chunks are those of either list.
pub has-merge_uploaded_chunks :
    (current latest : List ℕ) (i : ℕ)
    → has (merge_uploaded_chunks current latest) i ≡ (has current i || has latest i)
unfolding merge_uploaded_chunks
has-merge_uploaded_chunks current latest i =
    has-sort (unique (current ++ latest)) i
    ∙ has-unique (current ++ latest) i
    ∙ has-append current latest i

All-insert :
    (n x : ℕ) (ys : List ℕ) → n < x → All (λ y. n < y) ys → All (λ y. n < y) (insert by_value x ys)
unfolding insert
All-insert n x [] h k = (h, tt)
All-insert n x (y ∷ ys) h (k, ks) = elim (Bool-cases (leb x y)) [
  | inl le ↦ rw le (h, (k, ks))
  | inr gt ↦ rw gt (k, All-insert n x ys h ks)
]

insert-IsIncreasing :
    (x : ℕ) (ys : List ℕ) → has ys x ≡ false → IsIncreasing ys → IsIncreasing (insert by_value x ys)
unfolding insert
insert-IsIncreasing x [] a h = (tt, tt)
insert-IsIncreasing x (y ∷ ys) a (h, hs) = elim (Bool-cases (leb x y)) [
  | inl le ↦
      let below : x < y = ground arith in
      rw le ((below, All-mono _ _ ys (λ z k. omega arith) h), (h, hs))
  | inr gt ↦ rw gt (All-insert y x ys (ground arith) h, insert-IsIncreasing x ys (ground arith) hs)
]

sort-IsIncreasing : (xs : List ℕ) → distinct_numbers xs ≡ true → IsIncreasing (sort by_value xs)
unfolding sort
sort-IsIncreasing [] h = tt
sort-IsIncreasing (x ∷ xs) h =
    insert-IsIncreasing x (sort by_value xs) (ground (arith, has-sort xs x))
      (sort-IsIncreasing xs (ground arith))

-- They stand in increasing order, each once.
pub merge_uploaded_chunks-IsIncreasing :
    (current latest : List ℕ) → IsIncreasing (merge_uploaded_chunks current latest)
unfolding merge_uploaded_chunks
merge_uploaded_chunks-IsIncreasing current latest =
    sort-IsIncreasing (unique (current ++ latest)) (unique-distinct (current ++ latest))

-- An increasing list between two bounds is not longer than what is between them.
length-le :
    (lo hi : ℕ) (xs : List ℕ)
    → IsIncreasing xs
    → All (λ x. lo ≤ x) xs
    → All (λ x. x < hi) xs
    → lo ≤ hi
    → length xs + lo ≤ hi
length-le lo hi [] h l u o = omega arith
length-le lo hi (x ∷ xs) (h, hs) (l, ls) (u, us) o =
    omega (arith, length-le (suc x) hi xs hs h us u)

-- If it is as long as that, it holds every number between them.
has_full :
    (lo : ℕ) (xs : List ℕ) (i : ℕ)
    → IsIncreasing xs
    → All (λ x. lo ≤ x) xs
    → All (λ x. x < lo + length xs) xs
    → lo ≤ i
    → i < lo + length xs
    → has xs i ≡ true
has_full lo [] i h l u a b = absurd (omega arith)
has_full lo (x ∷ xs) i (h, hs) (l, ls) (u, us) a b =
    let first : x ≡ lo = omega (arith, length-le (suc x) (lo + suc (length xs)) xs hs h us u) in
    elim (Bool-cases (eqb x i)) [
      | inl here ↦ rw here refl
      | inr other ↦
          let later : i ≢ x = λ e. ground (arith, e) in
          rw other (
            has_full (suc lo) xs i hs (All-mono _ _ xs (λ y k. omega arith) h)
              (All-mono _ _ xs (λ y k. omega arith) us) (omega arith) (omega arith))
    ]

-- Where the merged chunks are below the number of chunks and as many as there are, every chunk was
-- uploaded.
pub merge_uploaded_chunks_full :
    (current latest : List ℕ) (total : ℕ)
    → All (λ x. x < total) (merge_uploaded_chunks current latest)
    → length (merge_uploaded_chunks current latest) ≡ total
    → (i : ℕ) → i < total
    → (has current i || has latest i) ≡ true
merge_uploaded_chunks_full current latest total h k i l =
    let merged = merge_uploaded_chunks current latest in
    sym (has-merge_uploaded_chunks current latest i)
    ∙ has_full 0 merged i (merge_uploaded_chunks-IsIncreasing current latest)
        (All-mono _ _ merged (λ x p. omega arith) h) (All-mono _ _ merged (λ x p. omega arith) h)
        (omega arith) (omega arith)

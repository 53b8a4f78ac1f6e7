-- ===== src/Common/Sort.antt =====
-- `xs.sort((a, b) => key(a) - key(b))`. The language's sort is stable, so its result is that of an
-- insertion that puts an element before the first one whose key is not smaller.
use Prim.Native.Nat.{ℕ, ◌≤◌}
use mathlib.Core.Path.{◌≡◌, refl, ◌∙◌}
use mathlib.Core.Bool.{Bool-set, Bool, true, false, not}
use mathlib.Core.Logic.{inl, inr, ∥∥₁_elim}
use mathlib.Core.List.{List, [], ◌∷◌, ◌++◌, map, Perm, Permᴰ, perm_middle}
use mathlib.Core.List.Perm
use Prim.Native.String.{String}
use text.Mathlib.TextEquality.{eq_iff}
use native.Mathlib.Omega.{arith}
use smart_copilot.Common.Tests.{leb, leb→le, not-leb→lt, eqb, Bool-cases, if◌then◌else◌}
use smart_copilot.Common.Lists.{All, filter, any, all, includes, distinct}

module _ {ℓ} {A : Type ℓ} (key : A → ℕ) where
  unfoldable pub insert : A → List A → List A
  insert x [] = x ∷ []
  insert x (y ∷ ys) = let rest = insert x ys in if leb (key x) (key y) then x ∷ y ∷ ys else y ∷ rest

  unfoldable pub sort : List A → List A
  unfolding insert
  sort [] = []
  sort (x ∷ xs) = insert x (sort xs)

  -- Every element is at most those behind it.
  abbrev pub IsSorted : List A → Type 0
  IsSorted [] = Unit
  IsSorted (x ∷ xs) = All (λ y. key x ≤ key y) xs × IsSorted xs

  insert-perm : (x : A) (ys : List A) → Perm (insert x ys) (x ∷ ys)
  unfolding insert
  insert-perm x [] = Perm.refl _
  insert-perm x (y ∷ ys) = elim (Bool-cases (leb (key x) (key y))) [
    | inl le ↦ rw le (Perm.refl _)
    | inr gt ↦ rw gt (Perm.trans (Perm.cons y (insert-perm x ys)) (Perm.swap x y ys))
  ]

  pub sort-perm : (xs : List A) → Perm (sort xs) xs
  unfolding sort
  sort-perm [] = Perm.refl _
  sort-perm (x ∷ xs) = Perm.trans (insert-perm x (sort xs)) (Perm.cons x (sort-perm xs))

  All-le_trans : (n m : ℕ) (xs : List A) → n ≤ m → All (λ y. m ≤ key y) xs → All (λ y. n ≤ key y) xs
  All-le_trans n m [] h k = tt
  All-le_trans n m (x ∷ xs) h (k, ks) = (omega arith, All-le_trans n m xs h ks)

  All-insert : (P : A → Type 0) (x : A) (ys : List A) → P x → All P ys → All P (insert x ys)
  unfolding insert
  All-insert P x [] p ps = (p, tt)
  All-insert P x (y ∷ ys) p (q, qs) = elim (Bool-cases (leb (key x) (key y))) [
    | inl le ↦ rw le (p, (q, qs))
    | inr gt ↦ rw gt (q, All-insert P x ys p qs)
  ]

  insert-IsSorted : (x : A) (ys : List A) → IsSorted ys → IsSorted (insert x ys)
  unfolding insert
  insert-IsSorted x [] h = (tt, tt)
  insert-IsSorted x (y ∷ ys) (h, hs) = elim (Bool-cases (leb (key x) (key y))) [
    | inl le ↦ rw le ((leb→le _ _ le, All-le_trans (key x) (key y) ys (leb→le _ _ le) h), (h, hs))
    | inr gt ↦ rw gt (
      All-insert (λ z. key y ≤ key z) x ys (omega (arith, not-leb→lt _ _ gt)) h,
      insert-IsSorted x ys hs,
    )
  ]

  pub sort-IsSorted : (xs : List A) → IsSorted (sort xs)
  unfolding sort
  sort-IsSorted [] = tt
  sort-IsSorted (x ∷ xs) = insert-IsSorted x (sort xs) (sort-IsSorted xs)

  -- Among the elements with one key the sort keeps the order: it is stable.
  filter-insert :
      (k : ℕ) (x : A) (ys : List A)
      → filter (λ y. eqb (key y) k) (insert x ys) ≡ filter (λ y. eqb (key y) k) (x ∷ ys)
  unfolding insert
  filter-insert k x [] = refl
  filter-insert k x (y ∷ ys) = ground (arith, filter-insert k x ys)

  pub sort_stable :
      (k : ℕ) (xs : List A) → filter (λ y. eqb (key y) k) (sort xs) ≡ filter (λ y. eqb (key y) k) xs
  unfolding sort
  sort_stable k [] = refl
  sort_stable k (x ∷ xs) = ground (arith, filter-insert k x (sort xs), sort_stable k xs)

  -- A test holds of some, or of all, elements before the sort exactly when it does after it.
  any-insert : (p : A → Bool) (x : A) (ys : List A) → any p (insert x ys) ≡ any p (x ∷ ys)
  unfolding insert
  any-insert p x [] = refl
  any-insert p x (y ∷ ys) = ground (arith, any-insert p x ys)

  pub any-sort : (p : A → Bool) (xs : List A) → any p (sort xs) ≡ any p xs
  unfolding sort
  any-sort p [] = refl
  any-sort p (x ∷ xs) = ground (arith, any-insert p x (sort xs), any-sort p xs)

  all-insert : (p : A → Bool) (x : A) (ys : List A) → all p (insert x ys) ≡ all p (x ∷ ys)
  unfolding insert
  all-insert p x [] = refl
  all-insert p x (y ∷ ys) = ground (arith, all-insert p x ys)

  pub all-sort : (p : A → Bool) (xs : List A) → all p (sort xs) ≡ all p xs
  unfolding sort
  all-sort p [] = refl
  all-sort p (x ∷ xs) = ground (arith, all-insert p x (sort xs), all-sort p xs)

-- The elements that pass a test and those that do not are together all elements.
pub partition-perm {ℓ} :
    {A : Type ℓ} (p : A → Bool) (xs : List A) → Perm (filter p xs ++ filter (λ x. not (p x)) xs) xs
partition-perm p [] = Perm.refl _
partition-perm p (x ∷ xs) = elim (Bool-cases (p x)) [
  | inl passes ↦ rw passes (Perm.cons x (partition-perm p xs))
  | inr fails ↦ rw fails (
      Perm.trans (perm_middle (filter p xs) (filter (λ x. not (p x)) xs))
        (Perm.cons x (partition-perm p xs)))
]

includes-permᴰ : {xs ys : List String} (x : String) → Permᴰ xs ys → includes xs x ≡ includes ys x
includes-permᴰ x Permᴰ.nil = refl
includes-permᴰ x (Permᴰ.cons {a} {b} e p) = rw e (ground (arith, includes-permᴰ x p))
includes-permᴰ x (Permᴰ.swap {a} {b} {l} e e') = rw (e, e') (ground arith)
includes-permᴰ x (Permᴰ.trans p q) = includes-permᴰ x p ∙ includes-permᴰ x q

distinct-permᴰ : {xs ys : List String} → Permᴰ xs ys → distinct xs ≡ distinct ys
distinct-permᴰ Permᴰ.nil = refl
distinct-permᴰ (Permᴰ.cons {b} e p) = rw e (ground (arith, includes-permᴰ b p, distinct-permᴰ p))
distinct-permᴰ (Permᴰ.swap {a' = b} {b' = a} {l} e e') =
    rw (e, e') (ground (arith, eq_iff a b, eq_iff b a))
distinct-permᴰ (Permᴰ.trans p q) = distinct-permᴰ p ∙ distinct-permᴰ q

-- Both are properties of what a list holds, whatever the order.
pub includes-perm : {xs ys : List String} (x : String) → Perm xs ys → includes xs x ≡ includes ys x
includes-perm x p = ∥∥₁_elim p (Bool-set _ _) (includes-permᴰ x)

pub distinct-perm : {xs ys : List String} → Perm xs ys → distinct xs ≡ distinct ys
distinct-perm p = ∥∥₁_elim p (Bool-set _ _) distinct-permᴰ

module _ {ℓ} {A : Type ℓ} (p : A → Bool) (name : A → String) where
  pub includes-map-filter :
      (xs : List A) (x : String)
      → includes (map name xs) x ≡ false
      → includes (map name (filter p xs)) x ≡ false
  includes-map-filter [] x h = refl
  includes-map-filter (y ∷ xs) x h = ground (arith, includes-map-filter xs x)

  -- A part of a list without repetition has none.
  pub distinct-map-filter :
      (xs : List A) → distinct (map name xs) ≡ true → distinct (map name (filter p xs)) ≡ true
  distinct-map-filter [] h = refl
  distinct-map-filter (x ∷ xs) h =
      ground (arith, distinct-map-filter xs, includes-map-filter xs (name x))

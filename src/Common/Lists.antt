-- ===== src/Common/Lists.antt =====
-- Lists measured by native numbers and tested by Booleans, under the library's names.
use Prim.Native.Nat.{ℕ, zero, suc, ◌+◌}
use Prim.Native.String.{String}
use mathlib.Core.Path.{◌≡◌, refl, ap}
use mathlib.Core.Bool.{Bool, true, false, not, ◌&&◌, ◌||◌}
use mathlib.Core.List.{List, [], ◌∷◌, ◌++◌, map}
use mathlib.Core.Option.{Option, none, some}
use native.Mathlib.Omega.{arith}
use text.Mathlib.Text.{◌==◌}
use smart_copilot.Common.Tests.{if◌then◌else◌}

module _ {ℓ} {A : Type ℓ} where
  abbrev pub length : List A → ℕ
  length [] = 0
  length (x ∷ xs) = suc (length xs)

  abbrev pub get_elem? : List A → ℕ → Option A
  get_elem? [] i = none
  get_elem? (x ∷ xs) zero = some x
  get_elem? (x ∷ xs) (suc i) = get_elem? xs i

  abbrev pub take : ℕ → List A → List A
  take zero xs = []
  take (suc n) [] = []
  take (suc n) (x ∷ xs) = x ∷ take n xs

  abbrev pub drop : ℕ → List A → List A
  drop zero xs = xs
  drop (suc n) [] = []
  drop (suc n) (x ∷ xs) = drop n xs

  abbrev pub get_last? : List A → Option A
  get_last? [] = none
  get_last? (x ∷ []) = some x
  get_last? (x ∷ y ∷ xs) = get_last? (y ∷ xs)

  -- `xs.filter(p)`, `xs.some(p)`, `xs.every(p)` and `xs.find(p)`
  abbrev pub filter : (A → Bool) → List A → List A
  filter p [] = []
  filter p (x ∷ xs) = let rest = filter p xs in if p x then x ∷ rest else rest

  abbrev pub any : (A → Bool) → List A → Bool
  any p [] = false
  any p (x ∷ xs) = p x || any p xs

  abbrev pub all : (A → Bool) → List A → Bool
  all p [] = true
  all p (x ∷ xs) = p x && all p xs

  abbrev pub find? : (A → Bool) → List A → Option A
  find? p [] = none
  find? p (x ∷ xs) = if p x then some x else find? p xs

  -- `xs.findIndex(p)`; -1 is `none`
  abbrev pub find_idx? : (A → Bool) → List A → Option ℕ
  find_idx? p [] = none
  find_idx? p (x ∷ xs) =
      let later = find_idx? p xs in
      if p x then some 0 else elim later [ none ↦ none | some i ↦ some (suc i) ]

  -- `xs.splice(i, 1)`
  abbrev pub erase_idx : List A → ℕ → List A
  erase_idx [] i = []
  erase_idx (x ∷ xs) zero = xs
  erase_idx (x ∷ xs) (suc i) = x ∷ erase_idx xs i

  abbrev pub All {κ} : (A → Type κ) → List A → Type κ
  All P [] = Unit
  All P (x ∷ xs) = P x × All P xs

abbrev pub flat_map {ℓ κ} : {A : Type ℓ} {B : Type κ} → (A → List B) → List A → List B
flat_map f [] = []
flat_map f (x ∷ xs) = f x ++ flat_map f xs

-- `xs.includes(x)` on texts
abbrev pub includes : List String → String → Bool
includes [] x = false
includes (y ∷ ys) x = y == x || includes ys x

-- `xs.indexOf(x)` on texts; -1 is `none`
abbrev pub index_of : List String → String → Option ℕ
index_of xs x = find_idx? (λ y. y == x) xs

-- No text stands twice in the list.
abbrev pub distinct : List String → Bool
distinct [] = true
distinct (x ∷ xs) = not (includes xs x) && distinct xs

pub includes-append :
    (xs ys : List String) (x : String) → includes (xs ++ ys) x ≡ (includes xs x || includes ys x)
includes-append [] ys x = refl
includes-append (y ∷ xs) ys x = ground (arith, includes-append xs ys x)

pub length-append {ℓ} : {A : Type ℓ} (xs ys : List A) → length (xs ++ ys) ≡ length xs + length ys
length-append [] ys = omega arith
length-append (x ∷ xs) ys = omega (arith, length-append xs ys)

pub take-append-drop {ℓ} : {A : Type ℓ} (n : ℕ) (xs : List A) → take n xs ++ drop n xs ≡ xs
take-append-drop zero xs = refl
take-append-drop (suc n) [] = refl
take-append-drop (suc n) (x ∷ xs) = ap (◌∷◌ x) (take-append-drop n xs)

module _ {ℓ} {A : Type ℓ} (p : A → Bool) where
  pub filter-append : (xs ys : List A) → filter p (xs ++ ys) ≡ filter p xs ++ filter p ys
  filter-append [] ys = refl
  filter-append (x ∷ xs) ys = ground (arith, filter-append xs ys)

  pub filter-all : (xs : List A) → all p (filter p xs) ≡ true
  filter-all [] = refl
  filter-all (x ∷ xs) = ground (arith, filter-all xs)

  pub filter_of_all : (xs : List A) → all p xs ≡ true → filter p xs ≡ xs
  filter_of_all [] h = refl
  filter_of_all (x ∷ xs) h = ground (arith, filter_of_all xs)

  pub all-append : (xs ys : List A) → all p (xs ++ ys) ≡ (all p xs && all p ys)
  all-append [] ys = refl
  all-append (x ∷ xs) ys = ground (arith, all-append xs ys)

pub filter-filter {ℓ} :
    {A : Type ℓ} (p q : A → Bool) (xs : List A)
    → filter p (filter q xs) ≡ filter (λ x. q x && p x) xs
filter-filter p q [] = refl
filter-filter p q (x ∷ xs) = ground (arith, filter-filter p q xs)

pub filter-map {ℓ κ} :
    {A : Type ℓ} {B : Type κ} (p : B → Bool) (f : A → B) (xs : List A)
    → filter p (map f xs) ≡ map f (filter (λ x. p (f x)) xs)
filter-map p f [] = refl
filter-map p f (x ∷ xs) = ground (arith, filter-map p f xs)

-- The lists with one head that pass a test of every element.
pub filter-all-map_cons {ℓ} :
    {A : Type ℓ} (q : A → Bool) (a : A) (xss : List (List A))
    → filter (all q) (map (◌∷◌ a) xss) ≡ (if q a then map (◌∷◌ a) (filter (all q) xss) else [])
filter-all-map_cons q a [] = ground arith
filter-all-map_cons q a (xs ∷ xss) = ground (arith, filter-all-map_cons q a xss)

pub map-map_cons {ℓ κ} :
    {A : Type ℓ} {B : Type κ} (g : A → B) (a : A) (xss : List (List A))
    → map (map g) (map (◌∷◌ a) xss) ≡ map (◌∷◌ (g a)) (map (map g) xss)
map-map_cons g a [] = refl
map-map_cons g a (xs ∷ xss) = ap (◌∷◌ (g a ∷ map g xs)) (map-map_cons g a xss)

abbrev pub drop_last {ℓ} : {A : Type ℓ} → List A → List A
drop_last [] = []
drop_last (x ∷ []) = []
drop_last (x ∷ y ∷ xs) = x ∷ drop_last (y ∷ xs)

pub drop_last-concat {ℓ} : {A : Type ℓ} (xs : List A) (a : A) → drop_last (xs ++ a ∷ []) ≡ xs
drop_last-concat [] a = refl
drop_last-concat (x ∷ []) a = refl
drop_last-concat (x ∷ y ∷ xs) a = ap (◌∷◌ x) (drop_last-concat (y ∷ xs) a)

module _ {ℓ} {A : Type ℓ} (p : A → Bool) where
  pub find?-append :
      (xs ys : List A)
      → find? p (xs ++ ys) ≡ (elim (find? p xs) [ none ↦ find? p ys | some a ↦ some a ])
  find?-append [] ys = refl
  find?-append (x ∷ xs) ys = ground (arith, find?-append xs ys)

  pub find?-sound : (xs : List A) (a : A) → find? p xs ≡ some a → p a ≡ true
  find?-sound [] a h = cc
  find?-sound (x ∷ xs) a h = ground (arith, find?-sound xs a)

  pub any-append : (xs ys : List A) → any p (xs ++ ys) ≡ (any p xs || any p ys)
  any-append [] ys = refl
  any-append (x ∷ xs) ys = ground (arith, any-append xs ys)

-- The last element of a way has the key.
module _ {ℓ} {A : Type ℓ} (key : A → String) (target : String) where
  abbrev pub ends_at : List A → Bool
  ends_at [] = false
  ends_at (x ∷ []) = key x == target
  ends_at (x ∷ y ∷ ys) = ends_at (y ∷ ys)

  ends_at-cons : (x : A) (xs : List A) → (key x == target) ≡ false → ends_at (x ∷ xs) ≡ ends_at xs
  ends_at-cons x [] h = h
  ends_at-cons x (y ∷ ys) h = refl

  pub find?-map_cons :
      (x : A) (xss : List (List A))
      → (key x == target) ≡ false
      → find? ends_at (map (◌∷◌ x) xss)
        ≡ (elim (find? ends_at xss) [ none ↦ none | some p ↦ some (x ∷ p) ])
  find?-map_cons x [] h = refl
  find?-map_cons x (xs ∷ xss) h = rw (ends_at-cons x xs h) (ground (arith, find?-map_cons x xss))

  pub any-map_cons :
      (x : A) (xss : List (List A))
      → (key x == target) ≡ false
      → any ends_at (map (◌∷◌ x) xss) ≡ any ends_at xss
  any-map_cons x [] h = refl
  any-map_cons x (xs ∷ xss) h = rw (ends_at-cons x xs h) (ground (arith, any-map_cons x xss))

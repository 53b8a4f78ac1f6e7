-- ===== src/Common/Members.antt =====
-- What holds of all members of a list, and lists of different texts.
use Prim.Native.Nat.{ℕ, zero, suc}
use Prim.Native.String.{String}
use mathlib.Core.Path.{◌≡◌, refl, ap}
use mathlib.Core.Bool.{Bool, true, false, ◌&&◌}
use mathlib.Core.List.{List, [], ◌∷◌, ◌++◌, map, map-append}
use native.Mathlib.Omega.{arith}
use text.Mathlib.Text.{◌==◌}
use text.Mathlib.TextEquality.{eq_iff}
use smart_copilot.Common.Lists.{take, drop, filter, All, includes, distinct, includes-append}

module _ {ℓ κ μ} {A : Type ℓ} (P : A → Type κ) (Q : A → Type μ) where
  pub All-mono : (xs : List A) → ((x : A) → P x → Q x) → All P xs → All Q xs
  All-mono [] f h = tt
  All-mono (x ∷ xs) f (h, hs) = (f x h, All-mono xs f hs)

module _ {ℓ κ} {A : Type ℓ} (P : A → Type κ) where
  pub All-take : (n : ℕ) (xs : List A) → All P xs → All P (take n xs)
  All-take zero xs h = tt
  All-take (suc n) [] h = tt
  All-take (suc n) (x ∷ xs) (h, hs) = (h, All-take n xs hs)

  pub All-drop : (n : ℕ) (xs : List A) → All P xs → All P (drop n xs)
  All-drop zero xs h = h
  All-drop (suc n) [] h = tt
  All-drop (suc n) (x ∷ xs) (h, hs) = All-drop n xs hs

-- Tests that agree on a list filter it alike.
pub filter_congr {ℓ} :
    {A : Type ℓ} (p q : A → Bool) (xs : List A)
    → All (λ x. p x ≡ q x) xs
    → filter p xs ≡ filter q xs
filter_congr p q [] h = refl
filter_congr p q (x ∷ xs) (h, hs) = rw (h, filter_congr p q xs hs)

pub drop-map {ℓ κ} :
    {A : Type ℓ} {B : Type κ} (n : ℕ) (f : A → B) (xs : List A)
    → drop n (map f xs) ≡ map f (drop n xs)
drop-map zero f xs = refl
drop-map (suc n) f [] = refl
drop-map (suc n) f (x ∷ xs) = drop-map n f xs

pub take-map {ℓ κ} :
    {A : Type ℓ} {B : Type κ} (n : ℕ) (f : A → B) (xs : List A)
    → take n (map f xs) ≡ map f (take n xs)
take-map zero f xs = refl
take-map (suc n) f [] = refl
take-map (suc n) f (x ∷ xs) = ap (◌∷◌ (f x)) (take-map n f xs)

pub includes-filter :
    (q : String → Bool) (xs : List String) (x : String)
    → includes (filter q xs) x ≡ (includes xs x && q x)
includes-filter q [] x = refl
includes-filter q (y ∷ ys) x = ground (arith, eq_iff y x, includes-filter q ys x)

module _ {ℓ κ μ} {A : Type ℓ} (P : A → Type κ) (Q : A → Type μ) where
  pub All-both : (xs : List A) → All P xs → All Q xs → All (λ x. P x × Q x) xs
  All-both [] h k = tt
  All-both (x ∷ xs) (h, hs) (k, ks) = ((h, k), All-both xs hs ks)

-- Elements with names, such as tabs with ids.
module _ {ℓ} {A : Type ℓ} (name : A → String) where
  pub All-includes : (xs : List A) → All (λ x. includes (map name xs) (name x) ≡ true) xs
  All-includes [] = tt
  All-includes (x ∷ xs) = (
    ground (arith, eq_iff (name x) (name x)),
    All-mono _ _ xs (λ y h. ground (arith, h)) (All-includes xs),
  )

  pub All-ne :
      (a : String) (xs : List A)
      → includes (map name xs) a ≡ false
      → All (λ x. (name x == a) ≡ false) xs
  All-ne a [] h = tt
  All-ne a (x ∷ xs) h = (ground arith, All-ne a xs (ground arith))

  -- In a list without repetition no name of the front stands in the back.
  pub All-apart :
      (xs ys : List A)
      → distinct (map name (xs ++ ys)) ≡ true
      → All (λ x. includes (map name ys) (name x) ≡ false) xs
  All-apart [] ys h = tt
  All-apart (x ∷ xs) ys h = (
    ground (arith, map-append name xs ys, includes-append (map name xs) (map name ys) (name x)),
    All-apart xs ys (ground arith),
  )

  includes-filter_of :
      (p : A → Bool) (xs : List A) (a : String)
      → includes (map name xs) a ≡ false
      → includes (map name (filter p xs)) a ≡ false
  includes-filter_of p [] a h = refl
  includes-filter_of p (x ∷ xs) a h = ground (arith, includes-filter_of p xs a)

  -- There, a name belongs to an element that passes the test only if its own element does.
  pub All-includes-filter :
      (p : A → Bool) (xs : List A)
      → distinct (map name xs) ≡ true
      → All (λ x. includes (map name (filter p xs)) (name x) ≡ p x) xs
  All-includes-filter p [] h = tt
  All-includes-filter p (x ∷ xs) h = (
    ground (arith, eq_iff (name x) (name x), includes-filter_of p xs (name x)),
    All-mono _ _ xs
        (λ y k. ground (arith, k.0, k.1, eq_iff (name x) (name y), eq_iff (name y) (name x)))
        (All-both _ _ xs (All-includes-filter p xs (ground arith))
          (All-ne (name x) xs (ground arith))),
  )

module _ {ℓ κ} {A : Type ℓ} (P : A → Type κ) where
  pub All-append_left : (xs ys : List A) → All P (xs ++ ys) → All P xs
  All-append_left [] ys h = tt
  All-append_left (x ∷ xs) ys (h, hs) = (h, All-append_left xs ys hs)

  pub All-append_right : (xs ys : List A) → All P (xs ++ ys) → All P ys
  All-append_right [] ys h = h
  All-append_right (x ∷ xs) ys (h, hs) = All-append_right xs ys hs

pub filter_of_All {ℓ} :
    {A : Type ℓ} (p : A → Bool) (xs : List A) → All (λ x. p x ≡ true) xs → filter p xs ≡ xs
filter_of_All p [] h = refl
filter_of_All p (x ∷ xs) (h, hs) = rw (h, filter_of_All p xs hs)

pub distinct-concat :
    (xs : List String) (x : String)
    → distinct xs ≡ true
    → includes xs x ≡ false
    → distinct (xs ++ x ∷ []) ≡ true
distinct-concat [] x h k = refl
distinct-concat (y ∷ xs) x h k =
    ground (arith, distinct-concat xs x, includes-append xs (x ∷ []) y, eq_iff x y, eq_iff y x)

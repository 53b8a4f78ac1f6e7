-- ===== src/Chat/LastMatch.antt =====
-- The last element that passes a test, and the change of it: the list lemmas behind
-- `findAssistantIndexByGenerationId` of frontend/src/store/modules/chat/index.ts.
use smart_copilot.Common.{
  ℕ, suc, zero, ◌≡◌, refl, ap, sym, Bool, true, not, Option, none, some, List, [], ◌∷◌, ◌++◌, arith,
  is_some, filter, append-nil, length,
}
use mathlib.Core.Option.{map}
use smart_copilot.Chat.Snapshot.{find_last_idx?, get_last_such?, modify_at}

module _ {ℓ} {A : Type ℓ} (p : A → Bool) where
  pub find_last_idx?-concat :
      (xs : List A) (q a : A)
      → p a ≡ true
      → find_last_idx? p (xs ++ q ∷ a ∷ []) ≡ some (suc (length xs))
  unfolding find_last_idx?
  find_last_idx?-concat [] q a h = ground arith
  find_last_idx?-concat (x ∷ xs) q a h = rw (find_last_idx?-concat xs q a h) refl

  pub get_last-none : (xs : List A) → find_last_idx? p xs ≡ none → get_last_such? p xs ≡ none
  unfolding find_last_idx? get_last_such?
  get_last-none [] h = refl
  get_last-none (x ∷ xs) h = ground (arith, get_last-none xs)

  pub get_last-some :
      (xs : List A) (i : ℕ) → find_last_idx? p xs ≡ some i → is_some (get_last_such? p xs) ≡ true
  unfolding find_last_idx? get_last_such?
  get_last-some [] i h = cc
  get_last-some (x ∷ xs) zero h = ground (arith, get_last-none xs)
  get_last-some (x ∷ xs) (suc i) h = ground (arith, get_last-some xs i)

  pub get_last-concat :
      (xs : List A) (q a : A) → p a ≡ true → get_last_such? p (xs ++ q ∷ a ∷ []) ≡ some a
  unfolding get_last_such?
  get_last-concat [] q a h = ground arith
  get_last-concat (x ∷ xs) q a h = rw (get_last-concat xs q a h) refl

  module _ (f : A → A) (keeps : (x : A) → p x ≡ true → p (f x) ≡ true) where
    pub find_last_idx?-modify :
        (xs : List A) (i : ℕ)
        → find_last_idx? p xs ≡ some i
        → find_last_idx? p (modify_at f i xs) ≡ some i
    unfolding find_last_idx? modify_at
    find_last_idx?-modify [] i h = h
    find_last_idx?-modify (x ∷ xs) zero h = ground (arith, keeps x)
    find_last_idx?-modify (x ∷ xs) (suc i) h = ground (arith, find_last_idx?-modify xs i)

    pub filter-modify :
        (xs : List A) (i : ℕ)
        → find_last_idx? p xs ≡ some i
        → filter (λ x. not (p x)) (modify_at f i xs) ≡ filter (λ x. not (p x)) xs
    unfolding find_last_idx? modify_at
    filter-modify [] i h = refl
    filter-modify (x ∷ xs) zero h = ground (arith, keeps x)
    filter-modify (x ∷ xs) (suc i) h = ground (arith, filter-modify xs i)

    pub get_last-modify :
        (xs : List A) (i : ℕ)
        → find_last_idx? p xs ≡ some i
        → get_last_such? p (modify_at f i xs) ≡ map f (get_last_such? p xs)
    unfolding find_last_idx? modify_at get_last_such?
    get_last-modify [] i h = refl
    get_last-modify (x ∷ xs) zero h = ground (arith, keeps x, get_last-none xs)
    get_last-modify (x ∷ xs) (suc i) h = ground (arith, get_last-modify xs i, get_last-some xs i)

pub map-is_some {ℓ} :
    {A : Type ℓ} (f : A → A) (b : A) (o : Option A)
    → is_some o ≡ true
    → map f o ≡ elim o [ none ↦ some b | some a ↦ some (f a) ]
map-is_some f b none h = cc
map-is_some f b (some a) h = refl

pub append-is_some {ℓ} :
    {A B : Type ℓ} (xs ys : List B) (o : Option A)
    → is_some o ≡ true
    → xs ≡ xs ++ (elim o [ none ↦ ys | some a ↦ [] ])
append-is_some xs ys none h = cc
append-is_some xs ys (some a) h = sym (append-nil xs)

pub modify_at-concat {ℓ} :
    {A : Type ℓ} (f : A → A) (xs : List A) (q a : A)
    → modify_at f (suc (length xs)) (xs ++ q ∷ a ∷ []) ≡ xs ++ q ∷ f a ∷ []
unfolding modify_at
modify_at-concat f [] q a = refl
modify_at-concat f (x ∷ xs) q a = ap (◌∷◌ x) (modify_at-concat f xs q a)

pub modify_at-modify_at {ℓ} :
    {A : Type ℓ} (f : A → A)
    → ((x : A) → f (f x) ≡ f x)
    → (i : ℕ) (xs : List A) → modify_at f i (modify_at f i xs) ≡ modify_at f i xs
unfolding modify_at
modify_at-modify_at f h i [] = refl
modify_at-modify_at f h zero (x ∷ xs) = ap (λ y. y ∷ xs) (h x)
modify_at-modify_at f h (suc i) (x ∷ xs) = ap (◌∷◌ x) (modify_at-modify_at f h i xs)

-- ===== src/Common/Tree.antt =====
-- Trees whose nodes have an optional list of children, as routes and menus have. A leaf is a node
-- with no `children`; a branch has them, perhaps an empty list.
use mathlib.Core.Path.{◌≡◌, refl, ap}
use mathlib.Core.List.{List, [], ◌∷◌, ◌++◌, map, append_assoc}

mutual
  pub data Tree {ℓ} (A : Type ℓ) : Type ℓ where
    leaf : A → Tree A
    branch : A → Forest A → Tree A

  pub data Forest {ℓ} (A : Type ℓ) : Type ℓ where
    nil : Forest A
    cons : Tree A → Forest A → Forest A

module _ {ℓ} {A : Type ℓ} where
  abbrev pub root : Tree A → A
  root (leaf a) = a
  root (branch a f) = a

  abbrev pub trees : Forest A → List (Tree A)
  trees nil = []
  trees (cons t f) = t ∷ trees f

  abbrev pub forest : List (Tree A) → Forest A
  forest [] = nil
  forest (t ∷ ts) = cons t (forest ts)

  pub trees-forest : (ts : List (Tree A)) → trees (forest ts) ≡ ts
  trees-forest [] = refl
  trees-forest (t ∷ ts) = ap (◌∷◌ t) (trees-forest ts)

  -- The ways from a root to a node, in the order of a walk that visits a node before its children.
  unfoldable mutual
    pub tree_paths : Tree A → List (List A)
    tree_paths (leaf a) = (a ∷ []) ∷ []
    tree_paths (branch a f) = (a ∷ []) ∷ map (◌∷◌ a) (paths f)

    pub paths : Forest A → List (List A)
    paths nil = []
    paths (cons t f) = tree_paths t ++ paths f

  -- The ways from a root to a leaf.
  unfoldable mutual
    pub tree_chains : Tree A → List (List A)
    tree_chains (leaf a) = (a ∷ []) ∷ []
    tree_chains (branch a f) = map (◌∷◌ a) (chains f)

    pub chains : Forest A → List (List A)
    chains nil = []
    chains (cons t f) = tree_chains t ++ chains f

  -- The leaves, from left to right.
  unfoldable mutual
    pub tree_leaves : Tree A → List A
    tree_leaves (leaf a) = a ∷ []
    tree_leaves (branch a f) = leaves f

    pub leaves : Forest A → List A
    leaves nil = []
    leaves (cons t f) = tree_leaves t ++ leaves f

  -- No node has an empty list of children.
  unfoldable mutual
    pub IsPruned : Tree A → Type 0
    IsPruned (leaf a) = Unit
    IsPruned (branch a nil) = ⊥
    IsPruned (branch a (cons t f)) = IsPruned t × ArePruned f

    pub ArePruned : Forest A → Type 0
    ArePruned nil = Unit
    ArePruned (cons t f) = IsPruned t × ArePruned f

  pub chains-forest_append :
      (xs ys : List (Tree A))
      → chains (forest (xs ++ ys)) ≡ chains (forest xs) ++ chains (forest ys)
  unfolding chains
  chains-forest_append [] ys = refl
  chains-forest_append (x ∷ xs) ys = simp (chains-forest_append xs ys, append_assoc)

  pub ArePruned-forest_append :
      (xs ys : List (Tree A))
      → ArePruned (forest xs)
      → ArePruned (forest ys)
      → ArePruned (forest (xs ++ ys))
  unfolding ArePruned
  ArePruned-forest_append [] ys h k = k
  ArePruned-forest_append (x ∷ xs) ys (h, hs) k = (h, ArePruned-forest_append xs ys hs k)

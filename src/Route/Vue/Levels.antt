-- ===== src/Route/Vue/Levels.antt =====
-- The levels of the vue routes: frontend/src/router/elegant/transform.ts.
use smart_copilot.Common.{
  String, ◌≡◌, refl, ap, ap₂, ◌∙◌, Bool, true, false, not, ◌&&◌, Option, none, some, List, [], ◌∷◌,
  all, all-append, arith, if-false, if-both,
}
use smart_copilot.Common.Texts.{split}
use smart_copilot.Common.Tree.{Tree, Forest, leaf, branch, nil, cons, root, trees, trees-forest}
use smart_copilot.Route.Vue.{
  ElegantInfo, VueInfo, is_first_level_route, transform_leaf, with_children, component_of,
  single_level_route, single_with, plain_route, one, has_component, text_or_empty, get_layout,
  get_view?, first_part, second_part, transform_elegant_route_to_vue_route,
  transform_elegant_routes_to_vue_routes,
}

-- Routes below a root: no name is of the first level.
unfoldable mutual
  pub is_nested : Tree ElegantInfo → Bool
  is_nested (leaf r) = not (is_first_level_route r)
  is_nested (branch r f) = not (is_first_level_route r) && are_nested f

  pub are_nested : Forest ElegantInfo → Bool
  are_nested nil = true
  are_nested (cons t f) = is_nested t && are_nested f

abbrev pub is_leaf {ℓ} : {A : Type ℓ} → Tree A → Bool
is_leaf (leaf a) = true
is_leaf (branch a f) = false

abbrev pub has_two_levels {ℓ} : {A : Type ℓ} → Tree A → Bool
has_two_levels (leaf a) = true
has_two_levels (branch a f) = all is_leaf (trees f)

-- A root whose descendants are nested.
abbrev pub is_rooted : Tree ElegantInfo → Bool
is_rooted (leaf r) = true
is_rooted (branch r f) = are_nested f

eq_false_of : (b : Bool) → not b ≡ true → b ≡ false
eq_false_of false h = refl
eq_false_of true h = cc

nested-single : (a b : Bool) → not b ≡ true → a && b ≡ false
nested-single a b h = ground arith

pub and_left : (a b : Bool) → a && b ≡ true → a ≡ true
and_left a b h = ground arith

pub and_right : (a b : Bool) → a && b ≡ true → b ≡ true
and_right a b h = ground arith

module _ {C : Type 0} (layouts views : String → Option C) where
  abbrev flat : List (Tree (VueInfo C)) → Bool
  flat = all is_leaf

  abbrev two : List (Tree (VueInfo C)) → Bool
  two = all has_two_levels

  flat-plain_route :
      (r : ElegantInfo) (o : Option (Option C)) → flat (plain_route layouts views r o) ≡ true
  flat-plain_route r none = refl
  flat-plain_route r (some c) = refl

  leaf-flat :
      (r : ElegantInfo)
      → not (is_first_level_route r) ≡ true
      → flat (transform_leaf layouts views r) ≡ true
  unfolding transform_leaf
  leaf-flat r h =
      ap flat
        (if-false _ _ (nested-single (has_component r.info.component) (is_first_level_route r) h))
      ∙ flat-plain_route r (component_of layouts views r.info.component)

  two-single :
      (r : ElegantInfo) (layout view : Option C)
      → two (one (single_with layouts views r layout view)) ≡ true
  two-single r none view = refl
  two-single r (some layout) none = refl
  two-single r (some layout) (some view) = refl

  two-plain_route :
      (r : ElegantInfo) (o : Option (Option C)) → two (plain_route layouts views r o) ≡ true
  two-plain_route r none = refl
  two-plain_route r (some c) = refl

  leaf-two_levels : (r : ElegantInfo) → two (transform_leaf layouts views r) ≡ true
  unfolding transform_leaf single_level_route
  leaf-two_levels r =
      let parts = split 36 (text_or_empty r.info.component) in
      if-both two (has_component r.info.component && is_first_level_route r)
        (two-single r (get_layout layouts views (first_part parts))
          (get_view? layouts views (second_part parts)))
        (two-plain_route r (component_of layouts views r.info.component))

  children-flat :
      (r : ElegantInfo) (o : Option (Option C)) (first : String)
      (children : List (Tree (VueInfo C)))
      → not (is_first_level_route r) ≡ true
      → flat children ≡ true
      → flat (with_children layouts views r o first children) ≡ true
  children-flat r none first children h g = refl
  children-flat r (some c) first children h g =
      ap flat (if-false _ _ (eq_false_of (is_first_level_route r) h)) ∙ g

  two_of_flat : (children : List (Tree (VueInfo C))) → flat children ≡ true → two children ≡ true
  two_of_flat [] h = refl
  two_of_flat (leaf v ∷ children) h = two_of_flat children h
  two_of_flat (branch v f ∷ children) h = cc

  children-two :
      (r : ElegantInfo) (o : Option (Option C)) (first : String)
      (children : List (Tree (VueInfo C)))
      → flat children ≡ true
      → two (with_children layouts views r o first children) ≡ true
  children-two r none first children g = refl
  children-two r (some c) first children g =
      if-both two (is_first_level_route r)
        (ap (λ ts. all is_leaf ts && true) (trees-forest children) ∙ ap (λ b. b && true) g)
        (two_of_flat children g)

  mutual
    unfolding transform_elegant_route_to_vue_route is_nested

    nested-flat :
        (t : Tree ElegantInfo)
        → is_nested t ≡ true
        → flat (transform_elegant_route_to_vue_route layouts views t) ≡ true
    nested-flat (leaf r) h = leaf-flat r h
    nested-flat (branch r nil) h = leaf-flat r (and_left _ _ h)
    nested-flat (branch r (cons t f)) h =
        children-flat r (component_of layouts views r.info.component) ((root t).info.name)
          (transform_elegant_routes_to_vue_routes layouts views (cons t f)) (and_left _ _ h)
          (all_nested-flat (cons t f) (and_right _ _ h))

    all_nested-flat :
        (f : Forest ElegantInfo)
        → are_nested f ≡ true
        → flat (transform_elegant_routes_to_vue_routes layouts views f) ≡ true
    all_nested-flat nil h = refl
    all_nested-flat (cons t f) h =
        all-append is_leaf (transform_elegant_route_to_vue_route layouts views t)
          (transform_elegant_routes_to_vue_routes layouts views f)
        ∙ ap₂ ◌&&◌ (nested-flat t (and_left _ _ h)) (all_nested-flat f (and_right _ _ h))

  -- Where the names of all routes below a root have a `_`, every route that vue-router gets for it has
  -- two levels at most.
  pub transform-two_levels :
      (t : Tree ElegantInfo)
      → is_rooted t ≡ true
      → all has_two_levels (transform_elegant_route_to_vue_route layouts views t) ≡ true
  unfolding transform_elegant_route_to_vue_route is_nested
  transform-two_levels (leaf r) h = leaf-two_levels r
  transform-two_levels (branch r nil) h = leaf-two_levels r
  transform-two_levels (branch r (cons t f)) h =
      children-two r (component_of layouts views r.info.component) ((root t).info.name)
        (transform_elegant_routes_to_vue_routes layouts views (cons t f))
        (all_nested-flat (cons t f) h)

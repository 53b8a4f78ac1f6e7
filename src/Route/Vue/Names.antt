-- ===== src/Route/Vue/Names.antt =====
-- The names of the vue routes: frontend/src/router/elegant/transform.ts.
use smart_copilot.Common.{
  String, ◌≡◌, refl, ap, ap₂, ◌∙◌, Bool, true, ◌&&◌, Option, none, some, List, [], ◌∷◌, ◌++◌,
  if◌then◌else◌, if-true, if-false, sym, Bool-cases, inl, inr, is_some, append_assoc, append-nil,
}
use smart_copilot.Common.Texts.{split}
use smart_copilot.Common.Tree.{Tree, Forest, leaf, branch, nil, cons, root, forest}
use smart_copilot.Route.Vue.{
  ElegantInfo, VueInfo, is_first_level_route, transform_leaf, with_children, component_of,
  single_level_route, single_with, plain_route, one, has_component, text_or_empty, get_layout,
  get_view?, first_part, second_part, transform_elegant_route_to_vue_route,
  transform_elegant_routes_to_vue_routes,
}
use smart_copilot.Route.Vue.Levels.{and_left, and_right}

-- The names of the table's routes, a route before its children.
unfoldable mutual
  pub names : Tree ElegantInfo → List String
  names (leaf r) = r.info.name ∷ []
  names (branch r f) = r.info.name ∷ forest_names f

  pub forest_names : Forest ElegantInfo → List String
  forest_names nil = []
  forest_names (cons t f) = names t ++ forest_names f

module _ {C : Type 0} where
  abbrev name_of : VueInfo C → List String
  name_of v = elim (v.name) [ none ↦ [] | some name ↦ name ∷ [] ]

  -- The names that vue-router's routes have, in the same order.
  unfoldable mutual
    pub vue_names : Tree (VueInfo C) → List String
    vue_names (leaf v) = name_of v
    vue_names (branch v f) = name_of v ++ vue_forest_names f

    pub vue_forest_names : Forest (VueInfo C) → List String
    vue_forest_names nil = []
    vue_forest_names (cons t f) = vue_names t ++ vue_forest_names f

  vue_forest_names-append :
      (ts us : List (Tree (VueInfo C)))
      → vue_forest_names (forest (ts ++ us))
        ≡ vue_forest_names (forest ts) ++ vue_forest_names (forest us)
  unfolding vue_names
  vue_forest_names-append [] us = refl
  vue_forest_names-append (t ∷ ts) us =
      ap (λ ns. vue_names t ++ ns) (vue_forest_names-append ts us)
      ∙ sym
          (append_assoc (vue_names t) (vue_forest_names (forest ts)) (vue_forest_names (forest us)))

module _ {C : Type 0} (layouts views : String → Option C) where
  -- Whether the components that a route names are there.
  abbrev is_single_found : ElegantInfo → Bool
  is_single_found r = is_some (single_level_route layouts views r (text_or_empty r.info.component))

  abbrev is_leaf_found : ElegantInfo → Bool
  is_leaf_found r =
      if has_component r.info.component && is_first_level_route r
      then is_single_found r
      else is_some (component_of layouts views r.info.component)

  unfoldable mutual
    unfolding single_level_route component_of

    pub is_found : Tree ElegantInfo → Bool
    is_found (leaf r) = is_leaf_found r
    is_found (branch r nil) = is_leaf_found r
    is_found (branch r (cons t f)) =
        is_some (component_of layouts views r.info.component) && (is_found t && are_found f)

    pub are_found : Forest ElegantInfo → Bool
    are_found nil = true
    are_found (cons t f) = is_found t && are_found f

  names-plain_route :
      (r : ElegantInfo) (o : Option (Option C))
      → is_some o ≡ true
      → vue_forest_names (forest (plain_route layouts views r o)) ≡ r.info.name ∷ []
  unfolding vue_names
  names-plain_route r none h = cc
  names-plain_route r (some c) h = refl

  names-single :
      (r : ElegantInfo) (layout view : Option C)
      → is_some (single_with layouts views r layout view) ≡ true
      → vue_forest_names (forest (one (single_with layouts views r layout view))) ≡ r.info.name ∷ []
  unfolding vue_names
  names-single r none view h = cc
  names-single r (some layout) none h = cc
  names-single r (some layout) (some view) h = refl

  names-leaf :
      (r : ElegantInfo)
      → is_leaf_found r ≡ true
      → vue_forest_names (forest (transform_leaf layouts views r)) ≡ r.info.name ∷ []
  unfolding transform_leaf single_level_route
  names-leaf r h =
      let parts = split 36 (text_or_empty r.info.component) in
      elim (Bool-cases (has_component r.info.component && is_first_level_route r)) [
        | inl single ↦
            ap (λ (ts : List (Tree (VueInfo C))). vue_forest_names (forest ts)) (if-true _ _ single)
            ∙ names-single r (get_layout layouts views (first_part parts))
                (get_view? layouts views (second_part parts)) (sym (if-true _ _ single) ∙ h)
        | inr other ↦
            ap (λ (ts : List (Tree (VueInfo C))). vue_forest_names (forest ts)) (if-false _ _ other)
            ∙ names-plain_route r (component_of layouts views r.info.component)
                (sym (if-false _ _ other) ∙ h)
      ]

  names-with_children :
      (r : ElegantInfo) (o : Option (Option C)) (first : String)
      (children : List (Tree (VueInfo C)))
      → is_some o ≡ true
      → vue_forest_names (forest (with_children layouts views r o first children))
        ≡ r.info.name ∷ vue_forest_names (forest children)
  unfolding vue_names
  names-with_children r none first children h = cc
  names-with_children r (some c) first children h = elim (Bool-cases (is_first_level_route r)) [
    | inl top ↦
        ap (λ (ts : List (Tree (VueInfo C))). vue_forest_names (forest ts)) (if-true _ _ top)
        ∙ append-nil _
    | inr below ↦
        ap (λ (ts : List (Tree (VueInfo C))). vue_forest_names (forest ts)) (if-false _ _ below)
  ]

  mutual
    unfolding transform_elegant_route_to_vue_route names is_found vue_names

    names-transform :
        (t : Tree ElegantInfo)
        → is_found t ≡ true
        → vue_forest_names (forest (transform_elegant_route_to_vue_route layouts views t)) ≡ names t
    names-transform (leaf r) h = names-leaf r h
    names-transform (branch r nil) h = names-leaf r h
    names-transform (branch r (cons t f)) h =
        names-with_children r (component_of layouts views r.info.component) ((root t).info.name)
          (transform_elegant_routes_to_vue_routes layouts views (cons t f)) (and_left _ _ h)
        ∙ ap (λ ns. r.info.name ∷ ns) (names-transform_all (cons t f) (and_right _ _ h))

    names-transform_all :
        (f : Forest ElegantInfo)
        → are_found f ≡ true
        → vue_forest_names (forest (transform_elegant_routes_to_vue_routes layouts views f))
          ≡ forest_names f
    names-transform_all nil h = refl
    names-transform_all (cons t f) h =
        vue_forest_names-append (transform_elegant_route_to_vue_route layouts views t)
          (transform_elegant_routes_to_vue_routes layouts views f)
        ∙ ap₂ ◌++◌ (names-transform t (and_left _ _ h)) (names-transform_all f (and_right _ _ h))

  -- Where the components of all routes are there, the names of vue-router's routes are those of the
  -- table, each where it was in the order of a walk that visits a route before its children.
  pub vue_names-transform :
      (f : Forest ElegantInfo)
      → are_found f ≡ true
      → vue_forest_names (forest (transform_elegant_routes_to_vue_routes layouts views f))
        ≡ forest_names f
  vue_names-transform f h = names-transform_all f h

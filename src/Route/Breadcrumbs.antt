-- ===== src/Route/Breadcrumbs.antt =====
-- `getBreadcrumbsByRoute` of frontend/src/store/modules/route/shared.ts. A breadcrumb is a menu with
-- `options` for its children.

use text.Mathlib.Text as Text
use smart_copilot.Common.{
  String, ◌≡◌, refl, ap, ap₂, sym, ◌∙◌, Bool, true, false, List, [], ◌∷◌, map, Option, none, some,
  ◌==◌, if◌then◌else◌, is_some, find?, find?-append, find?-sound, find?-map_cons, ends_at, if-false,
  Bool-cases, inl, inr,
}
use smart_copilot.Common.Tree.{leaf, branch, nil, cons, root, paths, tree_paths}
use smart_copilot.Route.{RouteInfo, MenuInfo, Menu, Menus, Env}
use smart_copilot.Route.Menu.{get_global_menu_by_base_route}

unfoldable mutual
  -- Empty children are left out.
  pub transform_menu_to_breadcrumb : Menu → Menu
  transform_menu_to_breadcrumb (leaf m) = leaf m
  transform_menu_to_breadcrumb (branch m nil) = leaf m
  transform_menu_to_breadcrumb (branch m (cons t f)) =
      branch m (cons (transform_menu_to_breadcrumb t) (transform_menus f))

  pub transform_menus : Menus → Menus
  transform_menus nil = nil
  transform_menus (cons t f) = cons (transform_menu_to_breadcrumb t) (transform_menus f)

-- `key.split('_').slice(0, -1).join('_')`: what stands before the last `_`, or nothing.
unfoldable pub parent_key : String → String
parent_key String.[] = ""
parent_key (String.◌∷◌ c s) = if is_some (Text.find? s "_") then String.◌∷◌ c (parent_key s) else ""

-- The name and the active menu of the route, and its own menu.
pub record Place : Type 0 where
  pub key : String
  pub active_key : Option String
  pub menu : MenuInfo

abbrev is_active : Option String → String → Bool
is_active none key = false
is_active (some active_key) key = key == active_key

abbrev is_nonempty {ℓ} : {A : Type ℓ} → List A → Bool
is_nonempty [] = false
is_nonempty (_ ∷ _) = true

-- What the loop returns at one menu, when the result for its children is known; nothing to go on.
abbrev pub crumbs_at : Place → Menu → List Menu → List Menu
crumbs_at p menu deeper =
    if (root menu).key == p.key
    then transform_menu_to_breadcrumb menu ∷ []
    else if is_active p.active_key (root menu).key
    then if parent_key p.key == (root menu).key
      then transform_menu_to_breadcrumb menu ∷ leaf p.menu ∷ []
      else leaf p.menu ∷ []
    else if is_nonempty deeper
    then transform_menu_to_breadcrumb menu ∷ deeper
    else []

unfoldable mutual
  pub crumbs_of : Place → Menu → List Menu
  crumbs_of p (leaf m) = crumbs_at p (leaf m) []
  crumbs_of p (branch m children) = crumbs_at p (branch m children) (get_breadcrumbs p children)

  pub get_breadcrumbs : Place → Menus → List Menu
  get_breadcrumbs p nil = []
  get_breadcrumbs p (cons menu menus) =
      let rest = get_breadcrumbs p menus in
      let here = crumbs_of p menu in if is_nonempty here then here else rest

abbrev pub active_menu_of : RouteInfo → Option String
active_menu_of r = elim (r.meta) [ none ↦ none | some m ↦ m.active_menu ]

abbrev place_of : Env → RouteInfo → Place
place_of e r = record {
  key = r.name;
  active_key = active_menu_of r;
  menu = get_global_menu_by_base_route e r;
}

unfoldable pub get_breadcrumbs_by_route : Env → RouteInfo → Menus → List Menu
unfolding get_breadcrumbs
get_breadcrumbs_by_route e r menus = get_breadcrumbs (place_of e r) menus

abbrev pub way_or_nil : Option (List MenuInfo) → List MenuInfo
way_or_nil none = []
way_or_nil (some way) = way

root-transform : (menu : Menu) → root (transform_menu_to_breadcrumb menu) ≡ root menu
unfolding transform_menu_to_breadcrumb transform_menus
root-transform (leaf m) = refl
root-transform (branch m nil) = refl
root-transform (branch m (cons t f)) = refl

module _ (p : Place) (plain : p.active_key ≡ none) where
  abbrev is_target : List MenuInfo → Bool
  is_target = ends_at (λ (m : MenuInfo). m.key) p.key

  -- At a menu with another key.
  crumbs_at-other :
      (menu : Menu) (deeper : List Menu)
      → ((root menu).key == p.key) ≡ false
      → crumbs_at p menu deeper
        ≡ (if is_nonempty deeper then transform_menu_to_breadcrumb menu ∷ deeper else [])
  crumbs_at-other menu deeper h =
      if-false _ _ h ∙ if-false _ _ (ap (λ a. is_active a (root menu).key) plain)

  -- The deeper breadcrumbs with their parent, where they are the way that was found below it.
  roots-deeper :
      (menu : Menu) (deeper : List Menu) (o : Option (List MenuInfo))
      → ((way : List MenuInfo) → o ≡ some way → is_target way ≡ true)
      → map root deeper ≡ way_or_nil o
      → map root (if is_nonempty deeper then transform_menu_to_breadcrumb menu ∷ deeper else [])
        ≡ way_or_nil (elim o [ none ↦ none | some way ↦ some (root menu ∷ way) ])
  roots-deeper menu [] none sound h = refl
  roots-deeper menu (d ∷ ds) none sound h = cc
  roots-deeper menu [] (some []) sound h = let wrong : false ≡ true = sound [] refl in cc
  roots-deeper menu [] (some (m ∷ way)) sound h = cc
  roots-deeper menu (d ∷ ds) (some way) sound h = ap₂ (◌∷◌) (root-transform menu) h

  roots-here :
      (here rest : List Menu) (o o' : Option (List MenuInfo))
      → ((way : List MenuInfo) → o ≡ some way → is_target way ≡ true)
      → map root here ≡ way_or_nil o
      → map root rest ≡ way_or_nil o'
      → map root (if is_nonempty here then here else rest)
        ≡ way_or_nil (elim o [ none ↦ o' | some way ↦ some way ])
  roots-here [] rest none o' sound h k = k
  roots-here (d ∷ ds) rest none o' sound h k = cc
  roots-here [] rest (some []) o' sound h k = let wrong : false ≡ true = sound [] refl in cc
  roots-here [] rest (some (m ∷ way)) o' sound h k = cc
  roots-here (d ∷ ds) rest (some way) o' sound h k = h

  found-target :
      (ways : List (List MenuInfo)) (way : List MenuInfo)
      → find? is_target ways ≡ some way
      → is_target way ≡ true
  found-target ways way h = find?-sound is_target ways way h

  mutual
    unfolding crumbs_of get_breadcrumbs paths tree_paths

    crumbs_of-way :
        (menu : Menu) → map root (crumbs_of p menu) ≡ way_or_nil (find? is_target (tree_paths menu))
    crumbs_of-way (leaf m) = elim (Bool-cases (m.key == p.key)) [
      | inl here ↦ rw here (ap (λ x. x ∷ []) (root-transform (leaf m)))
      | inr other ↦ ap (map root) (crumbs_at-other (leaf m) [] other) ∙ rw other refl
    ]
    crumbs_of-way (branch m f) = elim (Bool-cases (m.key == p.key)) [
      | inl here ↦ rw here (ap (λ x. x ∷ []) (root-transform (branch m f)))
      | inr other ↦
          ap (map root) (crumbs_at-other (branch m f) (get_breadcrumbs p f) other)
          ∙ roots-deeper (branch m f) (get_breadcrumbs p f) (find? is_target (paths f))
              (found-target (paths f)) (get_breadcrumbs-way f)
          ∙ rw (other, find?-map_cons (λ (m : MenuInfo). m.key) p.key m (paths f) other) refl
    ]

    get_breadcrumbs-way :
        (menus : Menus)
        → map root (get_breadcrumbs p menus) ≡ way_or_nil (find? is_target (paths menus))
    get_breadcrumbs-way nil = refl
    get_breadcrumbs-way (cons menu menus) =
        roots-here (crumbs_of p menu) (get_breadcrumbs p menus) (find? is_target (tree_paths menu))
          (find? is_target (paths menus)) (found-target (tree_paths menu)) (crumbs_of-way menu)
          (get_breadcrumbs-way menus)
        ∙ ap way_or_nil (sym (find?-append is_target (tree_paths menu) (paths menus)))

-- The breadcrumbs of a route without an active menu are the menus on the first way, in their order,
-- from a root to a menu with the name of the route; where there is none, they are empty.
pub get_breadcrumbs_by_route_lem :
    (e : Env) (r : RouteInfo) (menus : Menus)
    → active_menu_of r ≡ none
    → map root (get_breadcrumbs_by_route e r menus)
      ≡ way_or_nil (find? (ends_at (λ (m : MenuInfo). m.key) r.name) (paths menus))
unfolding get_breadcrumbs_by_route
get_breadcrumbs_by_route_lem e r menus plain = get_breadcrumbs-way (place_of e r) plain menus

-- ===== src/Route/Vue.antt =====
-- The routes that vue-router gets: `transformElegantRoutesToVueRoutes` of
-- frontend/src/router/elegant/transform.ts, and `getCacheRouteNames` of
-- frontend/src/store/modules/route/shared.ts.
pub mod Levels
pub mod Names
use smart_copilot.Common.{
  ℕ, String, Bool, true, false, not, ◌&&◌, ◌||◌, Option, none, some, List, [], ◌∷◌, ◌++◌,
  if◌then◌else◌, truthy, flat_map,
}
use smart_copilot.Common.Texts.{starts_with, remove_first, has_char, split}
use smart_copilot.Common.Tree.{Tree, Forest, leaf, branch, nil, cons, root, trees, forest}
use smart_copilot.Route.{RouteInfo, RouteMeta}

-- Where a route redirects: to a route by its name, or as the table of routes says it.
pub data Redirect : Type 0 where
  to_name : String → Redirect
  to_other : String → Redirect

-- A route of the table, with the fields that go to vue-router as they are.
pub record ElegantInfo : Type 0 where
  pub info : RouteInfo
  pub props : Bool
  pub redirect : Option Redirect

-- A route of vue-router, whose components are of type `C`.
pub record VueInfo (C : Type 0) : Type 0 where
  pub name : Option String
  pub path : String
  pub component : Option C
  pub meta : Option RouteMeta
  pub props : Bool
  pub redirect : Option Redirect

-- The units of `_`, `$` and `:`
abbrev pub is_first_level_route : ElegantInfo → Bool
is_first_level_route r = not (has_char 95 r.info.name)

abbrev pub first_part : List String → String
first_part [] = ""
first_part (s ∷ ss) = s

abbrev pub second_part : List String → Option String
second_part [] = none
second_part (s ∷ []) = none
second_part (s ∷ t ∷ ss) = some t

-- `{ title: route.meta?.title || '' }`
abbrev title_only : Option RouteMeta → RouteMeta
title_only meta = record {
  title = elim meta [ none ↦ "" | some m ↦ m.title ];
  i18n_key = none;
  roles = [];
  keep_alive = false;
  constant = false;
  icon = none;
  local_icon = none;
  icon_font_size = none;
  order = none;
  href = none;
  hide_in_menu = false;
  active_menu = none;
  multi_tab = false;
  fixed_index_in_tab = none;
}

abbrev or_redirect : Option Redirect → Option Redirect → Option Redirect
or_redirect none d = d
or_redirect (some r) d = some r

abbrev pub one {ℓ} : {A : Type ℓ} → Option A → List A
one none = []
one (some route) = route ∷ []

abbrev pub has_component : Option String → Bool
has_component none = false
has_component (some component) = truthy component

abbrev pub text_or_empty : Option String → String
text_or_empty none = ""
text_or_empty (some component) = component

-- The components by their names; a name that is missing makes the code throw.
module _ {C : Type 0} (layouts views : String → Option C) where
  abbrev pub Vue : Type 0
  Vue = Tree (VueInfo C)

  abbrev pub get_layout : String → Option C
  get_layout component = layouts (remove_first "layout." component)

  abbrev pub get_view : String → Option C
  get_view component = views (remove_first "view." component)

  -- `{ name, path, ...rest }` with a component
  abbrev pub vue_route : ElegantInfo → Option C → VueInfo C
  vue_route r component = record {
    name = some r.info.name;
    path = r.info.path;
    component = component;
    meta = r.info.meta;
    props = r.props || has_char 58 r.info.path;
    redirect = r.redirect;
  }

  abbrev pub single_with : ElegantInfo → Option C → Option C → Option Vue
  single_with r none view = none
  single_with r (some layout) none = none
  single_with r (some layout) (some view) = some (
      branch
        (record {
          name = none;
          path = r.info.path;
          component = some layout;
          meta = some (title_only r.info.meta);
          props = false;
          redirect = none;
        })
        (cons (leaf (record (vue_route r (some view)) { path = "" })) nil))

  abbrev pub get_view? : Option String → Option C
  get_view? none = none
  get_view? (some view) = get_view view

  -- A layout with one page in it; none if a component is missing.
  unfoldable pub single_level_route : ElegantInfo → String → Option Vue
  single_level_route r component =
      let parts = split 36 component in
      single_with r (get_layout (first_part parts)) (get_view? (second_part parts))

  -- The component of a route of another kind: none if it is missing, else perhaps no component.
  abbrev pub found : Option C → Option (Option C)
  found none = none
  found (some c) = some (some c)

  unfoldable pub component_of : Option String → Option (Option C)
  component_of none = some none
  component_of (some component) =
      if not (truthy component)
      then some none
      else if starts_with "layout." component
      then found (get_layout component)
      else if starts_with "view." component
      then found (get_view component)
      else some none

  -- A route without children.
  abbrev pub plain_route : ElegantInfo → Option (Option C) → List Vue
  plain_route r none = []
  plain_route r (some component) = leaf (vue_route r component) ∷ []

  unfoldable pub transform_leaf : ElegantInfo → List Vue
  unfolding single_level_route component_of
  transform_leaf r =
      if has_component r.info.component && is_first_level_route r
      then one (single_level_route r (text_or_empty r.info.component))
      else plain_route r (component_of r.info.component)

  -- A route with children, by its component and the routes of its children. The first child's name
  -- is where it redirects, unless it does already.
  abbrev pub with_children : ElegantInfo → Option (Option C) → String → List Vue → List Vue
  with_children r none first child_routes = []
  with_children r (some component) first child_routes =
      let route = record (vue_route r component) {
        redirect = or_redirect r.redirect (some (to_name first));
      } in
      if is_first_level_route r
      then branch route (forest child_routes) ∷ []
      else leaf route ∷ child_routes

  unfoldable mutual
    unfolding transform_leaf component_of

    pub transform_elegant_route_to_vue_route : Tree ElegantInfo → List Vue
    transform_elegant_route_to_vue_route (leaf r) = transform_leaf r
    transform_elegant_route_to_vue_route (branch r nil) = transform_leaf r
    transform_elegant_route_to_vue_route (branch r (cons t f)) =
        with_children r (component_of r.info.component) ((root t).info.name)
          (transform_elegant_routes_to_vue_routes (cons t f))

    pub transform_elegant_routes_to_vue_routes : Forest ElegantInfo → List Vue
    transform_elegant_routes_to_vue_routes nil = []
    transform_elegant_routes_to_vue_routes (cons t f) =
        transform_elegant_route_to_vue_route t ++ transform_elegant_routes_to_vue_routes f

abbrev keeps_alive : Option RouteMeta → Bool
keeps_alive none = false
keeps_alive (some m) = m.keep_alive

abbrev is_component : {C : Type 0} → Option C → Bool
is_component none = false
is_component (some c) = true

abbrev cached_name : {C : Type 0} → VueInfo C → List (Option String)
cached_name child =
    if is_component child.component && keeps_alive child.meta then child.name ∷ [] else []

abbrev children_of : {C : Type 0} → Tree (VueInfo C) → List (Tree (VueInfo C))
children_of (leaf r) = []
children_of (branch r f) = trees f

unfoldable pub get_cache_route_names : {C : Type 0} → List (Tree (VueInfo C)) → List (Option String)
get_cache_route_names routes =
    flat_map (λ route. flat_map (λ child. cached_name (root child)) (children_of route)) routes

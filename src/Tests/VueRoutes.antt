-- ===== src/Tests/VueRoutes.antt =====
-- A table of a page with a layout of its own and of two pages under one layout.
use smart_copilot.Common.{
  ℕ, String, ◌≡◌, refl, Bool, true, false, Option, none, some, List, [], ◌∷◌, all, ◌==◌,
  if◌then◌else◌,
}
use smart_copilot.Common.Tree.{Tree, Forest, leaf, branch, nil, cons, forest}
use smart_copilot.Tests.Routes.{meta}
use smart_copilot.Route.Vue.{
  ElegantInfo, transform_elegant_route_to_vue_route, transform_elegant_routes_to_vue_routes,
  get_cache_route_names,
}
use smart_copilot.Route.Vue.Levels.{has_two_levels, is_nested, transform-two_levels}
use smart_copilot.Route.Vue.Names.{vue_forest_names, are_found, vue_names-transform, names}

abbrev page : String → Option String → ElegantInfo
page name component = record {
  info = record {
    name = name;
    path = name;
    component = component;
    meta = some (record (meta [] none false) { keep_alive = true });
  };
  props = false;
  redirect = none;
}

abbrev manage : Tree ElegantInfo
manage =
    branch (page "manage" (some "layout.base")) (
      cons (leaf (page "manage_user" (some "view.user")))
        (cons (leaf (page "manage_log" none)) nil))

abbrev table : Forest ElegantInfo
table = cons (leaf (page "login" (some "layout.blank$view.login"))) (cons manage nil)

abbrev components : String → Option String
components name = if name == "missing" then none else some name

cached :
    get_cache_route_names (transform_elegant_routes_to_vue_routes components components table)
    ≡ some "login" ∷ some "manage_user" ∷ []
unfolding get_cache_route_names transform_elegant_route_to_vue_route
    smart_copilot.Common.Texts.starts_with smart_copilot.Common.Texts.remove_first
    smart_copilot.Common.Texts.split smart_copilot.Common.Texts.has_char
cached = refl

transform-two_levels_example :
    all has_two_levels (transform_elegant_route_to_vue_route components components manage) ≡ true
unfolding is_nested smart_copilot.Common.Texts.has_char
transform-two_levels_example = transform-two_levels components components manage refl

vue_names-transform_example :
    vue_forest_names (forest (transform_elegant_routes_to_vue_routes components components table))
    ≡ "login" ∷ "manage" ∷ "manage_user" ∷ "manage_log" ∷ []
unfolding are_found names smart_copilot.Common.Texts.starts_with
    smart_copilot.Common.Texts.remove_first smart_copilot.Common.Texts.split
    smart_copilot.Common.Texts.has_char
vue_names-transform_example = vue_names-transform components components table refl

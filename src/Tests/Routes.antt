-- ===== src/Tests/Routes.antt =====
-- The routes and menus of a small application.
use mathlib.Core.List.{Perm}
use smart_copilot.Common.{
  ℕ, String, ◌≡◌, ◌↔◌, refl, Bool, true, false, Option, none, some, List, [], ◌∷◌, map, filter, all,
  any, find?, ends_at,
}
use smart_copilot.Common.Sort.{IsSorted}
use smart_copilot.Common.Tree.{root, leaf, branch, nil, cons, forest, chains, paths}
use smart_copilot.Route.{RouteMeta, RouteInfo, Routes, Menus, MenuInfo, Menu, Env}
use smart_copilot.Route.Access.{filter_auth_routes_by_roles, allows, chains-filter_auth_routes}
use smart_copilot.Route.Order.{
  sort_routes_by_order, root_order, AreOrdered, sort_routes-AreOrdered, chains-sort_routes,
}
use smart_copilot.Route.Menu.{get_global_menu_by_base_route, get_global_menus_by_auth_routes}
use smart_copilot.Route.Menu.Paths.{is_shown, paths-get_global_menus}
use smart_copilot.Route.KeyPath.{
  is_route_exist_by_route_name, get_selected_menu_key_path_by_key, get_selected_menu_key_path_lem,
  keys_or_nil, is_target,
}
use smart_copilot.Route.Breadcrumbs.{
  get_breadcrumbs_by_route, get_breadcrumbs, transform_menu_to_breadcrumb, parent_key, way_or_nil,
  get_breadcrumbs_by_route_lem,
}

abbrev pub meta : List String → Option ℕ → Bool → RouteMeta
meta roles order hidden = record {
  title = "t";
  i18n_key = some "k";
  roles = roles;
  keep_alive = false;
  constant = false;
  icon = none;
  local_icon = none;
  icon_font_size = none;
  order = order;
  href = none;
  hide_in_menu = hidden;
  active_menu = none;
  multi_tab = false;
  fixed_index_in_tab = none;
}

abbrev page : String → List String → Option ℕ → Bool → RouteInfo
page name roles order hidden = record {
  name = name;
  path = name;
  component = none;
  meta = some (meta roles order hidden);
}

abbrev site : Routes
site =
    cons
      (branch (page "manage" [] (some 2) false) (
        cons (leaf (page "manage_user" ("ADMIN" ∷ []) (some 2) false))
          (cons (leaf (page "manage_log" [] (some 1) true)) nil)))
      (cons (leaf (page "chat" ("USER" ∷ "ADMIN" ∷ []) (some 1) false)) nil)

abbrev pub english : Env
english = record { translate = λ k. "en"; menu_icon = "menu" }

abbrev menus : Menus
menus = get_global_menus_by_auth_routes english site

user_chains :
    map
      (map (λ (r : RouteInfo). r.name))
      (chains (forest (filter_auth_routes_by_roles site "USER")))
    ≡ ("manage" ∷ "manage_log" ∷ []) ∷ ("chat" ∷ []) ∷ []
unfolding filter_auth_routes_by_roles chains
user_chains = refl

ordered_names :
    map (map (λ (r : RouteInfo). r.name)) (chains (forest (sort_routes_by_order site)))
    ≡ ("chat" ∷ []) ∷ ("manage" ∷ "manage_log" ∷ []) ∷ ("manage" ∷ "manage_user" ∷ []) ∷ []
unfolding sort_routes_by_order chains smart_copilot.Route.Order.sort_each
    smart_copilot.Common.Sort.sort
ordered_names = refl

user_path : get_selected_menu_key_path_by_key "manage_user" menus ≡ "manage" ∷ "manage_user" ∷ []
unfolding get_selected_menu_key_path_by_key smart_copilot.Route.KeyPath.find_menu_path
    get_global_menus_by_auth_routes get_global_menu_by_base_route
user_path = refl

chains-filter_auth_routes_example :
    chains (forest (filter_auth_routes_by_roles site "USER"))
    ≡ filter (all (allows "USER")) (chains site)
chains-filter_auth_routes_example = chains-filter_auth_routes site "USER"

sort_routes-AreOrdered_example :
    IsSorted root_order (sort_routes_by_order site)
    × AreOrdered (forest (sort_routes_by_order site))
sort_routes-AreOrdered_example = sort_routes-AreOrdered site

chains-sort_routes_example : Perm (chains (forest (sort_routes_by_order site))) (chains site)
chains-sort_routes_example = chains-sort_routes site

paths-get_global_menus_example :
    paths menus
    ≡ map (map (get_global_menu_by_base_route english)) (filter (all is_shown) (paths site))
paths-get_global_menus_example = paths-get_global_menus english site

get_selected_menu_key_path_example :
    get_selected_menu_key_path_by_key "manage_user" menus
    ≡ keys_or_nil "manage_user" (find? (is_target "manage_user") (paths menus))
get_selected_menu_key_path_example = get_selected_menu_key_path_lem "manage_user" menus

abbrev crumbs : RouteInfo → List String
crumbs r = map (λ (t : Menu). (root t).key) (get_breadcrumbs_by_route english r menus)

abbrev page_in : String → String → RouteInfo
page_in name active = record {
  name = name;
  path = name;
  component = none;
  meta = some (record (meta [] none true) { active_menu = some active });
}

crumbs_of_user : crumbs (page "manage_user" [] none false) ≡ "manage" ∷ "manage_user" ∷ []
unfolding get_breadcrumbs_by_route get_breadcrumbs get_global_menus_by_auth_routes
    get_global_menu_by_base_route transform_menu_to_breadcrumb
crumbs_of_user = refl

crumbs_of_detail :
    crumbs (page_in "manage_user_detail" "manage_user")
    ≡ "manage" ∷ "manage_user" ∷ "manage_user_detail" ∷ []
unfolding get_breadcrumbs_by_route get_breadcrumbs get_global_menus_by_auth_routes
    get_global_menu_by_base_route transform_menu_to_breadcrumb parent_key
crumbs_of_detail = refl

exists_log : is_route_exist_by_route_name "manage_log" site ≡ true
unfolding is_route_exist_by_route_name
exists_log = refl

get_breadcrumbs_by_route_example :
    map root (get_breadcrumbs_by_route english (page "manage_user" [] none false) menus)
    ≡ way_or_nil (find? (ends_at (λ (m : MenuInfo). m.key) "manage_user") (paths menus))
get_breadcrumbs_by_route_example =
    get_breadcrumbs_by_route_lem english (page "manage_user" [] none false) menus refl

-- ===== src/Account/Registry.antt =====
-- The routes of frontend/src/store/modules/route/index.ts: what is added, registered and shown as a
-- menu, with `createStaticRoutes` of frontend/src/router/routes/index.ts.
use smart_copilot.Common.{
  String, Bool, true, false, not, Option, none, some, List, [], ◌∷◌, ◌++◌, ◌==◌, if◌then◌else◌,
  filter, truthy,
}
use smart_copilot.Common.Tree.{root, trees, forest, nil}
use smart_copilot.Route.{Route, Routes}
use smart_copilot.Route.Map.{get_route_path, get_route_name}
use smart_copilot.Route.Access.{filter_auth_routes_by_roles}
use smart_copilot.Route.Order.{sort_routes_by_order}
use smart_copilot.Route.Menu.{get_global_menus_by_auth_routes}
use smart_copilot.Route.KeyPath.{is_route_exist_by_route_name}
use smart_copilot.Tab.Store.{init_home_tab}
use smart_copilot.Account.{Config, RouteStore, App, Server, is_static_super}

-- `item.meta?.constant`
abbrev is_constant : Route → Bool
is_constant t = elim ((root t).meta) [ none ↦ false | some m ↦ m.constant ]

abbrev pub static_constant_routes : Config → List Route
static_constant_routes cfg = filter is_constant (trees cfg.generated_routes)

abbrev pub static_auth_routes : Config → List Route
static_auth_routes cfg = filter (λ t. not (is_constant t)) (trees cfg.generated_routes)

abbrev pub name_of : Route → String
name_of t = (root t).name

-- `Map.set` by the name: a known name keeps its place.
unfoldable pub set_route : Route → List Route → List Route
set_route t [] = t ∷ []
set_route t (u ∷ us) =
    let rest = set_route t us in if name_of u == name_of t then t ∷ us else u ∷ rest

unfoldable pub set_routes : List Route → List Route → List Route
unfolding set_route
set_routes [] us = us
set_routes (t ∷ ts) us = set_routes ts (set_route t us)

unfoldable pub routes_by_name : List Route → List Route
unfolding set_routes
routes_by_name routes = set_routes routes []

unfoldable pub add_constant_routes : List Route → RouteStore → RouteStore
unfolding routes_by_name
add_constant_routes routes r = record r { constant_routes = routes_by_name routes }

unfoldable pub add_auth_routes : List Route → RouteStore → RouteStore
unfolding routes_by_name
add_auth_routes routes r = record r { auth_routes = routes_by_name routes }

abbrev pub set_route_home : String → RouteStore → RouteStore
set_route_home key r = record r { route_home = key }

unfoldable pub handle_constant_and_auth_routes : Config → RouteStore → RouteStore
handle_constant_and_auth_routes cfg r =
    let sorted = sort_routes_by_order (forest (r.constant_routes ++ r.auth_routes)) in
    record r {
      registered = sorted;
      menus = get_global_menus_by_auth_routes cfg.env (forest sorted);
    }

abbrev pub handle_update_root_route_redirect : String → RouteStore → RouteStore
handle_update_root_route_redirect key r = elim (get_route_path key) [
  | none ↦ r
  | some path ↦ if truthy path then record r { root_redirect = some path } else r
]

abbrev pub with_home_tab : Config → App → App
with_home_tab cfg a = record a {
  tabs = init_home_tab cfg.env (cfg.tab_routes a.routes.registered) a.routes.route_home a.tabs;
}

abbrev constant_or_static : Config → Option Routes → List Route
constant_or_static cfg none = static_constant_routes cfg
constant_or_static cfg (some routes) = trees routes

abbrev constant_added : Config → List Route → RouteStore → RouteStore
constant_added cfg routes r =
    record (handle_constant_and_auth_routes cfg (add_constant_routes routes r)) {
      is_init_constant_route = true;
    }

abbrev constant_ready : Config → List Route → App → App
constant_ready cfg routes a =
    with_home_tab cfg (record a { routes = constant_added cfg routes a.routes })

unfoldable pub init_constant_route : {W : Type 0} → Config → Server W → W × App → W × App
unfolding handle_constant_and_auth_routes add_constant_routes
init_constant_route cfg server (w, a) =
    if a.routes.is_init_constant_route
    then (w, a)
    else if cfg.is_static
    then (w, constant_ready cfg (static_constant_routes cfg) a)
    else (let (w', answer) = server.constant_routes w in
        (w', constant_ready cfg (constant_or_static cfg answer) a))

-- `routeStore.$reset()` brings back the state that the store returns; the lists of constant and
-- auth routes are not part of it.
unfoldable pub reset_route_state : Config → RouteStore → RouteStore
reset_route_state cfg r = record r {
  route_home = cfg.route_home;
  registered = [];
  menus = nil;
  is_init_constant_route = false;
  is_init_auth_route = false;
}

unfoldable pub reset_route_store : {W : Type 0} → Config → Server W → W × App → W × App
unfolding reset_route_state init_constant_route
reset_route_store cfg server (w, a) =
    init_constant_route cfg server (w, record a { routes = reset_route_state cfg a.routes })

-- The auth routes of the build that the user may use.
abbrev pub own_static_routes : Config → App → List Route
own_static_routes cfg a =
    if is_static_super cfg a
    then static_auth_routes cfg
    else filter_auth_routes_by_roles (forest (static_auth_routes cfg)) a.user_info.role

unfoldable pub init_static_auth_route : Config → App → App
unfolding handle_constant_and_auth_routes add_auth_routes
init_static_auth_route cfg a = record a {
  routes =
      record (handle_constant_and_auth_routes cfg
        (add_auth_routes (own_static_routes cfg a) a.routes)) { is_init_auth_route = true };
}

unfoldable pub dynamic_routes_added : Config → Routes → String → RouteStore → RouteStore
unfolding handle_constant_and_auth_routes add_auth_routes
dynamic_routes_added cfg routes home r =
    record (handle_update_root_route_redirect home (
      set_route_home home
        (handle_constant_and_auth_routes cfg (add_auth_routes (trees routes) r)))) {
          is_init_auth_route = true;
        }

-- The last part is the data of the answer, by its truthiness.
unfoldable pub get_is_auth_route_exist : {W : Type 0} → Config → Server W → String → W → W × Bool
get_is_auth_route_exist cfg server route_path w = elim (get_route_name route_path) [
  | none ↦ (w, false)
  | some route_name ↦
      if cfg.is_static
      then (w, is_route_exist_by_route_name route_name (forest (static_auth_routes cfg)))
      else server.route_exists route_name w
]

-- ===== src/Route/Map.antt =====
-- `routeMap`, `getRoutePath` and `getRouteName` of frontend/src/router/elegant/transform.ts.
use smart_copilot.Common.{
  String, ◌≡◌, ◌↔◌, refl, true, List, [], ◌∷◌, map, arith, Option, none, some, ◌==◌, eq_iff,
  eq_refl, if◌then◌else◌, includes, distinct,
}

abbrev pub route_map : List (String × String)
route_map =
    ("root", "/")
    ∷ ("not-found", "/:pathMatch(.*)*")
    ∷ ("403", "/403")
    ∷ ("404", "/404")
    ∷ ("500", "/500")
    ∷ ("chat", "/chat")
    ∷ ("chat-history", "/chat-history")
    ∷ ("iframe-page", "/iframe-page/:url")
    ∷ ("knowledge-base", "/knowledge-base")
    ∷ ("login", "/login/:module(pwd-login|code-login|register|reset-pwd|bind-wechat)?")
    ∷ ("org-tag", "/org-tag")
    ∷ ("personal-center", "/personal-center")
    ∷ ("recharge", "/recharge")
    ∷ ("recharge-manage", "/recharge-manage")
    ∷ ("usage-monitor", "/usage-monitor")
    ∷ ("user", "/user")
    ∷ []

-- A lookup by the first part, and one by the second.
unfoldable pub path_in : List (String × String) → String → Option String
path_in [] name = none
path_in ((n, p) ∷ m) name = if n == name then some p else path_in m name

unfoldable pub name_in : List (String × String) → String → Option String
name_in [] path = none
name_in ((n, p) ∷ m) path = if p == path then some n else name_in m path

-- `routeMap[name]`; undefined, `none`, for a name that is not in the map.
unfoldable pub get_route_path : String → Option String
unfolding path_in
get_route_path name = path_in route_map name

unfoldable pub get_route_name : String → Option String
unfolding name_in
get_route_name path = name_in route_map path

abbrev names : List (String × String) → List String
names m = map (λ e. e.0) m

abbrev route_paths : List (String × String) → List String
route_paths m = map (λ e. e.1) m

path_in-includes :
    (m : List (String × String)) (name path : String)
    → path_in m name ≡ some path
    → includes (route_paths m) path ≡ true
unfolding path_in
path_in-includes [] name path h = cc
path_in-includes ((n, p) ∷ m) name path h =
    ground (arith, path_in-includes m name path, eq_iff n name, eq_refl path)

name_in-includes :
    (m : List (String × String)) (path name : String)
    → name_in m path ≡ some name
    → includes (names m) name ≡ true
unfolding name_in
name_in-includes [] path name h = cc
name_in-includes ((n, p) ∷ m) path name h =
    ground (arith, name_in-includes m path name, eq_iff p path, eq_refl name)

name_in-path_in :
    (m : List (String × String)) (name path : String)
    → distinct (route_paths m) ≡ true
    → path_in m name ≡ some path
    → name_in m path ≡ some name
unfolding path_in name_in
name_in-path_in [] name path d h = cc
name_in-path_in ((n, p) ∷ m) name path d h = ground (
  arith,
  eq_iff n name,
  eq_iff p path,
  eq_refl path,
  path_in-includes m name path,
  name_in-path_in m name path,
)

path_in-name_in :
    (m : List (String × String)) (path name : String)
    → distinct (names m) ≡ true
    → name_in m path ≡ some name
    → path_in m name ≡ some path
unfolding path_in name_in
path_in-name_in [] path name d h = cc
path_in-name_in ((n, p) ∷ m) path name d h = ground (
  arith,
  eq_iff n name,
  eq_iff p path,
  eq_refl name,
  name_in-includes m path name,
  path_in-name_in m path name,
)

-- A path belongs to a name exactly when the name belongs to the path: the two lookups are inverse.
pub get_route_name-get_route_path_iff :
    (name path : String) → (get_route_path name ≡ some path) ↔ (get_route_name path ≡ some name)
unfolding get_route_path get_route_name
get_route_name-get_route_path_iff name path =
    (name_in-path_in route_map name path refl, path_in-name_in route_map path name refl)

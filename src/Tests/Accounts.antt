-- ===== src/Tests/Accounts.antt =====
-- An application with two pages, its server and its router.
use smart_copilot.Common.{
  ℕ, suc, String, ◌≡◌, refl, Bool, true, false, Option, none, some, List, [], ◌∷◌, ◌==◌,
  if◌then◌else◌,
}
use smart_copilot.Common.Tree.{leaf, nil, cons}
use smart_copilot.Route.{Route}
use smart_copilot.Route.Map.{get_route_name}
use smart_copilot.Tab.Store.{Push}
use smart_copilot.Account.{
  Config, App, RouteStore, Storage, Server, Router, UserInfo, LoginToken, has_token,
  default_user_info,
}
use smart_copilot.Account.Auth.{reset_store}
use smart_copilot.Account.Reset.{reset_store-signs_out, auth_routes_of}
use smart_copilot.Account.Guard.{To, guard, next_to, by_name, get_route_query_of_login_route}
use smart_copilot.Account.Guard.Laws.{may_enter, guard-may_enter}
use smart_copilot.Account.Pushes.{
  push_name, push_path, to_home, to_login, redirect_from_login, router_push_by_key_with_meta_query,
}
use smart_copilot.Tests.Routes.{meta, english}
use smart_copilot.Tests.Chats.{chat}

abbrev page : String → List String → Route
page name roles =
    leaf
      (record { name = name; path = name; component = none; meta = some (meta roles none false) })

abbrev fixed_page : String → Route
fixed_page name = leaf (record {
  name = name;
  path = name;
  component = none;
  meta = some (record (meta [] none false) { constant = true });
})

abbrev cfg : Config
cfg = record {
  env = english;
  is_static = true;
  static_super_role = "ADMIN";
  route_home = "chat";
  generated_routes =
      cons (fixed_page "login") (cons (page "chat" []) (cons (page "user" ("ADMIN" ∷ [])) nil));
  tab_routes = λ routes. [];
  caches_tabs = true;
}

abbrev person : UserInfo
person = record { id = 7; username = "p"; role = "USER"; org_tags = []; primary_org = "" }

abbrev storage : Option String → Storage
storage token = record {
  token = token;
  refresh_token = none;
  last_login_user_id = none;
  global_tabs = none;
}

abbrev routes : Bool → RouteStore
routes ready = record {
  route_home = "chat";
  constant_routes = fixed_page "login" ∷ [];
  auth_routes = page "chat" [] ∷ [];
  registered = [];
  root_redirect = none;
  menus = nil;
  is_init_constant_route = ready;
  is_init_auth_route = ready;
}

abbrev app : Option String → UserInfo → Bool → App
app token user ready = record {
  storage = storage token;
  token = "";
  user_info = user;
  routes = routes ready;
  tabs = record { tabs = []; home_tab = none; active_tab_id = "" };
  chat = chat "" [];
  at_constant = true;
  refreshes = 0;
}

-- The password is right if it is "right", and the user's data comes for the token "full" only.
abbrev login_token : String → LoginToken
login_token user_name = record { token = user_name; refresh_token = "r" }

abbrev user_of : Option String → Option UserInfo
user_of none = none
user_of (some token) = if token == "full" then some person else none

abbrev server : Server ℕ
server = record {
  login = λ u p n. (suc n, if p == "right" then some (login_token u) else none);
  user_info = λ t n. (suc n, user_of t);
  logout = λ t n. (suc n, false);
  constant_routes = λ n. (suc n, none);
  user_routes = λ t n. (suc n, none);
  route_exists = λ name n. (suc n, false);
}

abbrev push : Push
push path s = (s, false)

abbrev router : Router ℕ
router = record { push = push; to_login = λ wa. wa; redirect_from_login = λ redirect wa. wa }

abbrev to : String → Bool → List String → To
to name constant roles = record {
  name = name;
  path = "/user";
  full_path = "/user?a=1";
  query = "a=1";
  hash = "";
  constant = constant;
  roles = roles;
  href = none;
  redirected_from = none;
}

abbrev login_page : To
login_page = to "login" true []

abbrev admin_page : To
admin_page = to "user" false ("ADMIN" ∷ [])

abbrev missing : To
missing = to "not-found" true []

forbids :
    (guard cfg server router admin_page login_page (0, app (some "t") person true)).1
    ≡ next_to (by_name "403" none)
unfolding guard
forbids = refl

guard-may_enter_example :
    may_enter cfg
      (to "chat" false [])
      (guard cfg server router
        (to "chat" false [])
        login_page
        (0, app (some "full") person true)).0.1
    ≡ true
unfolding guard
guard-may_enter_example =
    guard-may_enter cfg server router (to "chat" false []) login_page
      (0, app (some "full") person true) refl

redirects_back : get_route_query_of_login_route admin_page "chat" ≡ some "/user?a=1"
unfolding get_route_query_of_login_route get_route_name
redirects_back = refl

redirects_home : get_route_query_of_login_route admin_page "user" ≡ some "/?a=1"
unfolding get_route_query_of_login_route get_route_name
redirects_home = refl

reset_store-signs_out_example :
    (has_token (reset_store cfg server router (0, app (some "full") person true)).1 ≡ false)
    × ((reset_store cfg server router (0, app (some "full") person true)).1.user_info
        ≡ default_user_info)
    × (auth_routes_of (reset_store cfg server router (0, app (some "full") person true)).1
        ≡ page "chat" [] ∷ [])
reset_store-signs_out_example =
    reset_store-signs_out cfg server router 0 (app (some "full") person true) refl

abbrev twice : List Route
twice = page "chat" [] ∷ page "user" [] ∷ page "chat" ("ADMIN" ∷ []) ∷ []

login_of_page :
    to_login "/user?a=1" none none
    ≡ push_name "login"
        (some (("redirect", "/user?a=1") ∷ []))
        (some (("module", "pwd-login") ∷ []))
login_of_page = refl

back_to_page : redirect_from_login (some "/user") true ≡ push_path "/user"
back_to_page = refl

back_to_home : redirect_from_login (some "/user") false ≡ to_home
back_to_home = refl

last_value_counts :
    router_push_by_key_with_meta_query
      (record { name = "chat"; query = ("a", "1") ∷ ("b", "2") ∷ ("a", "3") ∷ [] } ∷ [])
      "chat"
    ≡ push_name "chat" (some (("a", "3") ∷ ("b", "2") ∷ [])) none
last_value_counts = refl

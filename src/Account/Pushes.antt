-- ===== src/Account/Pushes.antt =====
-- The locations that `useRouterPush` of frontend/src/hooks/common/router.ts pushes. An empty query
-- and empty parameters are left out of a location.
use smart_copilot.Common.{
  String, Bool, ◌&&◌, Option, none, some, List, [], ◌∷◌, ◌==◌, if◌then◌else◌, find?, truthy,
  or_default,
}

abbrev pub Query : Type 0
Query = List (String × String)

-- A location by its name, with what of `query` and `params` is there, or by its path.
pub data PushLocation : Type 0 where
  push_name : String → Option Query → Option Query → PushLocation
  push_path : String → PushLocation

abbrev unless_empty : Query → Option Query
unless_empty [] = none
unless_empty (e ∷ es) = some (e ∷ es)

abbrev pub router_push_by_key : String → Query → Query → PushLocation
router_push_by_key key query params = push_name key (unless_empty query) (unless_empty params)

-- A route of the router by its name, with the query of its metadata.
pub record NamedRoute : Type 0 where
  pub name : String
  pub query : Query

-- `query[key] = value`: a known key keeps its place.
abbrev set_key : String → String → Query → Query
set_key key value [] = (key, value) ∷ []
set_key key value ((k, v) ∷ q) =
    let rest = set_key key value q in if k == key then (k, value) ∷ q else (k, v) ∷ rest

abbrev set_keys : Query → Query → Query
set_keys [] query = query
set_keys ((k, v) ∷ items) query = set_keys items (set_key k v query)

abbrev query_of : Option NamedRoute → Query
query_of none = []
query_of (some r) = set_keys r.query []

abbrev pub router_push_by_key_with_meta_query : List NamedRoute → String → PushLocation
router_push_by_key_with_meta_query all_routes key =
    router_push_by_key key (query_of (find? (λ r. r.name == key) all_routes)) []

abbrev pub to_home : PushLocation
to_home = router_push_by_key "root" [] []

-- `full_path` is that of the current route.
abbrev pub to_login : String → Option String → Option String → PushLocation
to_login full_path login_module redirect_url =
    router_push_by_key "login" (("redirect", or_default redirect_url full_path) ∷ [])
      (("module", or_default login_module "pwd-login") ∷ [])

abbrev pub toggle_login_module : Query → String → PushLocation
toggle_login_module query login_module =
    router_push_by_key "login" query (("module", login_module) ∷ [])

-- `redirect` is that of the current route's query.
abbrev pub redirect_from_login : Option String → Bool → PushLocation
redirect_from_login none need_redirect = to_home
redirect_from_login (some redirect) need_redirect =
    if need_redirect && truthy redirect then push_path redirect else to_home

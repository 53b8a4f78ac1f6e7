-- ===== src/Account/Guard.antt =====
-- The route guard, frontend/src/router/guard/route.ts.
pub mod Laws
use Prim.Native.String.{String, len, slice}
use Prim.Native.String
use Prim.Native.Nat.{suc}
use text.Mathlib.Text.{find?}
use smart_copilot.Common.{
  Bool, true, false, not, ◌&&◌, ◌||◌, Option, none, some, List, [], ◌==◌, if◌then◌else◌, includes,
  truthy, is_truthy,
}
use smart_copilot.Route.Access.{is_empty}
use smart_copilot.Route.Map.{get_route_name}
use smart_copilot.Account.{Config, App, Server, Router, is_static_super, has_token}
use smart_copilot.Account.Registry.{init_constant_route, get_is_auth_route_exist}
use smart_copilot.Account.Auth.{init_auth_route}

-- What the guard reads of a normalised location and its metadata; `query` is the printed query.
pub record To : Type 0 where
  pub name : String
  pub path : String
  pub full_path : String
  pub query : String
  pub hash : String
  pub constant : Bool
  pub roles : List String
  pub href : Option String
  pub redirected_from : Option String

-- A location by name with the query's `redirect`, or by path, which replaces the entry.
pub data Location : Type 0 where
  by_name : String → Option String → Location
  by_path : String → String → String → Location

-- What `next` gets; a location with `href` opens a window as well.
pub data Outcome : Type 0 where
  next : Outcome
  next_to : Location → Outcome
  open_window : String → Location → Outcome

-- The path and the query of a full path: the first two parts of its split at `?`.
abbrev pub before_mark : String → String
before_mark s = elim (find? s "?") [ none ↦ s | some i ↦ slice s 0 i ]

abbrev pub redirect_path : String → String
redirect_path full_path = before_mark full_path

abbrev pub redirect_query : String → Option String
redirect_query full_path = elim (find? full_path "?") [
  | none ↦ none
  | some i ↦ some (before_mark (slice full_path (suc i) (len full_path)))
]

-- `routeHome === redirectName`
abbrev is_redirect_home : String → Option String → Bool
is_redirect_home route_home none = false
is_redirect_home route_home (some redirect_name) = route_home == redirect_name

abbrev home_query : Option String → Option String
home_query none = none
home_query (some query) = if truthy query then some (String.◌++◌ "/?" query) else none

-- The `redirect` of the query, or none for an empty query.
unfoldable pub get_route_query_of_login_route : To → String → Option String
get_route_query_of_login_route to route_home =
    let redirects_home =
      is_redirect_home route_home (get_route_name (redirect_path to.full_path)) in
    if redirects_home
    then home_query (redirect_query to.full_path)
    else if to.name == "login"
    then none
    else some to.full_path

abbrev pub is_not_found : To → Bool
is_not_found to = to.name == "not-found"

abbrev pub itself : To → Location
itself to = by_path to.full_path to.query to.hash

abbrev is_text : String → Option String → Bool
is_text s none = false
is_text s (some t) = t == s

-- Where a location goes that only "not-found" caught before the auth routes were there.
abbrev retry : To → Location
retry to =
    by_path (if is_text "root" to.redirected_from then "/" else to.full_path) to.query to.hash

-- `onRouteSwitchWhenLoggedIn`, which is not waited for.
abbrev pub start_refresh : App → App
start_refresh a = record a { refreshes = suc a.refreshes }

-- With `meta.href` a window opens and the navigation goes back.
unfoldable pub handle_route_switch : To → To → Outcome
handle_route_switch to from = elim (to.href) [
  | none ↦ next
  | some href ↦
      if truthy href then open_window href (by_path from.full_path from.query to.hash) else next
]

-- `authStore.isStaticSuper || !routeRoles.length || hasRole`
abbrev pub has_auth : Config → To → App → Bool
has_auth cfg to a = is_static_super cfg a || is_empty to.roles || includes to.roles a.user_info.role

-- The guard's tests after the initialisation has answered without a location.
unfoldable pub decide : Config → To → To → App → Outcome
unfolding handle_route_switch
decide cfg to from a =
    if to.name == "login" && has_token a
    then next_to (by_name "root" none)
    else if to.constant
    then handle_route_switch to from
    else if not (has_token a)
    then next_to (by_name "login" (some to.full_path))
    else if has_auth cfg to a
    then handle_route_switch to from
    else next_to (by_name "403" none)

module _ {W : Type 0} (cfg : Config) (server : Server W) (router : Router W) where
  -- A location that is caught by "not-found" though its route exists is forbidden.
  abbrev pub when_missing : To → W × App → (W × App) × Option Location
  when_missing to (w, a) =
      let (w', exist) = get_is_auth_route_exist cfg server to.path w in
      ((w', a), if exist then some (by_name "403" none) else none)

  abbrev logged_in : To → W × App → (W × App) × Option Location
  logged_in to (w, a) =
      if is_not_found to then when_missing to (w, start_refresh a) else ((w, start_refresh a), none)

  abbrev pub when_logged_in : To → W × App → (W × App) × Option Location
  when_logged_in to (w, a) =
      if a.routes.is_init_auth_route
      then logged_in to (w, a)
      else (let wa = init_auth_route cfg server router (w, a) in
          if is_not_found to then (wa, some (retry to)) else logged_in to wa)

  abbrev pub when_not_logged_in : To → App → Option Location
  when_not_logged_in to a =
      if to.constant && not (is_not_found to)
      then none
      else some (by_name "login" (get_route_query_of_login_route to a.routes.route_home))

  unfoldable pub init_route : To → W × App → (W × App) × Option Location
  unfolding init_constant_route init_auth_route get_is_auth_route_exist
      get_route_query_of_login_route
  init_route to (w, a) =
      if not a.routes.is_init_constant_route
      then (init_constant_route cfg server (w, a), some (itself to))
      else if has_token a
      then when_logged_in to (w, a)
      else ((w, a), when_not_logged_in to a)

  abbrev pub after_init : To → To → (W × App) × Option Location → (W × App) × Outcome
  after_init to from (wa, none) = (wa, decide cfg to from wa.1)
  after_init to from (wa, some location) = (wa, next_to location)

  -- The handler of `router.beforeEach`.
  unfoldable pub guard : To → To → W × App → (W × App) × Outcome
  unfolding init_route decide
  guard to from wa = after_init to from (init_route to wa)

-- ===== src/Account.antt =====
-- The state behind navigation: the auth store (frontend/src/store/modules/auth/index.ts), the route
-- store (frontend/src/store/modules/route/index.ts) and the local storage
-- (frontend/src/typings/storage.d.ts), with the tab store and the chat store that they act on.
pub mod Registry
pub mod Auth
pub mod Reset
pub mod Unique
pub mod Guard
pub mod Pushes
use Prim.Native.String.{compare}
use smart_copilot.Common.{
  ℕ, String, Bool, true, false, ◌&&◌, Option, none, some, List, [], ◌==◌, is_truthy,
}
use smart_copilot.Common.Tree.{nil}
use smart_copilot.Route.{Env, Route, Routes, Menus}
use smart_copilot.Tab.{Tab, TabRoute}
use smart_copilot.Tab.Store.{TabStore}
use smart_copilot.Chat.Sessions.{ChatStore}

pub record UserInfo : Type 0 where
  pub id : ℕ
  pub username : String
  pub role : String
  pub org_tags : List String
  pub primary_org : String

abbrev pub default_user_info : UserInfo
default_user_info = record { id = 0; username = ""; role = "USER"; org_tags = []; primary_org = "" }

pub record LoginToken : Type 0 where
  pub token : String
  pub refresh_token : String

-- The keys of the local storage that these stores use.
pub record Storage : Type 0 where
  pub token : Option String
  pub refresh_token : Option String
  pub last_login_user_id : Option ℕ
  pub global_tabs : Option (List Tab)

-- The build's settings, the routes that the build generates, and what the router lists of routes
-- that are added to it.
pub record Config : Type 0 where
  pub env : Env
  pub is_static : Bool
  pub static_super_role : String
  pub route_home : String
  pub generated_routes : Routes
  pub tab_routes : List Route → List TabRoute
  pub caches_tabs : Bool

-- `registered` are the sorted routes that were last added to the router, `root_redirect` the path
-- to which the root route was last sent.
pub record RouteStore : Type 0 where
  pub route_home : String
  pub constant_routes : List Route
  pub auth_routes : List Route
  pub registered : List Route
  pub root_redirect : Option String
  pub menus : Menus
  pub is_init_constant_route : Bool
  pub is_init_auth_route : Bool

-- `at_constant` is the `constant` of the current route's metadata; `refreshes` counts the calls of
-- `initUserInfo` that were started and not waited for.
pub record App : Type 0 where
  pub storage : Storage
  pub token : String
  pub user_info : UserInfo
  pub routes : RouteStore
  pub tabs : TabStore
  pub chat : ChatStore
  pub at_constant : Bool
  pub refreshes : ℕ

abbrev pub is_static_super : Config → App → Bool
is_static_super cfg a = cfg.is_static && a.user_info.role == cfg.static_super_role

-- `Boolean(localStg.get('token'))`
abbrev pub has_token : App → Bool
has_token a = is_truthy a.storage.token

-- The answers of the server, none for an error. `W` is the server's state; a request carries the
-- token of the storage.
pub record Server (W : Type 0) : Type 0 where
  pub login : String → String → W → W × Option LoginToken
  pub user_info : Option String → W → W × Option UserInfo
  -- Whether the request ends with an error.
  pub logout : Option String → W → W × Bool
  pub constant_routes : W → W × Option Routes
  pub user_routes : Option String → W → W × Option (Routes × String)
  pub route_exists : String → W → W × Bool

-- What the router does: a push by path, and the navigations to the login page and from it, awaited.
pub record Router (W : Type 0) : Type 0 where
  pub push : String → TabStore → TabStore × Bool
  pub to_login : W × App → W × App
  pub redirect_from_login : Bool → W × App → W × App

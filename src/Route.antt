-- ===== src/Route.antt =====
-- The routes and menus of frontend/src/store/modules/route/shared.ts, with the route metadata of
-- frontend/src/typings/router.d.ts and the menu type of frontend/src/typings/app.d.ts.
pub mod Map
pub mod Vue
pub mod Access
pub mod Order
pub mod Menu
pub mod KeyPath
pub mod Search
pub mod Breadcrumbs
use smart_copilot.Common.{
  ℕ, String, Bool, true, false, Option, none, some, List, [], get_or, eqb, if◌then◌else◌, truthy,
}
use smart_copilot.Common.Tree.{Tree, Forest}

-- Optional Boolean fields are false when they are missing, and missing roles are the empty list:
-- the code reads them by truthiness and by `|| []` only.
pub record RouteMeta : Type 0 where
  pub title : String
  pub i18n_key : Option String
  pub roles : List String
  pub keep_alive : Bool
  pub constant : Bool
  pub icon : Option String
  pub local_icon : Option String
  pub icon_font_size : Option ℕ
  pub order : Option ℕ
  pub href : Option String
  pub hide_in_menu : Bool
  pub active_menu : Option String
  pub multi_tab : Bool
  pub fixed_index_in_tab : Option ℕ

pub record RouteInfo : Type 0 where
  pub name : String
  pub path : String
  pub component : Option String
  pub meta : Option RouteMeta

abbrev pub Route : Type 0
Route = Tree RouteInfo

abbrev pub Routes : Type 0
Routes = Forest RouteInfo

-- The arguments of `SvgIconVNode`, which renders an icon.
pub record Icon : Type 0 where
  pub icon : String
  pub local_icon : Option String
  pub font_size : ℕ

-- A menu without its children. A breadcrumb has the same fields, and `options` for `children`.
pub record MenuInfo : Type 0 where
  pub key : String
  pub label : Option String
  pub i18n_key : Option String
  pub route_key : String
  pub route_path : String
  pub icon : Icon

abbrev pub Menu : Type 0
Menu = Tree MenuInfo

abbrev pub Menus : Type 0
Menus = Forest MenuInfo

-- What a translation and the build supply: `$t` and `VITE_MENU_ICON`.
pub record Env : Type 0 where
  pub translate : String → String
  pub menu_icon : String

-- `i18nKey ? $t(i18nKey) : label`
abbrev pub label_of {ℓ} : {A : Type ℓ} → (String → A) → Option String → A → A
label_of t none label = label
label_of t (some key) label = if truthy key then t key else label

abbrev pub roles_of : RouteInfo → List String
roles_of r = elim (r.meta) [ none ↦ [] | some m ↦ m.roles ]

-- `Number(route.meta?.order) || 0`
abbrev pub order_of : RouteInfo → ℕ
order_of r = elim (r.meta) [ none ↦ 0 | some m ↦ get_or m.order 0 ]

-- `route.meta?.hideInMenu`
abbrev pub is_hidden : RouteInfo → Bool
is_hidden r = elim (r.meta) [ none ↦ false | some m ↦ m.hide_in_menu ]

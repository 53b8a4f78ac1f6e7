-- ===== src/Tab.antt =====
-- frontend/src/store/modules/tab/shared.ts: the tabs and the functions on lists of them. The types
-- are those of frontend/src/typings/app.d.ts.
pub mod Arranged
pub mod Store
pub mod Labels
use Prim.Native.String
use Prim.Native.String.{compare}
use Prim.Native.Nat.{Ordering}
use text.Mathlib.Text.{starts_with}
use smart_copilot.Common.{
  ℕ, String, Bool, true, false, not, ◌&&◌, ◌||◌, Option, none, some, List, [], ◌∷◌, ◌++◌, map, ◌==◌,
  if◌then◌else◌, filter, any, find?, includes, get_or, or_default, or_text, is_some,
}
use smart_copilot.Common.Sort.{sort}
use smart_copilot.Route.{RouteMeta, Env, label_of}
use smart_copilot.Route.Map.{get_route_path}

-- `undefined` and `null` are one missing value here: the code tells them apart nowhere.
pub record Tab : Type 0 where
  pub id : String
  pub label : String
  pub new_label : Option String
  pub old_label : Option String
  pub route_key : String
  pub route_path : String
  pub full_path : String
  pub fixed_index : Option ℕ
  pub icon : Option String
  pub local_icon : Option String
  pub i18n_key : Option String

-- A record that matched a location, with the parts of its metadata that are read.
pub record Matched : Type 0 where
  pub name : String
  pub icon : Option String
  pub local_icon : Option String

-- A query holds each key once; a value is the text that the template prints for it.
pub record TabRoute : Type 0 where
  pub name : String
  pub path : String
  pub meta : RouteMeta
  pub full_path : Option String
  pub query : List (String × String)
  pub matched : Option (List Matched)

abbrev pub ids : List Tab → List String
ids tabs = map (λ t. t.id) tabs

abbrev pub is_fixed_tab : Tab → Bool
is_fixed_tab tab = is_some tab.fixed_index

abbrev pub fixed_order : Tab → ℕ
fixed_order tab = get_or tab.fixed_index 0

-- `newLabel || oldLabel || label`
abbrev pub shown_label : Tab → String
shown_label tab = or_default tab.new_label (or_default tab.old_label tab.label)

abbrev pub update_label : Tab → Tab
update_label tab = record tab { label = shown_label tab }

abbrev pub update_tabs_label : List Tab → List Tab
update_tabs_label tabs = map update_label tabs

unfoldable pub get_all_tabs : List Tab → Option Tab → List Tab
get_all_tabs tabs none = []
get_all_tabs tabs (some home_tab) =
    let filter_home_tabs = filter (λ t. not (t.id == home_tab.id)) tabs in
    let fixed_tabs = sort fixed_order (filter is_fixed_tab filter_home_tabs) in
    let remain_tabs = filter (λ t. not (is_fixed_tab t)) filter_home_tabs in
    update_tabs_label (home_tab ∷ fixed_tabs ++ remain_tabs)

-- `Object.keys(query).sort()`, by code points.
abbrev insert_key : String → List String → List String
insert_key k [] = k ∷ []
insert_key k (j ∷ js) =
    let rest = insert_key k js in elim (compare k j) [ Ordering.gt ↦ j ∷ rest | _ ↦ k ∷ j ∷ js ]

abbrev pub sort_keys : List String → List String
sort_keys [] = []
sort_keys (k ∷ ks) = insert_key k (sort_keys ks)

abbrev pub value_at : List (String × String) → String → String
value_at [] key = "undefined"
value_at ((k, v) ∷ query) key = if k == key then v else value_at query key

abbrev pub join : String → List String → String
join sep [] = ""
join sep (s ∷ []) = s
join sep (s ∷ t ∷ ts) = String.◌++◌ s (String.◌++◌ sep (join sep (t ∷ ts)))

abbrev key_value : List (String × String) → String → String
key_value query key = String.◌++◌ key (String.◌++◌ "=" (value_at query key))

unfoldable pub get_tab_id_by_route : TabRoute → String
get_tab_id_by_route route =
    let qs = join "&" (map (key_value route.query) (sort_keys (map (λ e. e.0) route.query))) in
    if route.meta.multi_tab then String.◌++◌ route.path (String.◌++◌ "?" qs) else route.path

-- `currentRoute?.meta?.icon || icon` and `currentRoute?.meta?.localIcon`
abbrev icons_of_matched : Option Matched → String → String × Option String
icons_of_matched none icon = (icon, none)
icons_of_matched (some m) icon = (or_default m.icon icon, m.local_icon)

unfoldable pub get_route_icons : Env → TabRoute → String × Option String
get_route_icons e route =
    let icon = or_default route.meta.icon e.menu_icon in
    elim (route.matched) [
      | none ↦ (icon, route.meta.local_icon)
      | some ms ↦ icons_of_matched (find? (λ r. r.name == route.name) ms) icon
    ]

unfoldable pub get_tab_by_route : Env → TabRoute → Tab
get_tab_by_route e route =
    let (icon, local_icon) = get_route_icons e route in
    record {
      id = get_tab_id_by_route route;
      label = label_of e.translate route.meta.i18n_key route.meta.title;
      new_label = none;
      old_label = none;
      route_key = route.name;
      route_path = route.path;
      full_path = get_or route.full_path route.path;
      fixed_index = route.meta.fixed_index_in_tab;
      icon = some icon;
      local_icon = local_icon;
      i18n_key = route.meta.i18n_key;
    }

-- The path of a name of the route map; the type of the source admits no other name.
abbrev path_of : String → String
path_of name = get_or (get_route_path name) ""

-- `routes` is what the router lists.
unfoldable pub get_default_home_tab : Env → List TabRoute → String → Tab
get_default_home_tab e routes home_route_name =
    elim (find? (λ r. r.name == home_route_name) routes) [
      | some home_route ↦ get_tab_by_route e home_route
      | none ↦ record {
        id = path_of home_route_name;
        label = or_text (e.translate (String.◌++◌ "route." home_route_name)) home_route_name;
        new_label = none;
        old_label = none;
        route_key = home_route_name;
        route_path = path_of home_route_name;
        full_path = path_of home_route_name;
        fixed_index = none;
        icon = none;
        local_icon = none;
        i18n_key = none;
      }
    ]

abbrev pub is_tab_in_tabs : String → List Tab → Bool
is_tab_in_tabs tab_id tabs = any (λ t. t.id == tab_id) tabs

abbrev pub filter_tabs_by_ids : List String → List Tab → List Tab
filter_tabs_by_ids tab_ids tabs = filter (λ t. not (includes tab_ids t.id)) tabs

abbrev pub extract_tabs_by_all_routes : List TabRoute → List Tab → List Tab
extract_tabs_by_all_routes routes tabs =
    filter (λ t. includes (map (λ r. r.name) routes) t.route_key) tabs

abbrev pub get_fixed_tab_ids : List Tab → List String
get_fixed_tab_ids tabs = ids (filter is_fixed_tab tabs)

abbrev pub update_tab_by_i18n_key : Env → Tab → Tab
update_tab_by_i18n_key e tab = record tab { label = label_of e.translate tab.i18n_key tab.label }

abbrev pub update_tabs_by_i18n_key : Env → List Tab → List Tab
update_tabs_by_i18n_key e tabs = map (update_tab_by_i18n_key e) tabs

unfoldable pub find_tab_by_route_name : String → List Tab → Option Tab
find_tab_by_route_name name tabs =
    let route_path = path_of name in
    find? (λ t. t.id == route_path || starts_with t.id (String.◌++◌ route_path "?")) tabs

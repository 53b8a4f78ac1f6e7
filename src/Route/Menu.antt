-- ===== src/Route/Menu.antt =====
-- The global menus of frontend/src/store/modules/route/shared.ts: `getGlobalMenusByAuthRoutes`,
-- `getGlobalMenuByBaseRoute` and `updateLocaleOfGlobalMenus`.
pub mod Paths
pub mod Locale
use smart_copilot.Common.{
  zero, suc, ℕ, String, ◌≡◌, refl, Bool, true, false, ◌&&◌, ◌||◌, not, List, [], ◌∷◌, ◌++◌, map,
  arith, all, filter, any, Option, none, some, includes, if◌then◌else◌, filter-append, Bool-cases,
  inl, inr, ap, sym, ◌∙◌, get_or, map-append,
}
use smart_copilot.Common.Tree.{
  Tree, Forest, leaf, branch, nil, cons, forest, trees, root, paths, tree_paths, IsPruned,
  ArePruned,
}
use smart_copilot.Route.{
  RouteInfo, RouteMeta, Route, Routes, MenuInfo, Menu, Menus, Env, Icon, label_of, is_hidden,
}

-- `iconFontSize || 20`
abbrev or_twenty : Option ℕ → ℕ
or_twenty none = 20
or_twenty (some zero) = 20
or_twenty (some (suc n)) = suc n

-- The label, the translation key and the icon by the metadata; with none, the defaults.
meta_parts : Env → Option RouteMeta → Option String × Option String × Icon
meta_parts e none = (none, none, record { icon = e.menu_icon; local_icon = none; font_size = 20 })
meta_parts e (some m) = (
  label_of (λ k. some (e.translate k)) m.i18n_key (some m.title),
  m.i18n_key,
  record {
    icon = get_or m.icon e.menu_icon;
    local_icon = m.local_icon;
    font_size = or_twenty m.icon_font_size;
  },
)

unfoldable pub get_global_menu_by_base_route : Env → RouteInfo → MenuInfo
unfolding meta_parts
get_global_menu_by_base_route e r =
    let (label, i18n_key, icon) = meta_parts e r.meta in
    record {
      key = r.name;
      label = label;
      i18n_key = i18n_key;
      route_key = r.name;
      route_path = r.path;
      icon = icon;
    }

-- `route.children?.some(child => !child.meta?.hideInMenu)`
abbrev pub shows_some : Routes → Bool
shows_some nil = false
shows_some (cons t f) = not (is_hidden (root t)) || shows_some f

unfoldable mutual
  -- The menu of a route that is shown.
  pub menu_of : Env → Route → Menu
  menu_of e (leaf r) = leaf (get_global_menu_by_base_route e r)
  menu_of e (branch r children) =
      let menus = get_global_menus_by_auth_routes e children in
      if shows_some children
      then branch (get_global_menu_by_base_route e r) menus
      else leaf (get_global_menu_by_base_route e r)

  pub get_global_menus_by_auth_routes : Env → Routes → Menus
  get_global_menus_by_auth_routes e nil = nil
  get_global_menus_by_auth_routes e (cons t f) =
      let rest = get_global_menus_by_auth_routes e f in
      let menu = menu_of e t in if is_hidden (root t) then rest else cons menu rest

unfoldable mutual
  pub update_locale_of_menu : (String → String) → Menu → Menu
  update_locale_of_menu t (leaf m) =
      leaf (record m { label = label_of (λ k. some (t k)) m.i18n_key m.label })
  update_locale_of_menu t (branch m children) =
      branch (record m { label = label_of (λ k. some (t k)) m.i18n_key m.label })
        (update_locale_of_global_menus t children)

  pub update_locale_of_global_menus : (String → String) → Menus → Menus
  update_locale_of_global_menus t nil = nil
  update_locale_of_global_menus t (cons menu menus) =
      cons (update_locale_of_menu t menu) (update_locale_of_global_menus t menus)

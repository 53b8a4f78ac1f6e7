-- ===== src/Route/Menu/Locale.antt =====
-- Changing the language of the menus.
use smart_copilot.Common.{String, ◌≡◌, refl, ap, ap₂, some, arith, Bool-cases, inl, inr}
use smart_copilot.Common.Tree.{leaf, branch, nil, cons, root}
use smart_copilot.Route.{RouteInfo, Route, Routes, MenuInfo, Env, is_hidden, label_of}
use smart_copilot.Route.Menu.{
  get_global_menu_by_base_route, shows_some, menu_of, get_global_menus_by_auth_routes,
  update_locale_of_menu, update_locale_of_global_menus,
}

module _ (e : Env) (t : String → String) where
  abbrev other : Env
  other = record e { translate = t }

  relabel : MenuInfo → MenuInfo
  relabel m = record m { label = label_of (λ k. some (t k)) m.i18n_key m.label }

  relabel-menu :
      (r : RouteInfo)
      → relabel (get_global_menu_by_base_route e r) ≡ get_global_menu_by_base_route other r
  unfolding relabel get_global_menu_by_base_route
  relabel-menu r = ground arith

  mutual
    unfolding menu_of get_global_menus_by_auth_routes update_locale_of_menu
        update_locale_of_global_menus relabel

    update_locale-menu_of : (r : Route) → update_locale_of_menu t (menu_of e r) ≡ menu_of other r
    update_locale-menu_of (leaf r) = ap leaf (relabel-menu r)
    update_locale-menu_of (branch r f) = elim (Bool-cases (shows_some f)) [
      | inl shown ↦ rw shown (ap₂ branch (relabel-menu r) (update_locale-menus f))
      | inr none_shown ↦ rw none_shown (ap leaf (relabel-menu r))
    ]

    update_locale-menus :
        (f : Routes)
        → update_locale_of_global_menus t (get_global_menus_by_auth_routes e f)
          ≡ get_global_menus_by_auth_routes other f
    update_locale-menus nil = refl
    update_locale-menus (cons r f) = elim (Bool-cases (is_hidden (root r))) [
      | inl hidden ↦ rw hidden (update_locale-menus f)
      | inr shown ↦ rw shown (ap₂ cons (update_locale-menu_of r) (update_locale-menus f))
    ]

-- Relabelling the menus for another language gives the menus that the routes give in it.
pub update_locale-get_global_menus :
    (e : Env) (t : String → String) (routes : Routes)
    → update_locale_of_global_menus t (get_global_menus_by_auth_routes e routes)
      ≡ get_global_menus_by_auth_routes (record e { translate = t }) routes
update_locale-get_global_menus e t routes = update_locale-menus e t routes

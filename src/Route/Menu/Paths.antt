-- ===== src/Route/Menu/Paths.antt =====
-- Which ways through the menus there are: those through the shown routes.
use smart_copilot.Common.{
  ◌≡◌, refl, Bool, true, false, not, [], map, arith, all, filter, filter-append,
  filter-all-map_cons, map-map_cons, Bool-cases, inl, inr, map-append,
}
use smart_copilot.Common.Tree.{leaf, branch, nil, cons, root, paths, tree_paths}
use smart_copilot.Route.{RouteInfo, Route, Routes, MenuInfo, Env, is_hidden}
use smart_copilot.Route.Menu.{
  get_global_menu_by_base_route, shows_some, menu_of, get_global_menus_by_auth_routes,
}

abbrev pub is_shown : RouteInfo → Bool
is_shown r = not (is_hidden r)

tree_paths_hidden :
    (t : Route) → is_hidden (root t) ≡ true → filter (all is_shown) (tree_paths t) ≡ []
unfolding tree_paths
tree_paths_hidden (leaf r) h = ground arith
tree_paths_hidden (branch r f) h = ground (arith, filter-all-map_cons is_shown r (paths f))

paths_hidden : (f : Routes) → shows_some f ≡ false → filter (all is_shown) (paths f) ≡ []
unfolding paths
paths_hidden nil h = refl
paths_hidden (cons t f) h =
    rw (filter-append (all is_shown) (tree_paths t) (paths f))
      (ground (arith, tree_paths_hidden t, paths_hidden f))

module _ (e : Env) where
  abbrev menu : RouteInfo → MenuInfo
  menu = get_global_menu_by_base_route e

  mutual
    unfolding menu_of get_global_menus_by_auth_routes paths tree_paths

    tree_paths-menu_of :
        (t : Route)
        → is_hidden (root t) ≡ false
        → tree_paths (menu_of e t) ≡ map (map menu) (filter (all is_shown) (tree_paths t))
    tree_paths-menu_of (leaf r) h = ground arith
    tree_paths-menu_of (branch r f) h = elim (Bool-cases (shows_some f)) [
      | inl some_shown ↦ rw (
        some_shown,
        filter-all-map_cons is_shown r (paths f),
        h,
        map-map_cons menu r (filter (all is_shown) (paths f)),
        ← paths-menus f,
      )
      | inr none_shown ↦
          rw (none_shown, filter-all-map_cons is_shown r (paths f), h, paths_hidden f none_shown)
    ]

    paths-menus :
        (f : Routes)
        → paths (get_global_menus_by_auth_routes e f)
          ≡ map (map menu) (filter (all is_shown) (paths f))
    paths-menus nil = refl
    paths-menus (cons t f) = elim (Bool-cases (is_hidden (root t))) [
      | inl hidden ↦
          rw
            (
              hidden,
              filter-append (all is_shown) (tree_paths t) (paths f),
              tree_paths_hidden t hidden,
            )
            (paths-menus f)
      | inr shown ↦ rw (
        shown,
        filter-append (all is_shown) (tree_paths t) (paths f),
        map-append (map menu) (filter (all is_shown) (tree_paths t))
            (filter (all is_shown) (paths f)),
        ← tree_paths-menu_of t shown,
        ← paths-menus f,
      )
    ]

-- The ways from a root to a menu are the ways from a root to a route on which no route is hidden,
-- in their order, each route turned into its menu.
pub paths-get_global_menus :
    (e : Env) (routes : Routes)
    → paths (get_global_menus_by_auth_routes e routes)
      ≡ map (map (get_global_menu_by_base_route e)) (filter (all is_shown) (paths routes))
paths-get_global_menus e routes = paths-menus e routes

-- ===== src/Route/Search.antt =====
-- `transformMenuToSearchMenus` and the breadcrumbs of frontend/src/store/modules/route/shared.ts.
use smart_copilot.Common.{◌≡◌, refl, ◌∙◌, List, [], ◌∷◌, ◌++◌, append_assoc, append-nil}
use smart_copilot.Common.Tree.{leaf, branch, nil, cons, leaves, tree_leaves}
use smart_copilot.Route.{MenuInfo, Menu, Menus}

mutual
  search_menu : Menu → List MenuInfo → List MenuInfo
  search_menu (leaf cur) acc = acc ++ cur ∷ []
  search_menu (branch cur children) acc = search_menus children acc

  -- The loop of `reduce`; a nested call pushes on to the same array `treeMap`.
  search_menus : Menus → List MenuInfo → List MenuInfo
  search_menus nil acc = acc
  search_menus (cons menu menus) acc = search_menus menus (search_menu menu acc)

pub transform_menu_to_search_menus : Menus → List MenuInfo → List MenuInfo
unfolding search_menus
transform_menu_to_search_menus nil tree_map = []
transform_menu_to_search_menus (cons menu menus) tree_map = search_menus (cons menu menus) tree_map

mutual
  unfolding search_menu search_menus leaves tree_leaves

  search_menu_lem : (m : Menu) (acc : List MenuInfo) → search_menu m acc ≡ acc ++ tree_leaves m
  search_menu_lem (leaf m) acc = refl
  search_menu_lem (branch m f) acc = search_menus_lem f acc

  search_menus_lem : (f : Menus) (acc : List MenuInfo) → search_menus f acc ≡ acc ++ leaves f
  search_menus_lem nil acc = rw append-nil
  search_menus_lem (cons m f) acc =
      search_menus_lem f (search_menu m acc)
      ∙ rw (search_menu_lem m acc, append_assoc acc (tree_leaves m) (leaves f)) refl

-- The search menus are the menus without children, from the first to the last.
pub transform_menu_to_search_menus_lem :
    (menus : Menus) → transform_menu_to_search_menus menus [] ≡ leaves menus
unfolding transform_menu_to_search_menus leaves
transform_menu_to_search_menus_lem nil = refl
transform_menu_to_search_menus_lem (cons menu menus) = search_menus_lem (cons menu menus) []

-- ===== src/Route/KeyPath.antt =====
-- `isRouteExistByRouteName`, `findMenuPath` and `getSelectedMenuKeyPathByKey` of
-- frontend/src/store/modules/route/shared.ts: searches through a tree by a key.
use smart_copilot.Common.{
  String, ◌≡◌, refl, ap, ◌∙◌, Bool, true, false, ◌||◌, List, [], ◌∷◌, ◌++◌, map, arith, Option,
  none, some, ◌==◌, if◌then◌else◌, find?, any, find?-append, find?-sound, any-append, ends_at,
  find?-map_cons, any-map_cons, drop_last, drop_last-concat, Bool-cases, Option-cases, inl, inr,
  append_assoc,
}
use smart_copilot.Common.Tree.{leaf, branch, nil, cons, paths, tree_paths}
use smart_copilot.Route.{Route, Routes, MenuInfo, Menu, Menus}

unfoldable mutual
  -- `recursiveGetIsRouteExistByRouteName`
  pub is_route_exist : Route → String → Bool
  is_route_exist (leaf r) name = r.name == name
  is_route_exist (branch r children) name =
      if r.name == name then true else is_route_exist_by_route_name name children

  pub is_route_exist_by_route_name : String → Routes → Bool
  is_route_exist_by_route_name name nil = false
  is_route_exist_by_route_name name (cons t f) =
      is_route_exist t name || is_route_exist_by_route_name name f

mutual
  unfolding is_route_exist is_route_exist_by_route_name paths tree_paths

  is_route_exist_lem :
      (t : Route) (name : String)
      → is_route_exist t name ≡ any (ends_at (λ r. r.name) name) (tree_paths t)
  is_route_exist_lem (leaf r) name = ground arith
  is_route_exist_lem (branch r f) name = elim (Bool-cases (r.name == name)) [
    | inl here ↦ rw here refl
    | inr other ↦
        rw (other, any-map_cons (λ r. r.name) name r (paths f) other) (is_route_exist-paths name f)
  ]

  is_route_exist-paths :
      (name : String) (f : Routes)
      → is_route_exist_by_route_name name f ≡ any (ends_at (λ r. r.name) name) (paths f)
  is_route_exist-paths name nil = refl
  is_route_exist-paths name (cons t f) = rw (
    any-append (ends_at (λ r. r.name) name) (tree_paths t) (paths f),
    is_route_exist_lem t name,
    is_route_exist-paths name f,
  )

-- The search finds a name exactly when some way from a root ends at a route of this name.
pub is_route_exist_by_route_name_lem :
    (name : String) (routes : Routes)
    → is_route_exist_by_route_name name routes ≡ any (ends_at (λ r. r.name) name) (paths routes)
is_route_exist_by_route_name_lem name routes = is_route_exist-paths name routes

unfoldable mutual
  -- The inner `dfs`, which pushes on and pops from the shared `path`.
  pub dfs : String → Menu → List String → Bool × List String
  dfs target (leaf item) path =
      let here = path ++ item.key ∷ [] in
      if item.key == target then (true, here) else (false, drop_last here)
  dfs target (branch item children) path =
      let here = path ++ item.key ∷ [] in
      let rest = dfs_children target children here in
      if item.key == target
      then (true, here)
      else if rest.0
      then (true, rest.1)
      else (false, drop_last rest.1)

  pub dfs_children : String → Menus → List String → Bool × List String
  dfs_children target nil path = (false, path)
  dfs_children target (cons child children) path =
      let first = dfs target child path in
      let rest = dfs_children target children first.1 in if first.0 then first else rest

unfoldable pub find_menu_path : String → Menu → Option (List String)
unfolding dfs dfs_children
find_menu_path target menu = let r = dfs target menu [] in if r.0 then some r.1 else none

abbrev is_nonempty : List String → Bool
is_nonempty [] = false
is_nonempty (_ ∷ _) = true

unfoldable pub get_selected_menu_key_path_by_key : String → Menus → List String
get_selected_menu_key_path_by_key selected_key nil = []
get_selected_menu_key_path_by_key selected_key (cons menu menus) =
    let rest = get_selected_menu_key_path_by_key selected_key menus in
    elim (find_menu_path selected_key menu) [
      | none ↦ rest
      | some path ↦ if is_nonempty path then path else rest
    ]

module _ (target : String) where
  abbrev pub is_target : List MenuInfo → Bool
  is_target = ends_at (λ m. m.key) target

  abbrev pub keys : List MenuInfo → List String
  keys = map (λ m. m.key)

  abbrev outcome : List String → Option (List MenuInfo) → Bool × List String
  outcome path none = (false, path)
  outcome path (some way) = (true, path ++ keys way)

  outcome-branch :
      (m : MenuInfo) (path : List String) (o : Option (List MenuInfo))
      → (let rest = outcome (path ++ m.key ∷ []) o in
          if rest.0 then (true, rest.1) else (false, drop_last rest.1))
        ≡ outcome path (elim o [ none ↦ none | some way ↦ some (m ∷ way) ])
  outcome-branch m path none = ap (λ p. (false, p)) (drop_last-concat path m.key)
  outcome-branch m path (some way) = ap (λ p. (true, p)) (append_assoc path (m.key ∷ []) (keys way))

  outcome-cons :
      (path : List String) (o o' : Option (List MenuInfo))
      → (let first = outcome path o in
          let rest = outcome first.1 o' in if first.0 then first else rest)
        ≡ outcome path (elim o [ none ↦ o' | some way ↦ some way ])
  outcome-cons path none o' = refl
  outcome-cons path (some way) o' = refl

  mutual
    unfolding dfs dfs_children paths tree_paths

    dfs_lem :
        (m : Menu) (path : List String)
        → dfs target m path ≡ outcome path (find? is_target (tree_paths m))
    dfs_lem (leaf m) path = elim (Bool-cases (m.key == target)) [
      | inl here ↦ rw here refl
      | inr other ↦ rw (other, drop_last-concat path m.key) refl
    ]
    dfs_lem (branch m f) path = elim (Bool-cases (m.key == target)) [
      | inl here ↦ rw here refl
      | inr other ↦
          rw
            (
              other,
              dfs_children_lem f (path ++ m.key ∷ []),
              find?-map_cons (λ m. m.key) target m (paths f) other,
            )
            (outcome-branch m path (find? is_target (paths f)))
    ]

    dfs_children_lem :
        (f : Menus) (path : List String)
        → dfs_children target f path ≡ outcome path (find? is_target (paths f))
    dfs_children_lem nil path = refl
    dfs_children_lem (cons m f) path =
        rw
          (
            dfs_lem m path,
            dfs_children_lem f (outcome path (find? is_target (tree_paths m))).1,
            find?-append is_target (tree_paths m) (paths f),
          )
          (outcome-cons path (find? is_target (tree_paths m)) (find? is_target (paths f)))

  abbrev pub keys_or_nil : Option (List MenuInfo) → List String
  keys_or_nil none = []
  keys_or_nil (some way) = keys way

  is_nonempty-keys : (way : List MenuInfo) → is_target way ≡ true → is_nonempty (keys way) ≡ true
  is_nonempty-keys [] h = cc
  is_nonempty-keys (m ∷ way) h = refl

  find_menu_path_lem :
      (m : Menu)
      → find_menu_path target m
        ≡ (elim (find? is_target (tree_paths m)) [ none ↦ none | some way ↦ some (keys way) ])
  unfolding find_menu_path
  find_menu_path_lem m = rw (dfs_lem m []) (ground arith)

  selected_lem :
      (f : Menus)
      → get_selected_menu_key_path_by_key target f ≡ keys_or_nil (find? is_target (paths f))
  unfolding get_selected_menu_key_path_by_key paths
  selected_lem nil = refl
  selected_lem (cons m f) = elim (Option-cases (find? is_target (tree_paths m))) [
    | inl missed ↦
        let not_here : find_menu_path target m ≡ none = find_menu_path_lem m ∙ rw missed in
        rw (find?-append is_target (tree_paths m) (paths f), missed)
          (rw (not_here, get_selected_menu_key_path_by_key) (selected_lem f))
    | inr (way, found) ↦
        let here : find_menu_path target m ≡ some (keys way) = find_menu_path_lem m ∙ rw found in
        rw (find?-append is_target (tree_paths m) (paths f), found)
          (rw
            (
              here,
              get_selected_menu_key_path_by_key,
              is_nonempty-keys way (find?-sound is_target (tree_paths m) way found),
            )
            refl)
  ]

-- The selected key path is the keys of the first way, in the order of the menus, from a root to a
-- menu with the selected key; where no menu has the key, it is empty.
pub get_selected_menu_key_path_lem :
    (selected_key : String) (menus : Menus)
    → get_selected_menu_key_path_by_key selected_key menus
      ≡ keys_or_nil selected_key (find? (is_target selected_key) (paths menus))
get_selected_menu_key_path_lem selected_key menus = selected_lem selected_key menus

-- ===== src/Route/Access.antt =====
-- `filterAuthRoutesByRoles` of frontend/src/store/modules/route/shared.ts, and which ways through
-- the routes it leaves open.
use smart_copilot.Common.{
  String, ◌≡◌, refl, Bool, true, false, ◌||◌, List, [], ◌∷◌, ◌++◌, map, arith, all, filter,
  includes, if◌then◌else◌, filter-append, filter-all-map_cons, append-nil, Bool-cases, inl, inr,
  ◌∙◌,
}
use smart_copilot.Common.Tree.{
  leaf, branch, nil, cons, forest, chains, tree_chains, IsPruned, ArePruned, chains-forest_append,
  ArePruned-forest_append,
}
use smart_copilot.Route.{RouteInfo, Route, Routes, roles_of}

abbrev pub is_empty {ℓ} : {A : Type ℓ} → List A → Bool
is_empty [] = true
is_empty (_ ∷ _) = false

-- `hasPermission || isEmptyRoles`
abbrev pub allows : String → RouteInfo → Bool
allows role r = includes (roles_of r) role || is_empty (roles_of r)

unfoldable mutual
  pub filter_auth_route_by_roles : Route → String → List Route
  filter_auth_route_by_roles (leaf r) role = if allows role r then leaf r ∷ [] else []
  filter_auth_route_by_roles (branch r children) role =
      let kept = filter_auth_routes_by_roles children role in
      if is_empty kept then [] else if allows role r then branch r (forest kept) ∷ [] else []

  pub filter_auth_routes_by_roles : Routes → String → List Route
  filter_auth_routes_by_roles nil role = []
  filter_auth_routes_by_roles (cons t f) role =
      filter_auth_route_by_roles t role ++ filter_auth_routes_by_roles f role

module _ (role : String) where
  -- What is left of one node, when the filter of its children is known.
  chains-branch :
      (r : RouteInfo) (kept : List Route) (open_ways : List (List RouteInfo))
      → chains (forest kept) ≡ filter (all (allows role)) open_ways
      → chains (
          forest (
            if is_empty kept
            then []
            else if allows role r
            then branch r (forest kept) ∷ []
            else []))
        ≡ filter (all (allows role)) (map (◌∷◌ r) open_ways)
  unfolding chains
  chains-branch r [] open_ways h =
      rw (filter-all-map_cons (allows role) r open_ways, ← h) (ground arith)
  chains-branch r (k ∷ kept) open_ways h = elim (Bool-cases (allows role r)) [
    | inl open_here ↦
        rw (filter-all-map_cons (allows role) r open_ways, open_here, ← h) (append-nil _)
    | inr shut ↦ rw (filter-all-map_cons (allows role) r open_ways, shut)
  ]

  ArePruned-branch :
      (r : RouteInfo) (kept : List Route)
      → ArePruned (forest kept)
      → ArePruned (
          forest (
            if is_empty kept
            then []
            else if allows role r
            then branch r (forest kept) ∷ []
            else []))
  unfolding ArePruned
  ArePruned-branch r [] h = tt
  ArePruned-branch r (k ∷ kept) h = elim (Bool-cases (allows role r)) [
    | inl open_here ↦ rw open_here (h, tt)
    | inr shut ↦ rw shut tt
  ]

  mutual
    unfolding filter_auth_route_by_roles filter_auth_routes_by_roles chains tree_chains

    chains-filter_route :
        (t : Route)
        → chains (forest (filter_auth_route_by_roles t role))
          ≡ filter (all (allows role)) (tree_chains t)
    chains-filter_route (leaf r) = ground arith
    chains-filter_route (branch r children) =
        chains-branch r (filter_auth_routes_by_roles children role) (chains children)
          (chains-filter_routes children)

    chains-filter_routes :
        (f : Routes)
        → chains (forest (filter_auth_routes_by_roles f role))
          ≡ filter (all (allows role)) (chains f)
    chains-filter_routes nil = refl
    chains-filter_routes (cons t f) =
        chains-forest_append (filter_auth_route_by_roles t role)
          (filter_auth_routes_by_roles f role)
        ∙ rw (
          filter-append (all (allows role)) (tree_chains t) (chains f),
          chains-filter_route t,
          chains-filter_routes f,
        )

  mutual
    unfolding filter_auth_route_by_roles filter_auth_routes_by_roles ArePruned IsPruned

    filter_route-ArePruned : (t : Route) → ArePruned (forest (filter_auth_route_by_roles t role))
    filter_route-ArePruned (leaf r) = elim (Bool-cases (allows role r)) [
      | inl open_here ↦ rw open_here (tt, tt)
      | inr shut ↦ rw shut tt
    ]
    filter_route-ArePruned (branch r children) =
        ArePruned-branch r (filter_auth_routes_by_roles children role)
          (filter_routes-ArePruned children)

    filter_routes-ArePruned : (f : Routes) → ArePruned (forest (filter_auth_routes_by_roles f role))
    filter_routes-ArePruned nil = tt
    filter_routes-ArePruned (cons t f) =
        ArePruned-forest_append _ _ (filter_route-ArePruned t) (filter_routes-ArePruned f)

-- The ways from a root to a leaf that the filter leaves are those ways, in their order, on which
-- every route either has no roles or names the user's role.
pub chains-filter_auth_routes :
    (routes : Routes) (role : String)
    → chains (forest (filter_auth_routes_by_roles routes role))
      ≡ filter (all (allows role)) (chains routes)
chains-filter_auth_routes routes role = chains-filter_routes role routes

-- The filter leaves no route with an empty list of children.
pub filter_auth_routes-ArePruned :
    (routes : Routes) (role : String) → ArePruned (forest (filter_auth_routes_by_roles routes role))
filter_auth_routes-ArePruned routes role = filter_routes-ArePruned role routes

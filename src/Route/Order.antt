-- ===== src/Route/Order.antt =====
-- `sortRoutesByOrder` of frontend/src/store/modules/route/shared.ts. The source sorts a list of
-- routes and then the children of each; here the children come first, which gives the same lists,
-- since the sort reads only the order of a route, and this pass leaves that.
use smart_copilot.Common.{
  ◌≡◌, refl, List, [], ◌∷◌, ◌++◌, ℕ, append_assoc, Bool-cases, inl, inr, leb,
}
use smart_copilot.Common.Sort.{sort, insert, sort-IsSorted, IsSorted}
use smart_copilot.Common.Tree.{
  leaf, branch, nil, cons, root, forest, trees, chains, tree_chains, trees-forest,
}
use smart_copilot.Route.{RouteInfo, Route, Routes, order_of}
use mathlib.Core.List.{Perm, perm_append_comm}
use mathlib.Core.List.Perm

abbrev pub root_order : Route → ℕ
root_order t = order_of (root t)

unfoldable mutual
  pub sort_route_by_order : Route → Route
  sort_route_by_order (leaf r) = leaf r
  sort_route_by_order (branch r children) = branch r (forest (sort root_order (sort_each children)))

  -- `routes.forEach(sortRouteByOrder)`
  pub sort_each : Routes → List Route
  sort_each nil = []
  sort_each (cons t f) = sort_route_by_order t ∷ sort_each f

unfoldable pub sort_routes_by_order : Routes → List Route
sort_routes_by_order routes = sort root_order (sort_each routes)

root-sort_route : (t : Route) → root (sort_route_by_order t) ≡ root t
unfolding sort_route_by_order
root-sort_route (leaf r) = refl
root-sort_route (branch r f) = refl

-- At every level the routes stand by their order.
unfoldable mutual
  pub IsOrdered : Route → Type 0
  IsOrdered (leaf r) = Unit
  IsOrdered (branch r f) = IsSorted root_order (trees f) × AreOrdered f

  pub AreOrdered : Routes → Type 0
  AreOrdered nil = Unit
  AreOrdered (cons t f) = IsOrdered t × AreOrdered f

AreOrdered-insert :
    (t : Route) (ts : List Route)
    → IsOrdered t
    → AreOrdered (forest ts)
    → AreOrdered (forest (insert root_order t ts))
unfolding AreOrdered insert
AreOrdered-insert t [] h k = (h, tt)
AreOrdered-insert t (u ∷ ts) h (k, ks) = elim (Bool-cases (leb (root_order t) (root_order u))) [
  | inl le ↦ rw le (h, (k, ks))
  | inr gt ↦ rw gt (k, AreOrdered-insert t ts h ks)
]

AreOrdered-sort :
    (ts : List Route) → AreOrdered (forest ts) → AreOrdered (forest (sort root_order ts))
unfolding AreOrdered sort
AreOrdered-sort [] h = tt
AreOrdered-sort (t ∷ ts) (h, hs) =
    AreOrdered-insert t (sort root_order ts) h (AreOrdered-sort ts hs)

mutual
  unfolding sort_route_by_order sort_each IsOrdered AreOrdered

  sort_route-IsOrdered : (t : Route) → IsOrdered (sort_route_by_order t)
  sort_route-IsOrdered (leaf r) = tt
  sort_route-IsOrdered (branch r f) = (
    rw (trees-forest (sort root_order (sort_each f))) (sort-IsSorted root_order (sort_each f)),
    AreOrdered-sort (sort_each f) (sort_each-AreOrdered f),
  )

  sort_each-AreOrdered : (f : Routes) → AreOrdered (forest (sort_each f))
  sort_each-AreOrdered nil = tt
  sort_each-AreOrdered (cons t f) = (sort_route-IsOrdered t, sort_each-AreOrdered f)

-- After the sort the routes of every level stand by their order.
pub sort_routes-AreOrdered :
    (routes : Routes)
    → IsSorted root_order (sort_routes_by_order routes)
      × AreOrdered (forest (sort_routes_by_order routes))
unfolding sort_routes_by_order
sort_routes-AreOrdered routes = (
  sort-IsSorted root_order (sort_each routes),
  AreOrdered-sort (sort_each routes) (sort_each-AreOrdered routes),
)

append-swap : (xs ys zs : List (List RouteInfo)) → Perm (xs ++ (ys ++ zs)) (ys ++ (xs ++ zs))
append-swap xs ys zs =
    rw (← append_assoc xs ys zs, ← append_assoc ys xs zs)
      (Perm.append (perm_append_comm xs ys) (Perm.refl zs))

-- Permuted trees have permuted chains.
chains-insert :
    (t : Route) (ts : List Route)
    → Perm (chains (forest (insert root_order t ts))) (tree_chains t ++ chains (forest ts))
unfolding insert chains
chains-insert t [] = Perm.refl _
chains-insert t (u ∷ ts) = elim (Bool-cases (leb (root_order t) (root_order u))) [
  | inl le ↦ rw le (Perm.refl _)
  | inr gt ↦ rw gt (
      Perm.trans (Perm.append (Perm.refl (tree_chains u)) (chains-insert t ts))
        (append-swap (tree_chains u) (tree_chains t) (chains (forest ts))))
]

chains-sort : (ts : List Route) → Perm (chains (forest (sort root_order ts))) (chains (forest ts))
unfolding sort chains
chains-sort [] = Perm.refl _
chains-sort (t ∷ ts) =
    Perm.trans (chains-insert t (sort root_order ts))
      (Perm.append (Perm.refl (tree_chains t)) (chains-sort ts))

mutual
  unfolding sort_route_by_order sort_each chains tree_chains

  chains-sort_route : (t : Route) → Perm (tree_chains (sort_route_by_order t)) (tree_chains t)
  chains-sort_route (leaf r) = Perm.refl _
  chains-sort_route (branch r f) =
      Perm.map (◌∷◌ r) (Perm.trans (chains-sort (sort_each f)) (chains-sort_each f))

  chains-sort_each : (f : Routes) → Perm (chains (forest (sort_each f))) (chains f)
  chains-sort_each nil = Perm.refl _
  chains-sort_each (cons t f) = Perm.append (chains-sort_route t) (chains-sort_each f)

-- The sort keeps the ways from a root to a leaf, each as often as before.
pub chains-sort_routes :
    (routes : Routes) → Perm (chains (forest (sort_routes_by_order routes))) (chains routes)
unfolding sort_routes_by_order
chains-sort_routes routes = Perm.trans (chains-sort (sort_each routes)) (chains-sort_each routes)

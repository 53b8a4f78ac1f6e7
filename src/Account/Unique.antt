-- ===== src/Account/Unique.antt =====
-- The lists of routes by name that `addConstantRoutes` and `addAuthRoutes` of
-- frontend/src/store/modules/route/index.ts build.
use smart_copilot.Common.{
  String, ◌≡◌, refl, ap, ◌∙◌, Bool, true, ◌||◌, Option, none, some, List, [], ◌∷◌, ◌==◌, map, arith,
  if◌then◌else◌, find?, distinct, includes, eq_iff,
}
use smart_copilot.Route.{Route}
use smart_copilot.Chat.Snapshot.{get_last_such?}
use smart_copilot.Account.Registry.{name_of, set_route, set_routes, routes_by_name}

abbrev pub has_name : String → Route → Bool
has_name name t = name_of t == name

includes-set_route :
    (t : Route) (us : List Route) (name : String)
    → includes (map name_of (set_route t us)) name
      ≡ (includes (map name_of us) name || name_of t == name)
unfolding set_route
includes-set_route t [] name = ground arith
includes-set_route t (u ∷ us) name =
    ground (arith, includes-set_route t us name, eq_iff (name_of u) (name_of t))

distinct-set_route :
    (t : Route) (us : List Route)
    → distinct (map name_of us) ≡ true
    → distinct (map name_of (set_route t us)) ≡ true
unfolding set_route
distinct-set_route t [] d = refl
distinct-set_route t (u ∷ us) d = ground (
  arith,
  distinct-set_route t us,
  includes-set_route t us (name_of u),
  eq_iff (name_of u) (name_of t),
  eq_iff (name_of t) (name_of u),
  ap (includes (map name_of us)),
)

distinct-set_routes :
    (ts us : List Route)
    → distinct (map name_of us) ≡ true
    → distinct (map name_of (set_routes ts us)) ≡ true
unfolding set_routes
distinct-set_routes [] us d = d
distinct-set_routes (t ∷ ts) us d =
    distinct-set_routes ts (set_route t us) (distinct-set_route t us d)

find?-set_route :
    (name : String) (t : Route) (us : List Route)
    → find? (has_name name) (set_route t us)
      ≡ (if has_name name t then some t else find? (has_name name) us)
unfolding set_route
find?-set_route name t [] = refl
find?-set_route name t (u ∷ us) = ground (
  arith,
  find?-set_route name t us,
  eq_iff (name_of u) (name_of t),
  eq_iff (name_of u) name,
  eq_iff (name_of t) name,
)

find?-set_routes :
    (name : String) (ts us : List Route)
    → find? (has_name name) (set_routes ts us) ≡ elim (get_last_such? (has_name name) ts) [
      | none ↦ find? (has_name name) us
      | some t ↦ some t
    ]
unfolding set_routes get_last_such?
find?-set_routes name [] us = refl
find?-set_routes name (t ∷ ts) us =
    find?-set_routes name ts (set_route t us) ∙ ground (arith, find?-set_route name t us)

or_none {ℓ} :
    {A : Type ℓ} (o : Option A) → elim o as (λ _. Option A) [ none ↦ none | some a ↦ some a ] ≡ o
or_none none = refl
or_none (some a) = refl

-- The routes that are added have different names, and under each name stands the last of the routes
-- of this name.
pub routes_by_name_lem :
    (routes : List Route) (name : String)
    → (distinct (map name_of (routes_by_name routes)) ≡ true)
      × (find? (has_name name) (routes_by_name routes) ≡ get_last_such? (has_name name) routes)
unfolding routes_by_name
routes_by_name_lem routes name =
    (distinct-set_routes routes [] refl, find?-set_routes name routes [] ∙ or_none _)

-- ===== src/Account/Guard/Laws.antt =====
-- Whom the guard of frontend/src/router/guard/route.ts lets through, and where it sends the others.
use smart_copilot.Common.{
  ◌≡◌, refl, ap, ◌∙◌, Bool, true, false, not, ◌&&◌, ◌||◌, Option, none, some, ◌==◌, arith,
  if◌then◌else◌, if-both, if-true, if-false, Bool-cases, inl, inr,
}
use smart_copilot.Account.{Config, App, Server, Router, has_token}
use smart_copilot.Account.Registry.{init_constant_route, get_is_auth_route_exist}
use smart_copilot.Account.Guard.{
  To, Location, Outcome, guard, init_route, decide, handle_route_switch, has_auth, after_init,
  by_name, next, next_to, open_window, itself, get_route_query_of_login_route, is_not_found,
  when_missing, start_refresh,
}

-- Whether a navigation goes on to its location, or to the window of its `href`.
abbrev pub enters : Outcome → Bool
enters next = true
enters (next_to location) = false
enters (open_window href location) = true

-- A constant route is open to all; else a token and a role are needed.
abbrev pub may_enter : Config → To → App → Bool
may_enter cfg to a = to.constant || has_token a && has_auth cfg to a

decide-may_enter :
    (cfg : Config) (to from : To) (a : App)
    → enters (decide cfg to from a) ≡ true
    → may_enter cfg to a ≡ true
unfolding decide
decide-may_enter cfg to from a h = ground arith

module _ {W : Type 0} (cfg : Config) (server : Server W) (router : Router W) where
  after_init-may_enter :
      (to from : To) (r : (W × App) × Option Location)
      → enters (after_init cfg server router to from r).1 ≡ true
      → may_enter cfg to (after_init cfg server router to from r).0.1 ≡ true
  after_init-may_enter to from (wa, none) h = decide-may_enter cfg to from wa.1 h
  after_init-may_enter to from (wa, some location) h = cc

  -- Where the guard lets a navigation through, the route is constant or, in the state that the guard
  -- leaves, there is a token and the user may use the route by role.
  pub guard-may_enter :
      (to from : To) (wa : W × App)
      → enters (guard cfg server router to from wa).1 ≡ true
      → may_enter cfg to (guard cfg server router to from wa).0.1 ≡ true
  unfolding guard
  guard-may_enter to from wa h = after_init-may_enter to from (init_route cfg server router to wa) h

  -- Without a token a route that is not constant leads to the login page, once the constant routes are there.
  pub guard-login :
      (to from : To) (w : W) (a : App)
      → a.routes.is_init_constant_route ≡ true
      → has_token a ≡ false
      → to.constant ≡ false
      → guard cfg server router to from (w, a) ≡ (
        (w, a),
        next_to (by_name "login" (get_route_query_of_login_route to a.routes.route_home)),
      )
  unfolding guard init_route
  guard-login to from w a i t c = ap (after_init cfg server router to from) (
      if-false _ _ (ap not i)
      ∙ if-false _ _ t
      ∙ ap (λ o. ((w, a), o)) (if-false _ _ (ap (λ b. b && not (is_not_found to)) c)))

  abbrev flag : W × App → Bool
  flag wa = wa.1.routes.is_init_constant_route

  init_constant_route-flag :
      (w : W) (a : App)
      → (init_constant_route cfg server (w, a)).1.routes.is_init_constant_route ≡ true
  unfolding init_constant_route
  init_constant_route-flag w a = elim (Bool-cases (a.routes.is_init_constant_route)) [
    | inl done ↦ ap flag (if-true _ _ done) ∙ done
    | inr open_ ↦ ap flag (if-false _ _ open_) ∙ if-both flag cfg.is_static refl refl
  ]

  -- Before the constant routes are initialised a navigation is sent once more to where it went, and
  -- then they are.
  pub guard-initialises :
      (to from : To) (w : W) (a : App)
      → a.routes.is_init_constant_route ≡ false
      → ((guard cfg server router to from (w, a)).1 ≡ next_to (itself to))
        × ((guard cfg server router to from (w, a)).0.1.routes.is_init_constant_route ≡ true)
  unfolding guard init_route
  guard-initialises to from w a i =
      let first : init_route cfg server router to (w, a)
          ≡ (init_constant_route cfg server (w, a), some (itself to)) =
        if-true _ _ (ap not i) in
      (
        ap (λ r. (after_init cfg server router to from r).1) first,
        ap (λ r. flag (after_init cfg server router to from r).0) first
            ∙ init_constant_route-flag w a,
      )

  ready :
      (to : To) (w : W) (a : App)
      → a.routes.is_init_constant_route ≡ true
      → has_token a ≡ true
      → a.routes.is_init_auth_route ≡ true
      → init_route cfg server router to (w, a) ≡ (
          if is_not_found to
          then when_missing cfg server router to (w, start_refresh a)
          else ((w, start_refresh a), none))
  unfolding init_route
  ready to w a i t r = if-false _ _ (ap not i) ∙ if-true _ _ t ∙ if-true _ _ r

  -- With a token and all routes there, a user without the role is sent from a route that needs one
  -- to the page for that.
  pub guard-forbids :
      (to from : To) (w : W) (a : App)
      → a.routes.is_init_constant_route ≡ true
      → has_token a ≡ true
      → a.routes.is_init_auth_route ≡ true
      → is_not_found to ≡ false
      → (to.name == "login") ≡ false
      → may_enter cfg to a ≡ false
      → (guard cfg server router to from (w, a)).1 ≡ next_to (by_name "403" none)
  unfolding guard decide
  guard-forbids to from w a i t r n l m =
      ap (λ x. (after_init cfg server router to from x).1) (ready to w a i t r ∙ if-false _ _ n)
      ∙ ground arith

  decide-next :
      (to from : To) (a : App)
      → (to.name == "login") ≡ false
      → to.constant ≡ true
      → to.href ≡ none
      → decide cfg to from a ≡ next
  unfolding decide handle_route_switch
  decide-next to from a l c h = ground arith

  after_missing :
      (to from : To) (wa : W × App) (exist : Bool)
      → decide cfg to from wa.1 ≡ next
      → (after_init cfg server router to from
          (wa, if exist then some (by_name "403" none) else none)).1
        ≡ (if exist then next_to (by_name "403" none) else next)
  after_missing to from wa true h = refl
  after_missing to from wa false h = h

  -- With a token and all routes there, a location that only the page for missing routes catches is
  -- forbidden if its route exists, and shown as missing if not.
  pub guard-missing :
      (to from : To) (w : W) (a : App)
      → a.routes.is_init_constant_route ≡ true
      → has_token a ≡ true
      → a.routes.is_init_auth_route ≡ true
      → to.name ≡ "not-found"
      → to.constant ≡ true
      → to.href ≡ none
      → (guard cfg server router to from (w, a)).1 ≡ (
          if (get_is_auth_route_exist cfg server to.path w).1
          then next_to (by_name "403" none)
          else next)
  unfolding guard decide handle_route_switch
  guard-missing to from w a i t r n c h =
      ap (λ x. (after_init cfg server router to from x).1)
        (ready to w a i t r ∙ if-true _ _ (ap (λ x. x == "not-found") n))
      ∙ after_missing to from _ _
          (decide-next to from (start_refresh a) (ap (λ x. x == "login") n) c h)

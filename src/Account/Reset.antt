-- ===== src/Account/Reset.antt =====
-- What login and reset of frontend/src/store/modules/auth/index.ts leave behind.
use smart_copilot.Common.{
  ℕ, String, ◌≡◌, refl, ap, ◌∙◌, Bool, true, false, not, Option, none, some, List, if◌then◌else◌,
  if-false, if-both, eqb, is_some, is_truthy,
}
use smart_copilot.Route.{Route}
use smart_copilot.Tab.Store.{Push}
use smart_copilot.Account.{
  Storage, Config, App, Server, Router, UserInfo, LoginToken, has_token, default_user_info,
}
use smart_copilot.Account.Registry.{init_constant_route, reset_route_store, reset_route_state}
use smart_copilot.Account.Auth.{
  check_tab_clear, take_user_info, set_token_of_login, finish_login, login_answered, record_user_id,
  signed_out, reset_store, login, login_by_token, get_user_info, is_other_user, has_no_id,
  reset_routes, leave_page, cached, set_token_storage,
}

abbrev pub auth_routes_of : App → List Route
auth_routes_of a = a.routes.auth_routes

-- What a reset is to bring back or to keep: the storage, the user and the auth routes.
abbrev signed : App → Storage × UserInfo × List Route
signed a = (a.storage, a.user_info, auth_routes_of a)

record_user_id-auth_routes : (a : App) → auth_routes_of (record_user_id a) ≡ auth_routes_of a
record_user_id-auth_routes a = if-both auth_routes_of (has_no_id a.user_info) refl refl

result_of_if {ℓ} :
    {A : Type ℓ} (b : Bool) (x y : A) → (if◌then◌else◌ {A = A × Bool} b (x, true) (y, false)).1 ≡ b
result_of_if true x y = refl
result_of_if false x y = refl

module _ {W : Type 0} (cfg : Config) (server : Server W) where
  init_constant_route-signed :
      (w : W) (a : App) → signed (init_constant_route cfg server (w, a)).1 ≡ signed a
  unfolding init_constant_route
  init_constant_route-signed w a =
      if-both (λ (wa : W × App). signed wa.1) a.routes.is_init_constant_route refl
        (if-both (λ (wa : W × App). signed wa.1) cfg.is_static refl refl)

  module _ (router : Router W) where
    reset_routes-signed :
        (w : W) (a : App) → signed (reset_routes cfg server router (w, a)).1 ≡ signed (cached cfg a)
    unfolding reset_route_store reset_route_state
    reset_routes-signed w a =
        init_constant_route-signed w
          (record (cached cfg a) { routes = reset_route_state cfg a.routes })

    reset_store_here :
        (w : W) (a : App)
        → a.at_constant ≡ true
        → signed (reset_store cfg server router (w, a)).1
          ≡ signed (cached cfg (signed_out (record_user_id a)))
    unfolding reset_store
    reset_store_here w a h =
        ap
          (λ b.
            signed
              (reset_routes cfg server router
                (leave_page cfg server router b (w, signed_out (record_user_id a)))).1)
          h
        ∙ reset_routes-signed w (signed_out (record_user_id a))

    -- A reset on a constant page leaves no token and no user, and keeps the auth routes that were
    -- added for the user.
    pub reset_store-signs_out :
        (w : W) (a : App)
        → a.at_constant ≡ true
        → (has_token (reset_store cfg server router (w, a)).1 ≡ false)
          × ((reset_store cfg server router (w, a)).1.user_info ≡ default_user_info)
          × (auth_routes_of (reset_store cfg server router (w, a)).1 ≡ auth_routes_of a)
    reset_store-signs_out w a h =
        let here : signed (reset_store cfg server router (w, a)).1
            ≡ signed (cached cfg (signed_out (record_user_id a))) =
          reset_store_here w a h in
        (
          ap (λ s. is_truthy (s.0).token) here,
          ap (λ s. s.1) here,
          ap (λ s. s.2) here ∙ record_user_id-auth_routes a,
        )

    take_user_info-result :
        (o : Option UserInfo) (wa : W × App) → (take_user_info cfg server router o wa).1 ≡ is_some o
    take_user_info-result none wa = refl
    take_user_info-result (some info) wa = refl

    set_token_of_login-result :
        (t : LoginToken) (r : (W × App) × Bool) → (set_token_of_login cfg server router t r).1 ≡ r.1
    set_token_of_login-result t (wa, false) = refl
    set_token_of_login-result t (wa, true) = refl

    finish_login-result :
        (redirect : Bool) (r : (W × App) × Bool)
        → (finish_login cfg server router redirect r).1 ≡ r.1
    finish_login-result redirect (wa, false) = refl
    finish_login-result redirect (wa, true) = refl

    login_answered-result :
        (o : Option LoginToken) (redirect : Bool) (w : W) (a : App)
        → (login_answered cfg server router o redirect (w, a)).1
          ≡ elim o [ none ↦ false | some t ↦ is_some (server.user_info (some t.token) w).1 ]
    unfolding login_by_token get_user_info
    login_answered-result none redirect w a = refl
    login_answered-result (some t) redirect w a =
        finish_login-result redirect (login_by_token cfg server router t (w, a))
        ∙ set_token_of_login-result t (get_user_info cfg server router (w, set_token_storage t a))
        ∙ take_user_info-result (server.user_info (some t.token) w).1
            ((server.user_info (some t.token) w).0, set_token_storage t a)

    -- A login answers true exactly if the server gives a token and then, for it, the user's data.
    pub login_lem :
        (user_name password : String) (redirect : Bool) (w : W) (a : App)
        → (login cfg server router user_name password redirect (w, a)).1
          ≡ elim ((server.login user_name password w).1) [
            | none ↦ false
            | some t ↦
                is_some (server.user_info (some t.token) (server.login user_name password w).0).1
          ]
    unfolding login
    login_lem user_name password redirect w a =
        login_answered-result (server.login user_name password w).1 redirect
          (server.login user_name password w).0 a

    half_login :
        (t : LoginToken) (redirect : Bool) (w : W) (a : App)
        → (server.user_info (some t.token) w).1 ≡ none
        → (login_answered cfg server router (some t) redirect (w, a)).0.1.storage.token
          ≡ some t.token
    unfolding login_by_token get_user_info
    half_login t redirect w a k =
        ap
          (λ o.
            (finish_login cfg server router redirect (
              set_token_of_login cfg server router t (
                take_user_info cfg server router o (
                  (server.user_info (some t.token) w).0,
                  set_token_storage t a,
                )))).0.1.storage.token)
          k

    -- Where the server gives a token and then no data of the user, the login answers false and leaves
    -- the token in the storage.
    pub login-keeps_token :
        (user_name password : String) (redirect : Bool) (w : W) (a : App) (t : LoginToken)
        → (server.login user_name password w).1 ≡ some t
        → (server.user_info (some t.token) (server.login user_name password w).0).1 ≡ none
        → ((login cfg server router user_name password redirect (w, a)).1 ≡ false)
          × ((login cfg server router user_name password redirect (w, a)).0.1.storage.token
              ≡ some t.token)
    unfolding login
    login-keeps_token user_name password redirect w a t h k = (
      login_lem user_name password redirect w a ∙ rw (h, k) refl,
      ap
            (λ o.
              (login_answered cfg server router o redirect
                ((server.login user_name password w).0, a)).0.1.storage.token)
            h
          ∙ half_login t redirect (server.login user_name password w).0 a k,
    )

other_id : (m n : ℕ) → eqb m 0 ≡ false → is_other_user (some m) n ≡ not (eqb m n)
other_id m n h = rw h refl

-- After a reset recorded the user, the next login clears the tabs exactly if another user logs in.
pub check_tab_clear-record_user_id :
    (push : Push) (a : App) (user : UserInfo)
    → has_no_id a.user_info ≡ false
    → has_no_id user ≡ false
    → (check_tab_clear push (record (signed_out (record_user_id a)) { user_info = user })).1
      ≡ not (eqb a.user_info.id user.id)
unfolding check_tab_clear
check_tab_clear-record_user_id push a user h k =
    ap (λ b. (check_tab_clear push (record (signed_out b) { user_info = user })).1) (if-false _ _ h)
    ∙ ap (λ (r : App × Bool). r.1) (if-false _ _ k)
    ∙ result_of_if (is_other_user (some a.user_info.id) user.id) _ _
    ∙ other_id a.user_info.id user.id h

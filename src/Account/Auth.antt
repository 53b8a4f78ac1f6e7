-- ===== src/Account/Auth.antt =====
-- frontend/src/store/modules/auth/index.ts and frontend/src/store/modules/auth/shared.ts: login,
-- logout and reset, with the initialisation of the auth routes in
-- frontend/src/store/modules/route/index.ts. A call that the code starts without waiting for it runs
-- here to its end before the next statement.
use smart_copilot.Common.{
  ℕ, String, Bool, true, false, not, ◌||◌, Option, none, some, [], if◌then◌else◌, eqb, or_default,
  truthy,
}
use smart_copilot.Route.{Routes}
use smart_copilot.Tab.Store.{Push, cache_tabs, clear_tabs}
use smart_copilot.Chat.Sessions.{handle_auth_reset}
use smart_copilot.Account.{
  Config, App, Server, Router, Storage, UserInfo, LoginToken, default_user_info,
}
use smart_copilot.Account.Registry.{
  reset_route_store, init_static_auth_route, dynamic_routes_added, with_home_tab,
}

abbrev pub get_token : Storage → String
get_token storage = or_default storage.token ""

abbrev pub clear_auth_storage : Storage → Storage
clear_auth_storage storage = record storage { token = none; refresh_token = none }

-- `!userInfo.id`
abbrev pub has_no_id : UserInfo → Bool
has_no_id user = eqb user.id 0

abbrev pub record_user_id : App → App
record_user_id a =
    if has_no_id a.user_info
    then a
    else record a { storage = record a.storage { last_login_user_id = some a.user_info.id } }

abbrev pub set_token_storage : LoginToken → App → App
set_token_storage t a = record a {
  storage = record a.storage { token = some t.token; refresh_token = some t.refresh_token };
}

-- The part of the reset before the navigation.
abbrev pub signed_out : App → App
signed_out a = record a {
  storage = clear_auth_storage a.storage;
  token = "";
  user_info = default_user_info;
  chat = handle_auth_reset a.chat;
}

abbrev pub cached : Config → App → App
cached cfg a = record a {
  storage = record a.storage {
    global_tabs = cache_tabs cfg.caches_tabs a.tabs a.storage.global_tabs;
  };
}

-- `!lastLoginUserId || lastLoginUserId !== userInfo.id`
abbrev pub is_other_user : Option ℕ → ℕ → Bool
is_other_user none id = true
is_other_user (some last) id = eqb last 0 || not (eqb last id)

abbrev forget_last : App → App
forget_last a = record a { storage = record a.storage { last_login_user_id = none } }

abbrev forget_tabs : Push → App → App
forget_tabs push a = record a {
  storage = record a.storage { global_tabs = none };
  tabs = clear_tabs push [] a.tabs;
}

unfoldable pub check_tab_clear : Push → App → App × Bool
unfolding clear_tabs
check_tab_clear push a =
    if has_no_id a.user_info
    then (a, false)
    else if is_other_user a.storage.last_login_user_id a.user_info.id
    then (forget_last (forget_tabs push a), true)
    else (forget_last a, false)

-- `setToken`
abbrev pub set_token : String → App → App
set_token new_token a = record a {
  token = new_token;
  storage = record a.storage { token = some new_token };
}

module _ {W : Type 0} (cfg : Config) (server : Server W) (router : Router W) where
  abbrev pub leave_page : Bool → W × App → W × App
  leave_page true wa = wa
  leave_page false wa = router.to_login wa

  abbrev pub reset_routes : W × App → W × App
  reset_routes (w, a) = reset_route_store cfg server (w, cached cfg a)

  unfoldable pub reset_store : W × App → W × App
  unfolding reset_route_store
  reset_store (w, a) = reset_routes (leave_page a.at_constant (w, signed_out (record_user_id a)))

  abbrev pub take_user_info : Option UserInfo → W × App → (W × App) × Bool
  take_user_info none wa = (wa, false)
  take_user_info (some info) (w, a) = ((w, record a { user_info = info }), true)

  unfoldable pub get_user_info : W × App → (W × App) × Bool
  get_user_info (w, a) =
      let (w', answer) = server.user_info a.storage.token w in take_user_info answer (w', a)

  unfoldable pub init_user_info : W × App → W × App
  unfolding get_user_info reset_store
  init_user_info (w, a) =
      if truthy (get_token a.storage)
      then (let (wa, pass) = get_user_info (w, a) in if pass then wa else reset_store wa)
      else (w, a)

  -- The token of the store is set after the user's data has come.
  abbrev pub set_token_of_login : LoginToken → (W × App) × Bool → (W × App) × Bool
  set_token_of_login t ((w, a), false) = ((w, a), false)
  set_token_of_login t ((w, a), true) = ((w, record a { token = t.token }), true)

  unfoldable pub login_by_token : LoginToken → W × App → (W × App) × Bool
  unfolding get_user_info
  login_by_token t (w, a) = set_token_of_login t (get_user_info (w, set_token_storage t a))

  abbrev pub redirect_or_home : Bool → W × (App × Bool) → W × App
  redirect_or_home redirect (w, (a, is_clear)) =
      router.redirect_from_login (if is_clear then false else redirect) (w, a)

  abbrev pub finish_login : Bool → (W × App) × Bool → (W × App) × Bool
  finish_login redirect (wa, false) = (wa, false)
  finish_login redirect ((w, a), true) =
      (redirect_or_home redirect (w, check_tab_clear router.push a), true)

  abbrev pub login_answered : Option LoginToken → Bool → W × App → (W × App) × Bool
  login_answered none redirect wa = (reset_store wa, false)
  login_answered (some t) redirect wa = finish_login redirect (login_by_token t wa)

  -- Without the loading flag and the notice of the success.
  unfoldable pub login : String → String → Bool → W × App → (W × App) × Bool
  unfolding login_by_token reset_store check_tab_clear
  login user_name password redirect (w, a) =
      let (w', answer) = server.login user_name password w in login_answered answer redirect (w', a)

  unfoldable pub logout : W × App → W × App
  unfolding reset_store
  logout (w, a) =
      let (w', error) = server.logout a.storage.token w in
      if error then (w', a) else reset_store (w', a)

  abbrev dynamic_ready : Option (Routes × String) → W × App → W × App
  dynamic_ready none wa = reset_store wa
  dynamic_ready (some (routes, home)) (w, a) =
      (w, record a { routes = dynamic_routes_added cfg routes home a.routes })

  unfoldable pub init_dynamic_auth_route : W × App → W × App
  unfolding reset_store dynamic_routes_added
  init_dynamic_auth_route (w, a) =
      let (w', answer) = server.user_routes a.storage.token w in dynamic_ready answer (w', a)

  abbrev pub load_user : W × App → W × App
  load_user (w, a) = if has_no_id a.user_info then init_user_info (w, a) else (w, a)

  unfoldable pub init_auth_route : W × App → W × App
  unfolding init_user_info init_static_auth_route init_dynamic_auth_route
  init_auth_route wa =
      let (w, a) = load_user wa in
      let (w', a') =
        if cfg.is_static
        then (w, init_static_auth_route cfg a)
        else init_dynamic_auth_route (w, a) in
      (w', with_home_tab cfg a')

-- ===== src/Tab/Store.antt =====
-- frontend/src/store/modules/tab/index.ts: the tab store. `push` is the router's `routerPush`: it
-- returns the store as it is when the awaited navigation has ended, with whatever the handlers of
-- that navigation did to it, and whether the navigation failed.
pub mod Ids
pub mod Active
pub mod Clear
use smart_copilot.Common.{
  ℕ, suc, String, Bool, true, false, not, ◌&&◌, ◌||◌, Option, none, some, List, [], ◌∷◌, ◌++◌, map,
  ◌==◌, if◌then◌else◌, filter, find?, find_idx?, erase_idx, includes, index_of, get_or, get_elem?,
  get_last?, take, drop, is_some, or_default,
}
use smart_copilot.Route.{Env}
use smart_copilot.Tab.{
  Tab, TabRoute, ids, is_tab_in_tabs, get_fixed_tab_ids, filter_tabs_by_ids, get_tab_by_route,
  get_default_home_tab, extract_tabs_by_all_routes, update_tabs_by_i18n_key, update_tab_by_i18n_key,
  find_tab_by_route_name,
}

pub record TabStore : Type 0 where
  pub tabs : List Tab
  pub home_tab : Option Tab
  pub active_tab_id : String

abbrev pub Push : Type 0
Push = String → TabStore → TabStore × Bool

abbrev pub empty_store : TabStore
empty_store = record { tabs = []; home_tab = none; active_tab_id = "" }

pub init_home_tab : Env → List TabRoute → String → TabStore → TabStore
init_home_tab e routes route_home s = record s {
  home_tab = some (get_default_home_tab e routes route_home);
}

abbrev pub set_active_tab_id : String → TabStore → TabStore
set_active_tab_id id s = record s { active_tab_id = id }

-- `id === homeTab.value?.id`
abbrev pub is_home : String → Option Tab → Bool
is_home id none = false
is_home id (some home) = id == home.id

abbrev push_new : Tab → TabStore → TabStore
push_new tab s =
    if not (is_home tab.id s.home_tab) && not (is_tab_in_tabs tab.id s.tabs)
    then record s { tabs = s.tabs ++ tab ∷ [] }
    else s

unfoldable pub add_tab : Env → TabRoute → Bool → TabStore → TabStore
add_tab e route active s =
    let tab = get_tab_by_route e route in
    let added = push_new tab s in if active then set_active_tab_id tab.id added else added

-- `cached` is `themeStore.tab.cache`, `storage_tabs` what the local storage holds.
pub init_tab_store : Env → List TabRoute → Bool → Option (List Tab) → TabRoute → TabStore → TabStore
init_tab_store e routes cached none current s = add_tab e current true s
init_tab_store e routes cached (some storage_tabs) current s =
    let restored = record s {
      tabs = update_tabs_by_i18n_key e (extract_tabs_by_all_routes routes storage_tabs);
    } in
    add_tab e current true (if cached then restored else s)

-- `a || b` on tabs
abbrev or_else : Option Tab → Option Tab → Option Tab
or_else none b = b
or_else (some a) b = some a

module _ (push : Push) where
  unfoldable pub switch_route_by_tab : Tab → TabStore → TabStore
  switch_route_by_tab tab s =
      let (s', fail) = push tab.full_path s in if fail then s' else set_active_tab_id tab.id s'

  -- `if (isRemoveActiveTab && nextTab) await switchRouteByTab(nextTab)`
  leave_removed : Bool → Option Tab → TabStore → TabStore
  leave_removed false next_tab s = s
  leave_removed true none s = s
  leave_removed true (some next_tab) s = switch_route_by_tab next_tab s

  remove_at : String → Option ℕ → TabStore → TabStore
  unfolding leave_removed
  remove_at tab_id none s = s
  remove_at tab_id (some i) s =
      leave_removed (s.active_tab_id == tab_id) (or_else (get_elem? s.tabs (suc i)) s.home_tab)
        (record s { tabs = erase_idx s.tabs i })

  unfoldable pub remove_tab : String → TabStore → TabStore
  unfolding remove_at
  remove_tab tab_id s = remove_at tab_id (find_idx? (λ t. t.id == tab_id) s.tabs) s

  pub remove_active_tab : TabStore → TabStore
  remove_active_tab s = remove_tab s.active_tab_id s

  pub remove_tab_by_route_name : String → TabStore → TabStore
  remove_tab_by_route_name route_name s = elim (find_tab_by_route_name route_name s.tabs) [
    | none ↦ s
    | some tab ↦ remove_tab tab.id s
  ]

  -- With no tab to go to, reading `activeTab.fullPath` throws before the update.
  switch_and_update : Option Tab → List Tab → TabStore → TabStore
  switch_and_update none updated_tabs s = s
  switch_and_update (some tab) updated_tabs s = record (switch_route_by_tab tab s) {
    tabs = updated_tabs;
  }

  unfoldable pub clear_tabs : List String → TabStore → TabStore
  unfolding switch_and_update
  clear_tabs excludes s =
      let remain_tab_ids = get_fixed_tab_ids s.tabs ++ excludes in
      let removed_tabs_ids = filter (λ id. not (includes remain_tab_ids id)) (ids s.tabs) in
      let updated_tabs = filter_tabs_by_ids removed_tabs_ids s.tabs in
      if includes removed_tabs_ids s.active_tab_id
      then switch_and_update (or_else (get_last? updated_tabs) s.home_tab) updated_tabs s
      else record s { tabs = updated_tabs }

  unfoldable pub clear_left_tabs : String → TabStore → TabStore
  clear_left_tabs tab_id s = elim (index_of (ids s.tabs) tab_id) [
    | none ↦ s
    | some index ↦ clear_tabs (drop index (ids s.tabs)) s
  ]

  unfoldable pub clear_right_tabs : String → TabStore → TabStore
  clear_right_tabs tab_id s =
      if is_home tab_id s.home_tab then clear_tabs [] s else elim (index_of (ids s.tabs) tab_id) [
        | none ↦ s
        | some index ↦ clear_tabs (take (suc index) (ids s.tabs)) s
      ]

unfoldable pub is_tab_retain : String → TabStore → Bool
is_tab_retain tab_id s =
    if is_home tab_id s.home_tab then true else includes (get_fixed_tab_ids s.tabs) tab_id

-- `arrive` is the store after the awaited `routerPushByKey`.
pub replace_tab : Push → (TabStore → TabStore) → TabStore → TabStore
unfolding is_tab_retain
replace_tab push arrive s =
    let s' = arrive s in
    if is_tab_retain s.active_tab_id s' then s' else remove_tab push s.active_tab_id s'

-- The first tab with the id is changed; `tabs.value.find` returns it by reference.
unfoldable pub change_first : (Tab → Tab) → String → List Tab → List Tab
change_first f id [] = []
change_first f id (t ∷ ts) =
    let rest = change_first f id ts in if t.id == id then f t ∷ ts else t ∷ rest

-- `tab.oldLabel = tab.label; tab.newLabel = label`
abbrev pub relabel_tab : String → Tab → Tab
relabel_tab label tab = record tab { old_label = some tab.label; new_label = some label }

unfoldable pub set_tab_label : String → Option String → TabStore → TabStore
unfolding change_first
set_tab_label label tab_id s = record s {
  tabs = change_first (relabel_tab label) (or_default tab_id s.active_tab_id) s.tabs;
}

abbrev pub clear_label : Tab → Tab
clear_label tab = record tab { new_label = none }

unfoldable pub reset_tab_label : Option String → TabStore → TabStore
unfolding change_first
reset_tab_label tab_id s = record s {
  tabs = change_first clear_label (or_default tab_id s.active_tab_id) s.tabs;
}

abbrev update_home : Env → Option Tab → Option Tab
update_home e none = none
update_home e (some home) = some (update_tab_by_i18n_key e home)

unfoldable pub update_tabs_by_locale : Env → TabStore → TabStore
update_tabs_by_locale e s = record s {
  tabs = update_tabs_by_i18n_key e s.tabs;
  home_tab = update_home e s.home_tab;
}

-- What `cacheTabs` leaves in the local storage.
pub cache_tabs : Bool → TabStore → Option (List Tab) → Option (List Tab)
cache_tabs cached s stored = if cached then some s.tabs else stored

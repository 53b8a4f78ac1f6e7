-- ===== src/Tab/Store/Ids.antt =====
-- Adding and removing tabs: the ids stay different, and the active tab is shown.
use smart_copilot.Common.{
  String, ◌≡◌, refl, ap, ◌∙◌, Bool, true, false, not, ◌||◌, Option, none, some, List, [], ◌∷◌, ◌++◌,
  ◌==◌, filter, includes, distinct, map-append, arith, eq_iff, Bool-cases, inl, inr, find_idx?,
  erase_idx, Option-cases, distinct-concat,
}
use smart_copilot.Route.{Env}
use smart_copilot.Tab.{Tab, TabRoute, ids, is_tab_in_tabs, get_tab_by_route, get_all_tabs}
use smart_copilot.Tab.Arranged.{includes-get_all_tabs}
use smart_copilot.Tab.Store.{
  TabStore, Push, set_active_tab_id, push_new, add_tab, switch_route_by_tab, remove_tab, remove_at,
  leave_removed,
}

pub is_tab_in_tabs_lem :
    (id : String) (tabs : List Tab) → is_tab_in_tabs id tabs ≡ includes (ids tabs) id
is_tab_in_tabs_lem id [] = refl
is_tab_in_tabs_lem id (t ∷ ts) = ap (λ b. t.id == id || b) (is_tab_in_tabs_lem id ts)

push_new-distinct :
    (tab : Tab) (s : TabStore)
    → distinct (ids s.tabs) ≡ true
    → distinct (ids (push_new tab s).tabs) ≡ true
push_new-distinct tab s h = elim (Bool-cases (is_tab_in_tabs tab.id s.tabs)) [
  | inl old ↦ ground arith
  | inr new ↦ ground (
    arith,
    map-append (λ (t : Tab). t.id) s.tabs (tab ∷ []),
    is_tab_in_tabs_lem tab.id s.tabs,
    distinct-concat (ids s.tabs) tab.id,
  )
]

-- Adding a tab keeps the ids of the tabs different.
pub add_tab-distinct :
    (e : Env) (route : TabRoute) (active : Bool) (s : TabStore)
    → distinct (ids s.tabs) ≡ true
    → distinct (ids (add_tab e route active s).tabs) ≡ true
unfolding add_tab
add_tab-distinct e route true s h = push_new-distinct (get_tab_by_route e route) s h
add_tab-distinct e route false s h = push_new-distinct (get_tab_by_route e route) s h

any-concat :
    (id : String) (tabs : List Tab) (tab : Tab)
    → tab.id ≡ id
    → is_tab_in_tabs id (tabs ++ tab ∷ []) ≡ true
any-concat id [] tab h = ground (arith, eq_iff tab.id id)
any-concat id (t ∷ ts) tab h = ground (arith, any-concat id ts tab)

push_new_idem : (tab : Tab) (s : TabStore) → push_new tab (push_new tab s) ≡ push_new tab s
push_new_idem tab s = ground (arith, any-concat tab.id s.tabs tab refl)

push_new_idem_active :
    (tab : Tab) (s : TabStore)
    → set_active_tab_id tab.id (push_new tab (set_active_tab_id tab.id (push_new tab s)))
      ≡ set_active_tab_id tab.id (push_new tab s)
push_new_idem_active tab s = ground (arith, any-concat tab.id s.tabs tab refl)

push_new-home : (tab : Tab) (s : TabStore) → (push_new tab s).home_tab ≡ s.home_tab
push_new-home tab s = ground arith

-- Adding the tab of a route a second time changes nothing.
pub add_tab_idem :
    (e : Env) (route : TabRoute) (active : Bool) (s : TabStore)
    → add_tab e route active (add_tab e route active s) ≡ add_tab e route active s
unfolding add_tab
add_tab_idem e route true s = push_new_idem_active (get_tab_by_route e route) s
add_tab_idem e route false s = push_new_idem (get_tab_by_route e route) s

-- A tab that was added is the home tab or among the tabs.
push_new-shown :
    (tab : Tab) (s : TabStore) (home : Tab)
    → s.home_tab ≡ some home
    → (home.id == tab.id || is_tab_in_tabs tab.id (push_new tab s).tabs) ≡ true
push_new-shown tab s home h =
    ground (arith, any-concat tab.id s.tabs tab refl, eq_iff home.id tab.id, eq_iff tab.id home.id)

pub shown_in :
    (tabs : List Tab) (o : Option Tab) (home : Tab) (id : String)
    → o ≡ some home
    → (home.id == id || is_tab_in_tabs id tabs) ≡ true
    → includes (ids (get_all_tabs tabs o)) id ≡ true
shown_in tabs o home id h k =
    rw (h, includes-get_all_tabs tabs home id, ← is_tab_in_tabs_lem id tabs) k

-- Where there is a home tab, the tab that is added and made active is among all tabs.
pub add_tab-active :
    (e : Env) (route : TabRoute) (s : TabStore) {home : Tab}
    → s.home_tab ≡ some home
    → let s' = add_tab e route true s in
      includes (ids (get_all_tabs s'.tabs s'.home_tab)) s'.active_tab_id ≡ true
unfolding add_tab
add_tab-active e route s {home} h =
    let tab = get_tab_by_route e route in
    shown_in (push_new tab s).tabs (push_new tab s).home_tab home tab.id (push_new-home tab s ∙ h)
      (push_new-shown tab s home h)

filter_absent :
    (id : String) (tabs : List Tab)
    → includes (ids tabs) id ≡ false
    → filter (λ t. not (t.id == id)) tabs ≡ tabs
filter_absent id [] h = refl
filter_absent id (t ∷ ts) h = ground (arith, filter_absent id ts)

-- Removing the first tab with an id, and every one, are the same where ids are different.
pub erase_first :
    (id : String) (tabs : List Tab)
    → distinct (ids tabs) ≡ true
    → (elim (find_idx? (λ (t : Tab). t.id == id) tabs) [ none ↦ tabs | some i ↦ erase_idx tabs i ])
      ≡ filter (λ t. not (t.id == id)) tabs
erase_first id [] d = refl
erase_first id (t ∷ ts) d = elim (Bool-cases (t.id == id)) [
  | inl here ↦ ground (arith, eq_iff t.id id, filter_absent id ts)
  | inr other ↦ ground (arith, erase_first id ts)
]

module _ (push : Push) where
  -- A navigation to a tab that is shown leaves the list of tabs.
  abbrev pub KeepsTabs : Type 0
  KeepsTabs = (path : String) (s : TabStore) → (push path s).0.tabs ≡ s.tabs

  switch-tabs :
      KeepsTabs → (tab : Tab) (s : TabStore) → (switch_route_by_tab push tab s).tabs ≡ s.tabs
  unfolding switch_route_by_tab
  switch-tabs keeps tab s = ground (arith, keeps tab.full_path s)

  leave_removed-tabs :
      KeepsTabs
      → (b : Bool) (o : Option Tab) (s : TabStore) → (leave_removed push b o s).tabs ≡ s.tabs
  unfolding leave_removed
  leave_removed-tabs keeps false o s = refl
  leave_removed-tabs keeps true none s = refl
  leave_removed-tabs keeps true (some t) s = switch-tabs keeps t s

  -- Where ids are different and navigations leave the tabs, removing a tab takes the tab of this id
  -- out of the list and leaves the others in their order.
  pub remove_tab-tabs :
      KeepsTabs
      → (tab_id : String) (s : TabStore) → distinct (ids s.tabs) ≡ true
      → (remove_tab push tab_id s).tabs ≡ filter (λ t. not (t.id == tab_id)) s.tabs
  unfolding remove_tab
  remove_tab-tabs keeps tab_id s d = elim (Option-cases (find_idx? (λ t. t.id == tab_id) s.tabs)) [
    | inl missing ↦ rw (missing, remove_at) (ground (arith, missing, erase_first tab_id s.tabs d))
    | inr (i, found) ↦
        rw (found, remove_at)
          (let erased : erase_idx s.tabs i ≡ filter (λ t. not (t.id == tab_id)) s.tabs =
              ground (arith, found, erase_first tab_id s.tabs d) in
            leave_removed-tabs keeps _ _ _ ∙ erased)
  ]

-- ===== src/Tests/Tabs.antt =====
-- A store with three tabs, one of them fixed.
use smart_copilot.Common.{
  ℕ, suc, String, ◌≡◌, refl, Bool, true, false, not, ◌||◌, Option, none, some, List, [], ◌∷◌, ◌++◌,
  filter, includes, distinct, ◌==◌, take, drop,
}
use smart_copilot.Tests.Routes.{meta}
use smart_copilot.Tab.{
  Tab, TabRoute, ids, is_fixed_tab, get_fixed_tab_ids, get_all_tabs, get_tab_by_route, shown_label,
}
use smart_copilot.Tab.Arranged.{IsArranged, get_all_tabs-IsArranged}
use smart_copilot.Tab.Store.{
  TabStore, Push, add_tab, remove_tab, clear_tabs, clear_left_tabs, clear_right_tabs, set_tab_label,
  reset_tab_label, update_tabs_by_locale,
}
use smart_copilot.Tab.Store.Active.{is_shown, remove_tab-shown, remove_tab-dangling}
use smart_copilot.Tab.Store.Clear.{kept, clear_tabs-tabs}

abbrev tab : String → Option ℕ → Tab
tab id fixed = record {
  id = id;
  label = id;
  new_label = none;
  old_label = none;
  route_key = id;
  route_path = id;
  full_path = id;
  fixed_index = fixed;
  icon = none;
  local_icon = none;
  i18n_key = some id;
}

abbrev home : Tab
home = tab "/home" none

abbrev three : List Tab
three = tab "/a" none ∷ tab "/b" (some 1) ∷ tab "/c" none ∷ []

abbrev store : TabStore
store = record { tabs = three; home_tab = some home; active_tab_id = "/a" }

-- Navigations that succeed, or fail, and leave the store.
abbrev succeed : Push
succeed = λ path s. (s, false)

abbrev refuse : Push
refuse = λ path s. (s, true)

abbrev user_route : TabRoute
user_route = record {
  name = "user";
  path = "/user";
  meta = meta [] none false;
  full_path = none;
  query = [];
  matched = none;
}

shown_ids : ids (get_all_tabs three (some home)) ≡ "/home" ∷ "/b" ∷ "/a" ∷ "/c" ∷ []
unfolding get_all_tabs smart_copilot.Common.Sort.sort
shown_ids = refl

left_ids : ids (clear_left_tabs succeed "/c" store).tabs ≡ "/b" ∷ "/c" ∷ []
unfolding clear_left_tabs clear_tabs
left_ids = refl

after_remove : (remove_tab succeed "/a" store).active_tab_id ≡ "/b"
unfolding remove_tab smart_copilot.Tab.Store.switch_route_by_tab
after_remove = refl

get_all_tabs-IsArranged_example : IsArranged home three (get_all_tabs three (some home))
get_all_tabs-IsArranged_example = get_all_tabs-IsArranged three home

remove_tab-shown_example : is_shown (remove_tab succeed "/a" store) ≡ true
unfolding get_all_tabs smart_copilot.Common.Sort.sort
remove_tab-shown_example = remove_tab-shown succeed (λ path s. refl) "/a" store refl refl

remove_tab-dangling_example : is_shown (remove_tab refuse "/a" store) ≡ false
remove_tab-dangling_example = remove_tab-dangling refuse (λ path s. refl) store refl refl refl refl

clear_tabs-tabs_example :
    (clear_tabs succeed ("/c" ∷ []) store).tabs
    ≡ filter (kept (get_fixed_tab_ids three ++ "/c" ∷ [])) three
clear_tabs-tabs_example = clear_tabs-tabs succeed ("/c" ∷ []) store refl

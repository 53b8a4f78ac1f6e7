-- ===== src/Tab/Arranged.antt =====
-- The order in which `getAllTabs` of frontend/src/store/modules/tab/shared.ts shows the tabs.
use mathlib.Core.List.{Perm}
use mathlib.Core.List.Perm
use smart_copilot.Common.{
  String, ◌≡◌, refl, ap, ◌∙◌, Bool, true, false, not, ◌||◌, Option, none, some, List, [], ◌∷◌, ◌++◌,
  ◌==◌, filter, all, includes, distinct, filter-all, arith, eq_iff,
}
use smart_copilot.Common.Sort.{
  sort, sort-perm, sort-IsSorted, IsSorted, all-sort, partition-perm, distinct-perm, includes-perm,
  distinct-map-filter,
}
use smart_copilot.Tab.{Tab, ids, is_fixed_tab, fixed_order, update_tabs_label, get_all_tabs}

abbrev pub not_home : Tab → Tab → Bool
not_home home t = not (t.id == home.id)

-- The home tab, then fixed tabs by their index, then the others: a list that holds `tabs` without
-- those of the home tab's id.
pub record IsArranged (home : Tab) (tabs result : List Tab) : Type 0 where
  pub fixed : List Tab
  pub rest : List Tab
  pub shown : result ≡ update_tabs_label (home ∷ fixed ++ rest)
  pub by_index : IsSorted fixed_order fixed
  pub all_fixed : all is_fixed_tab fixed ≡ true
  pub none_fixed : all (λ t. not (is_fixed_tab t)) rest ≡ true
  pub same : Perm (fixed ++ rest) (filter (not_home home) tabs)

-- Where there is a home tab, all tabs are the home tab, the fixed tabs by their index and then the
-- tabs that are not fixed, with their labels brought up to date; together they are the tabs of the
-- store without those of the home tab's id, each as often as there.
pub get_all_tabs-IsArranged :
    (tabs : List Tab) (home : Tab) → IsArranged home tabs (get_all_tabs tabs (some home))
unfolding get_all_tabs
get_all_tabs-IsArranged tabs home =
    let others = filter (not_home home) tabs in
    record {
      fixed = sort fixed_order (filter is_fixed_tab others);
      rest = filter (λ t. not (is_fixed_tab t)) others;
      shown = refl;
      by_index = sort-IsSorted fixed_order (filter is_fixed_tab others);
      all_fixed =
          all-sort fixed_order is_fixed_tab (filter is_fixed_tab others)
          ∙ filter-all is_fixed_tab others;
      none_fixed = filter-all (λ t. not (is_fixed_tab t)) others;
      same =
          Perm.trans
            (Perm.append (sort-perm fixed_order (filter is_fixed_tab others)) (Perm.refl _))
            (partition-perm is_fixed_tab others);
    }

ids-update_tabs_label : (tabs : List Tab) → ids (update_tabs_label tabs) ≡ ids tabs
ids-update_tabs_label [] = refl
ids-update_tabs_label (t ∷ ts) = ap (◌∷◌ t.id) (ids-update_tabs_label ts)

includes-others :
    (home : Tab) (tabs : List Tab) → includes (ids (filter (not_home home) tabs)) home.id ≡ false
includes-others home [] = refl
includes-others home (t ∷ ts) = ground (arith, includes-others home ts)

ids-get_all_tabs-perm :
    (tabs : List Tab) (home : Tab)
    → Perm (ids (get_all_tabs tabs (some home))) (home.id ∷ ids (filter (not_home home) tabs))
ids-get_all_tabs-perm tabs home =
    let a = get_all_tabs-IsArranged tabs home in
    rw (a.shown, ids-update_tabs_label (home ∷ a.fixed ++ a.rest))
      (Perm.cons home.id (Perm.map (λ t. t.id) a.same))

-- If the tabs of the store have different ids, so have all tabs, the home tab among them.
pub get_all_tabs-distinct :
    (tabs : List Tab) (home : Option Tab)
    → distinct (ids tabs) ≡ true
    → distinct (ids (get_all_tabs tabs home)) ≡ true
unfolding get_all_tabs
get_all_tabs-distinct tabs none h = refl
get_all_tabs-distinct tabs (some home) h =
    rw (distinct-perm (ids-get_all_tabs-perm tabs home), includes-others home tabs)
      (distinct-map-filter (not_home home) (λ t. t.id) tabs h)

includes-not_home :
    (home : Tab) (tabs : List Tab) (id : String)
    → (home.id == id || includes (ids (filter (not_home home) tabs)) id)
      ≡ (home.id == id || includes (ids tabs) id)
includes-not_home home [] id = refl
includes-not_home home (t ∷ ts) id =
    ground
      (arith, eq_iff t.id home.id, eq_iff home.id id, eq_iff t.id id, includes-not_home home ts id)

-- All tabs show the id of the home tab, those of the store, and no other.
pub includes-get_all_tabs :
    (tabs : List Tab) (home : Tab) (id : String)
    → includes (ids (get_all_tabs tabs (some home))) id ≡ (home.id == id || includes (ids tabs) id)
includes-get_all_tabs tabs home id =
    includes-perm id (ids-get_all_tabs-perm tabs home) ∙ includes-not_home home tabs id

-- ===== src/Tab/Store/Clear.antt =====
-- Which tabs `clearTabs`, `clearLeftTabs` and `clearRightTabs` leave.
use smart_copilot.Common.{
  ℕ, suc, String, ◌≡◌, refl, ap, ◌∙◌, Bool, true, false, not, Option, none, some, List, ◌++◌,
  if◌then◌else◌, filter, includes, distinct, arith, take, drop, index_of, get_last?,
  take-append-drop, filter_congr, All-append_left, All-append_right, filter_of_All, ap₂, subst, All,
  All-mono, All-includes, All-apart, All-includes-filter, All-both, includes-filter,
  includes-append, filter-append, drop-map, take-map,
}
use mathlib.Core.List.{perm_append_comm}
use mathlib.Core.List.Perm
use smart_copilot.Common.Sort.{distinct-perm}
use smart_copilot.Tab.{Tab, ids, is_fixed_tab, get_fixed_tab_ids, filter_tabs_by_ids}
use smart_copilot.Tab.Store.{
  TabStore, Push, is_home, clear_tabs, clear_left_tabs, clear_right_tabs, switch_and_update,
  or_else,
}

-- A list of ids keeps a tab.
abbrev pub kept : List String → Tab → Bool
kept remain t = includes remain t.id

updated_lem :
    (remain : List String) (tabs : List Tab)
    → filter_tabs_by_ids (filter (λ id. not (includes remain id)) (ids tabs)) tabs
      ≡ filter (kept remain) tabs
updated_lem remain tabs = filter_congr _ _ tabs (
    All-mono _ _ tabs
      (λ t h. ground (arith, h, includes-filter (λ id. not (includes remain id)) (ids tabs) t.id))
      (All-includes (λ t. t.id) tabs))

or_else-some : (a b : Option Tab) {home : Tab} → b ≡ some home → (t : Tab) × (or_else a b ≡ some t)
or_else-some none b {home} h = (home, h)
or_else-some (some a) b h = (a, refl)

updated_tabs_lem :
    (push : Push) (b : Bool) (o : Option Tab) (t : Tab) (updated : List Tab) (s : TabStore)
    → o ≡ some t
    → (if b then switch_and_update push o updated s else record s { tabs = updated }).tabs ≡ updated
unfolding switch_and_update
updated_tabs_lem push true o t updated s h = rw h refl
updated_tabs_lem push false o t updated s h = refl

-- Where there is a home tab, clearing leaves exactly the tabs whose id is that of a fixed tab or
-- is excluded from clearing, in their order, whether or not the navigation fails.
pub clear_tabs-tabs :
    (push : Push) (excludes : List String) (s : TabStore) {home : Tab}
    → s.home_tab ≡ some home
    → (clear_tabs push excludes s).tabs
      ≡ filter (kept (get_fixed_tab_ids s.tabs ++ excludes)) s.tabs
unfolding clear_tabs
clear_tabs-tabs push excludes s h =
    let remain = get_fixed_tab_ids s.tabs ++ excludes in
    let removed = filter (λ id. not (includes remain id)) (ids s.tabs) in
    let updated = filter_tabs_by_ids removed s.tabs in
    let (t, e) = or_else-some (get_last? updated) s.home_tab h in
    updated_tabs_lem push (includes removed s.active_tab_id) _ t updated s e
    ∙ updated_lem remain s.tabs

-- In a list of tabs with different ids, cut in two.
module _ (front back : List Tab) (d : distinct (ids (front ++ back)) ≡ true) where
  fixed_ids :
      All (λ t. includes (get_fixed_tab_ids (front ++ back)) t.id ≡ is_fixed_tab t) (front ++ back)
  fixed_ids = All-includes-filter (λ t. t.id) is_fixed_tab (front ++ back) d

  back_apart : All (λ t. includes (ids back) t.id ≡ false) front
  back_apart = All-apart (λ t. t.id) front back d

  front_apart : All (λ t. includes (ids front) t.id ≡ false) back
  front_apart =
      All-apart (λ t. t.id) back front
        (distinct-perm (Perm.map (λ t. t.id) (perm_append_comm back front)) ∙ d)

  front_fixed : All (λ t. includes (get_fixed_tab_ids (front ++ back)) t.id ≡ is_fixed_tab t) front
  front_fixed = All-append_left _ front back fixed_ids

  back_fixed : All (λ t. includes (get_fixed_tab_ids (front ++ back)) t.id ≡ is_fixed_tab t) back
  back_fixed = All-append_right _ front back fixed_ids

  keep_back :
      filter (kept (get_fixed_tab_ids (front ++ back) ++ ids back)) (front ++ back)
      ≡ filter is_fixed_tab front ++ back
  keep_back =
      filter-append _ front back
      ∙ ap₂ ◌++◌
          (filter_congr _ is_fixed_tab front (
            All-mono _ _ front
              (λ t h. ground (
                arith,
                h.0,
                h.1,
                includes-append (get_fixed_tab_ids (front ++ back)) (ids back) t.id,
              ))
              (All-both _ _ front front_fixed back_apart)))
          (filter_of_All _ back (
            All-mono _ _ back
              (λ t h.
                ground
                  (arith, h, includes-append (get_fixed_tab_ids (front ++ back)) (ids back) t.id))
              (All-includes (λ t. t.id) back)))

  keep_front :
      filter (kept (get_fixed_tab_ids (front ++ back) ++ ids front)) (front ++ back)
      ≡ front ++ filter is_fixed_tab back
  keep_front =
      filter-append _ front back
      ∙ ap₂ ◌++◌
          (filter_of_All _ front (
            All-mono _ _ front
              (λ t h.
                ground
                  (arith, h, includes-append (get_fixed_tab_ids (front ++ back)) (ids front) t.id))
              (All-includes (λ t. t.id) front)))
          (filter_congr _ is_fixed_tab back (
            All-mono _ _ back
              (λ t h. ground (
                arith,
                h.0,
                h.1,
                includes-append (get_fixed_tab_ids (front ++ back)) (ids front) t.id,
              ))
              (All-both _ _ back back_fixed front_apart)))

module _ (push : Push) (tab_id : String) (s : TabStore) (i : ℕ) {home : Tab}
    (h : s.home_tab ≡ some home) (d : distinct (ids s.tabs) ≡ true)
    (found : index_of (ids s.tabs) tab_id ≡ some i) where
  cut : (n : ℕ) → distinct (ids (take n s.tabs ++ drop n s.tabs)) ≡ true
  cut n = ap (λ ts. distinct (ids ts)) (take-append-drop n s.tabs) ∙ d

  -- Where there is a home tab and ids are different, clearing to the left of the tab at a position
  -- leaves this tab and those behind it, and of those before it the fixed ones.
  pub clear_left_tabs-tabs :
      (clear_left_tabs push tab_id s).tabs ≡ filter is_fixed_tab (take i s.tabs) ++ drop i s.tabs
  unfolding clear_left_tabs
  clear_left_tabs-tabs =
      rw (found, clear_left_tabs, drop-map i (λ (t : Tab). t.id) s.tabs)
        (clear_tabs-tabs push (ids (drop i s.tabs)) s h
          ∙ subst
              (λ ts.
                filter (kept (get_fixed_tab_ids ts ++ ids (drop i s.tabs))) ts
                ≡ filter is_fixed_tab (take i s.tabs) ++ drop i s.tabs)
              (take-append-drop i s.tabs) (keep_back (take i s.tabs) (drop i s.tabs) (cut i)))

  -- There, clearing to the right of a tab that is not the home tab leaves this tab and those
  -- before it, and of those behind it the fixed ones.
  pub clear_right_tabs-tabs :
      is_home tab_id s.home_tab ≡ false
      → (clear_right_tabs push tab_id s).tabs
        ≡ take (suc i) s.tabs ++ filter is_fixed_tab (drop (suc i) s.tabs)
  unfolding clear_right_tabs
  clear_right_tabs-tabs other =
      rw (other, found, take-map (suc i) (λ (t : Tab). t.id) s.tabs)
        (clear_tabs-tabs push (ids (take (suc i) s.tabs)) s h
          ∙ subst
              (λ ts.
                filter (kept (get_fixed_tab_ids ts ++ ids (take (suc i) s.tabs))) ts
                ≡ take (suc i) s.tabs ++ filter is_fixed_tab (drop (suc i) s.tabs))
              (take-append-drop (suc i) s.tabs)
              (keep_front (take (suc i) s.tabs) (drop (suc i) s.tabs) (cut (suc i))))

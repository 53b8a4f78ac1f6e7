-- ===== src/Tab/Store/Active.antt =====
-- Whether the active tab is shown after a tab is removed.
use smart_copilot.Common.{
  ℕ, zero, suc, String, ◌≡◌, refl, sym, ap, ◌∙◌, Bool, true, false, not, ◌||◌, Option, none, some,
  List, [], ◌∷◌, ◌==◌, filter, includes, distinct, arith, eq_iff, Bool-cases, inl, inr, find_idx?,
  erase_idx, Option-cases, get_elem?,
}
use smart_copilot.Tab.{Tab, ids, is_tab_in_tabs, get_all_tabs}
use smart_copilot.Tab.Arranged.{includes-get_all_tabs}
use smart_copilot.Tab.Store.{
  TabStore, Push, switch_route_by_tab, remove_tab, remove_at, leave_removed, or_else,
  set_active_tab_id,
}
use smart_copilot.Tab.Store.Ids.{shown_in, erase_first, is_tab_in_tabs_lem}

-- The active tab is among the tabs that are shown.
abbrev pub is_shown : TabStore → Bool
is_shown s = includes (ids (get_all_tabs s.tabs s.home_tab)) s.active_tab_id

-- Every navigation ends with this failure flag, and leaves the store.
abbrev pub Ends : Bool → Push → Type 0
Ends fail push = (path : String) (s : TabStore) → push path s ≡ (s, fail)

erase_idx-next :
    (tabs : List Tab) (i : ℕ) (t : Tab)
    → get_elem? tabs (suc i) ≡ some t
    → is_tab_in_tabs t.id (erase_idx tabs i) ≡ true
erase_idx-next [] i t h = cc
erase_idx-next (u ∷ []) i t h = cc
erase_idx-next (u ∷ v ∷ ts) zero t h = ground (arith, eq_iff v.id t.id)
erase_idx-next (u ∷ v ∷ ts) (suc i) t h = ground (arith, erase_idx-next (v ∷ ts) i t h)

erase_idx-other :
    (tabs : List Tab) (id x : String) (i : ℕ)
    → find_idx? (λ t. t.id == id) tabs ≡ some i
    → (x == id) ≡ false
    → is_tab_in_tabs x (erase_idx tabs i) ≡ is_tab_in_tabs x tabs
erase_idx-other [] id x i h k = cc
erase_idx-other (t ∷ ts) id x i h k = elim (Bool-cases (t.id == id)) [
  | inl here ↦ ground (arith, eq_iff t.id id, eq_iff x id, eq_iff t.id x)
  | inr later ↦ elim (Option-cases (find_idx? (λ t. t.id == id) ts)) [
    | inl missing ↦ ground (arith, later, missing)
    | inr (j, found) ↦ ground (arith, later, found, erase_idx-other ts id x j found k)
  ]
]

is_shown_lem :
    (s : TabStore) {home : Tab}
    → s.home_tab ≡ some home
    → is_shown s ≡ (home.id == s.active_tab_id || is_tab_in_tabs s.active_tab_id s.tabs)
is_shown_lem s {home} h =
    ap (λ o. includes (ids (get_all_tabs s.tabs o)) s.active_tab_id) h
    ∙ rw
        (
          includes-get_all_tabs s.tabs home s.active_tab_id,
          is_tab_in_tabs_lem s.active_tab_id s.tabs,
        )
        refl

removed-absent :
    (id : String) (tabs : List Tab)
    → is_tab_in_tabs id (filter (λ t. not (t.id == id)) tabs) ≡ false
removed-absent id [] = refl
removed-absent id (t ∷ ts) = ground (arith, removed-absent id ts)

module _ (push : Push) where
  module _ (ends : Ends false push) where
    switch_lem : (t : Tab) (s : TabStore) → switch_route_by_tab push t s ≡ set_active_tab_id t.id s
    unfolding switch_route_by_tab
    switch_lem t s = rw (ends t.full_path s)

    leave_removed-shown :
        (o : Option Tab) (t : Tab) (s : TabStore) {home : Tab}
        → o ≡ some t
        → s.home_tab ≡ some home
        → (home.id == t.id || is_tab_in_tabs t.id s.tabs) ≡ true
        → is_shown (leave_removed push true o s) ≡ true
    unfolding leave_removed
    leave_removed-shown o t s {home} e h k =
        rw (e, switch_lem t s) (shown_in s.tabs s.home_tab home t.id h k)

    next-shown :
        (s : TabStore) (i : ℕ) (o : Option Tab) {home : Tab}
        → s.home_tab ≡ some home
        → get_elem? s.tabs (suc i) ≡ o
        → is_shown (
            leave_removed push true (or_else o s.home_tab) (record s { tabs = erase_idx s.tabs i }))
          ≡ true
    next-shown s i none {home} h e =
        leave_removed-shown s.home_tab home (record s { tabs = erase_idx s.tabs i }) h h
          (ground (arith, eq_iff home.id home.id))
    next-shown s i (some t) h e =
        leave_removed-shown (some t) t (record s { tabs = erase_idx s.tabs i }) refl h
          (ground (arith, erase_idx-next s.tabs i t e))

    stays-shown :
        (tab_id : String) (s : TabStore) (i : ℕ) {home : Tab}
        → s.home_tab ≡ some home
        → is_shown s ≡ true
        → find_idx? (λ t. t.id == tab_id) s.tabs ≡ some i
        → (s.active_tab_id == tab_id) ≡ false
        → is_shown (record s { tabs = erase_idx s.tabs i }) ≡ true
    stays-shown tab_id s i {home} h a found other =
        is_shown_lem (record s { tabs = erase_idx s.tabs i }) h
        ∙ rw (erase_idx-other s.tabs tab_id s.active_tab_id i found other)
            (sym (is_shown_lem s h) ∙ a)

    -- Where navigations succeed and leave the store, and there is a home tab, the active tab is
    -- shown after a tab is removed if it was shown before.
    pub remove_tab-shown :
        (tab_id : String) (s : TabStore) {home : Tab}
        → s.home_tab ≡ some home
        → is_shown s ≡ true
        → is_shown (remove_tab push tab_id s) ≡ true
    unfolding remove_tab
    remove_tab-shown tab_id s {home} h a =
        elim (Option-cases (find_idx? (λ t. t.id == tab_id) s.tabs)) [
          | inl missing ↦ rw (missing, remove_at) a
          | inr (i, found) ↦
              rw (found, remove_at)
                (elim (Bool-cases (s.active_tab_id == tab_id)) [
                  | inl leaves ↦ rw leaves (next-shown s i (get_elem? s.tabs (suc i)) h refl)
                  | inr other ↦ rw (other, leave_removed) (stays-shown tab_id s i h a found other)
                ])
        ]

  leave_removed-failed :
      Ends true push → (b : Bool) (o : Option Tab) (s : TabStore) → leave_removed push b o s ≡ s
  unfolding leave_removed switch_route_by_tab
  leave_removed-failed ends false o s = refl
  leave_removed-failed ends true none s = refl
  leave_removed-failed ends true (some t) s = rw (ends t.full_path s)

  remove_tab-failed :
      Ends true push
      → (id : String) (s : TabStore) → distinct (ids s.tabs) ≡ true
      → remove_tab push id s ≡ record s { tabs = filter (λ t. not (t.id == id)) s.tabs }
  unfolding remove_tab
  remove_tab-failed ends id s d = elim (Option-cases (find_idx? (λ t. t.id == id) s.tabs)) [
    | inl missing ↦
        let same : s.tabs ≡ filter (λ t. not (t.id == id)) s.tabs =
          ground (arith, missing, erase_first id s.tabs d) in
        rw (missing, remove_at) (ap (λ ts. record s { tabs = ts }) same)
    | inr (i, found) ↦
        let erased : erase_idx s.tabs i ≡ filter (λ t. not (t.id == id)) s.tabs =
          ground (arith, found, erase_first id s.tabs d) in
        rw (found, remove_at)
          (leave_removed-failed ends _ _ _ ∙ ap (λ ts. record s { tabs = ts }) erased)
  ]

  -- Where navigations fail and leave the store, removing the active tab leaves a store whose
  -- active tab is not shown, if ids are different and the tab is not the home tab.
  pub remove_tab-dangling :
      Ends true push
      → (s : TabStore) {home : Tab} → s.home_tab ≡ some home
      → distinct (ids s.tabs) ≡ true
      → is_tab_in_tabs s.active_tab_id s.tabs ≡ true
      → (home.id == s.active_tab_id) ≡ false
      → is_shown (remove_tab push s.active_tab_id s) ≡ false
  remove_tab-dangling ends s {home} h d a n =
      let s' : TabStore = record s { tabs = filter (λ t. not (t.id == s.active_tab_id)) s.tabs } in
      ap is_shown (remove_tab-failed ends s.active_tab_id s d)
      ∙ is_shown_lem s' h
      ∙ rw (n, removed-absent s.active_tab_id s.tabs) refl

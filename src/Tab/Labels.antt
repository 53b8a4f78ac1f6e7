-- ===== src/Tab/Labels.antt =====
-- Labels: `setTabLabel`, `resetTabLabel` and the change of language, in
-- frontend/src/store/modules/tab/index.ts.
use smart_copilot.Common.{
  String, ◌≡◌, refl, true, Option, none, some, List, [], ◌∷◌, map, ◌==◌, find?, truthy, or_default,
  arith,
}
use smart_copilot.Route.{Env}
use smart_copilot.Tab.{Tab, shown_label, update_tab_by_i18n_key}
use smart_copilot.Tab.Store.{
  TabStore, change_first, relabel_tab, clear_label, set_tab_label, reset_tab_label,
  update_tabs_by_locale,
}

abbrev pub tab_at : String → List Tab → Option Tab
tab_at id tabs = find? (λ t. t.id == id) tabs

-- What a change of one tab that keeps its id does to the tab that an id finds.
tab_at-change_first :
    (f : Tab → Tab) (id : String) (tabs : List Tab)
    → ((t : Tab) → (f t).id ≡ t.id)
    → tab_at id (change_first f id tabs)
      ≡ (elim (tab_at id tabs) [ none ↦ none | some t ↦ some (f t) ])
unfolding change_first
tab_at-change_first f id [] h = refl
tab_at-change_first f id (t ∷ ts) h = ground (arith, h t, tab_at-change_first f id ts h)

tab_at-map :
    (f : Tab → Tab) (id : String) (tabs : List Tab)
    → ((t : Tab) → (f t).id ≡ t.id)
    → tab_at id (map f tabs) ≡ (elim (tab_at id tabs) [ none ↦ none | some t ↦ some (f t) ])
tab_at-map f id [] h = refl
tab_at-map f id (t ∷ ts) h = ground (arith, h t, tab_at-map f id ts h)

module _ (label id : String) (s : TabStore) {t : Tab} (named : truthy id ≡ true)
    (found : tab_at id s.tabs ≡ some t) where
  target : (o : String) → or_default (some id) o ≡ id
  target o = ground arith

  after_set : tab_at id (set_tab_label label (some id) s).tabs ≡ some (relabel_tab label t)
  unfolding set_tab_label
  after_set =
      rw
        (
          target s.active_tab_id,
          tab_at-change_first (relabel_tab label) id s.tabs (λ t. refl),
          found,
        )
        refl

  -- A label that is set, and is not empty, is the label that the tab shows.
  pub set_tab_label-shown :
      truthy label ≡ true
      → (t' : Tab) × (tab_at id (set_tab_label label (some id) s).tabs ≡ some t')
        × (shown_label t' ≡ label)
  set_tab_label-shown h = (relabel_tab label t, after_set, ground arith)

  after_reset :
      tab_at id (reset_tab_label (some id) (set_tab_label label (some id) s)).tabs
      ≡ some (clear_label (relabel_tab label t))
  unfolding reset_tab_label
  after_reset =
      rw
        (
          target (set_tab_label label (some id) s).active_tab_id,
          tab_at-change_first clear_label id (set_tab_label label (some id) s).tabs (λ t. refl),
          after_set,
        )
        refl

  -- Setting a label and resetting it shows the label that the tab has without one.
  pub reset_tab_label-set_tab_label :
      (t' : Tab) × (tab_at id (reset_tab_label (some id) (set_tab_label label (some id) s)).tabs
        ≡ some t')
      × (shown_label t' ≡ t.label)
  reset_tab_label-set_tab_label = (clear_label (relabel_tab label t), after_reset, ground arith)

  -- From then on a change of the language does not reach the label that the tab shows, if the tab
  -- had one: it stays the label of the old language, whatever the translations are.
  pub update_tabs_by_locale_stale :
      (e : Env)
      → truthy t.label ≡ true
      → (t' : Tab) × (tab_at id
            (update_tabs_by_locale e
              (reset_tab_label (some id) (set_tab_label label (some id) s))).tabs
          ≡ some t')
        × (shown_label t' ≡ t.label)
  unfolding update_tabs_by_locale
  update_tabs_by_locale_stale e h = (
    update_tab_by_i18n_key e (clear_label (relabel_tab label t)),
    rw
        (
          tab_at-map (update_tab_by_i18n_key e) id
              (reset_tab_label (some id) (set_tab_label label (some id) s)).tabs (λ t. refl),
          after_reset,
        )
        refl,
    ground arith,
  )

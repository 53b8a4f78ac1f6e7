-- ===== src/Table/Columns.antt =====
-- Which columns a table shows: frontend/src/hooks/common/table.ts.
use smart_copilot.Common.{
  String, ◌≡◌, refl, ap, ap₂, ◌∙◌, Bool, true, false, ◌&&◌, Option, none, some, List, [], ◌∷◌, map,
  if◌then◌else◌, filter, arith, all, is_some, eq_refl, includes, distinct, get_or, if-true,
  if-false,
}
use smart_copilot.Table.{
  Column, Check, key_of, has_key, get_column_checks, column_at, key_is, title_of, get_columns,
  reload_columns, checked_at, add_check,
}
use smart_copilot.Table.Found.{
  add_key, keys, shown_by, is_shown, is_at, and_left, and_right, column_at-later, get_columns-cons,
  get_columns-later, not_includes, distinct_rest, map_if,
}

module _ (t : String → String) (checks : List Check) where
  abbrev reloaded : List Column → List Check
  reloaded columns = reload_columns t columns checks

  -- The check of a key after the reload.
  abbrev check_of : String → String → Check
  check_of key title = record {
    key = key;
    title = title;
    checked = get_or (checked_at key checks) true;
  }

  all-later :
      (column : Column) (columns : List Column) (cs : List Check)
      → all (is_at columns) cs ≡ true
      → all (is_at (column ∷ columns)) cs ≡ true
  all-later column columns [] h = refl
  all-later column columns (c ∷ cs) h =
      ap₂ ◌&&◌ (ap is_some (column_at-later c.key column columns (and_left _ _ h)) ∙ and_left _ _ h)
        (all-later column columns cs (and_right _ _ h))

  has_own_key :
      (column : Column) (key : String) → key_of column ≡ some key → has_key key column ≡ true
  has_own_key column key h = ap (key_is key) h ∙ eq_refl key

  some_or :
      (o : Option Column) (b : Bool) (column : Column)
      → b ≡ true
      → is_some (elim o [ none ↦ if b then some column else none | some c ↦ some c ]) ≡ true
  some_or none b column h = ap is_some (if-true _ _ h)
  some_or (some c) b column h = refl

  at_head :
      (column : Column) (columns : List Column) (key : String)
      → key_of column ≡ some key
      → is_some (column_at key (column ∷ columns)) ≡ true
  unfolding column_at
  at_head column columns key h =
      some_or (column_at key columns) (has_key key column) column (has_own_key column key h)

  or_none :
      (o : Option Column) (b : Bool) (column : Column)
      → o ≡ none
      → elim o [ none ↦ if b then some column else none | some c ↦ some c ]
        ≡ (if b then some column else none)
  or_none none b column h = refl
  or_none (some c) b column h = cc

  head-shown :
      (column : Column) (columns : List Column) (key : String)
      → key_of column ≡ some key
      → column_at key columns ≡ none
      → column_at key (column ∷ columns) ≡ some column
  unfolding column_at
  head-shown column columns key h g =
      or_none (column_at key columns) (has_key key column) column g
      ∙ if-true _ _ (has_own_key column key h)

  not_key :
      (o : Option String) (ks : List String) (key : String)
      → includes (add_key o ks) key ≡ false
      → (key_is key o ≡ false) × (includes ks key ≡ false)
  not_key none ks key h = (refl, h)
  not_key (some k) ks key h = ground arith

  absent :
      (key : String) (columns : List Column)
      → includes (keys columns) key ≡ false
      → column_at key columns ≡ none
  unfolding column_at
  absent key [] h = refl
  absent key (column ∷ columns) h =
      let (own, later) = not_key (key_of column) (keys columns) key h in
      or_none (column_at key columns) (has_key key column) column (absent key columns later)
      ∙ if-false _ _ own

  -- The checks after a reload, one column after the other.
  abbrev reloaded_by : Option String → Column → List Check → List Check
  reloaded_by none column cs = cs
  reloaded_by (some key) column cs = check_of key (title_of t column) ∷ cs

  reloaded_step :
      (o : Option String) (column : Column) (columns : List Column)
      → map
          (λ (c : Check). record c { checked = get_or (checked_at c.key checks) c.checked })
          (add_check t column o (get_column_checks t columns))
        ≡ reloaded_by o column (reloaded columns)
  unfolding reload_columns
  reloaded_step none column columns = refl
  reloaded_step (some key) column columns = refl

  reloaded-cons :
      (column : Column) (columns : List Column)
      → reloaded (column ∷ columns) ≡ reloaded_by (key_of column) column (reloaded columns)
  unfolding reload_columns get_column_checks
  reloaded-cons column columns = reloaded_step (key_of column) column columns

  all_by :
      (o : Option String) (column : Column) (columns : List Column)
      → key_of column ≡ o
      → all (is_at columns) (reloaded columns) ≡ true
      → all (is_at (column ∷ columns)) (reloaded_by o column (reloaded columns)) ≡ true
  all_by none column columns h g = all-later column columns (reloaded columns) g
  all_by (some key) column columns h g =
      ap₂ ◌&&◌ (at_head column columns key h) (all-later column columns (reloaded columns) g)

  all-reloaded : (columns : List Column) → all (is_at columns) (reloaded columns) ≡ true
  unfolding reload_columns get_column_checks
  all-reloaded [] = refl
  all-reloaded (column ∷ columns) =
      ap (all (is_at (column ∷ columns))) (reloaded-cons column columns)
      ∙ all_by (key_of column) column columns refl (all-reloaded columns)

  get_columns_step :
      (o : Option String) (column : Column) (columns : List Column)
      → key_of column ≡ o
      → distinct (add_key o (keys columns)) ≡ true
      → get_columns (column ∷ columns) (reloaded_by o column (reloaded columns)) ≡ (
          if shown_by checks o
          then some column ∷ get_columns columns (reloaded columns)
          else get_columns columns (reloaded columns))
  get_columns_step none column columns h d =
      get_columns-later column columns (reloaded columns) (all-reloaded columns)
  get_columns_step (some key) column columns h d =
      get_columns-cons (column ∷ columns) (check_of key (title_of t column)) (reloaded columns)
      ∙ ap₂ (λ c rest. if get_or (checked_at key checks) true then c ∷ rest else rest)
          (head-shown column columns key h
            (absent key columns (not_includes (includes (keys columns) key) _ d)))
          (get_columns-later column columns (reloaded columns) (all-reloaded columns))

  get_columns-nil : get_columns [] (reloaded []) ≡ []
  unfolding get_columns reload_columns get_column_checks
  get_columns-nil = refl

  -- Where no two columns have one key, a table shows after a reload of its columns those that have a
  -- key and were not unchecked, in their order.
  pub get_columns-reload_columns :
      (columns : List Column)
      → distinct (keys columns) ≡ true
      → get_columns columns (reload_columns t columns checks)
        ≡ map some (filter (is_shown checks) columns)
  get_columns-reload_columns [] h = get_columns-nil
  get_columns-reload_columns (column ∷ columns) h =
      ap (get_columns (column ∷ columns)) (reloaded-cons column columns)
      ∙ get_columns_step (key_of column) column columns refl h
      ∙ ap (λ rest. if is_shown checks column then some column ∷ rest else rest)
          (get_columns-reload_columns columns (distinct_rest (key_of column) (keys columns) h))
      ∙ map_if (is_shown checks column) column (filter (is_shown checks) columns)

-- ===== src/Table.antt =====
-- The columns, the pages and the parameters of tables: frontend/packages/hooks/src/use-table.ts and
-- frontend/src/hooks/common/table.ts.
pub mod Columns
pub mod Found
use smart_copilot.Common.{
  ℕ, suc, zero, ◌+◌, ◌-◌, ◌*◌, String, Bool, true, false, not, ◌&&◌, Option, none, some, List, [],
  ◌∷◌, ◌++◌, map, ◌==◌, if◌then◌else◌, filter, find?, eqb, length, get_or, truthy,
}

-- A column of the table: with a key, for a selection, for an expansion, or of another kind.
pub data Column : Type 0 where
  keyed : String → String → Column
  selection : Column
  expand : Column
  plain : Column

pub record Check : Type 0 where
  pub key : String
  pub title : String
  pub checked : Bool

-- `SELECTION_KEY` and `EXPAND_KEY`; an empty key does not count (`isTableColumnHasKey`).
abbrev pub key_of : Column → Option String
key_of (keyed key title) = if truthy key then some key else none
key_of selection = some "__selection__"
key_of expand = some "__expand__"
key_of plain = none

abbrev pub title_of : (String → String) → Column → String
title_of t (keyed key title) = title
title_of t selection = t "common.check"
title_of t expand = t "common.expandColumn"
title_of t plain = ""

abbrev pub add_check : (String → String) → Column → Option String → List Check → List Check
add_check t column none checks = checks
add_check t column (some key) checks =
    record { key = key; title = title_of t column; checked = true } ∷ checks

-- With the translation `t`.
unfoldable pub get_column_checks : (String → String) → List Column → List Check
get_column_checks t [] = []
get_column_checks t (column ∷ columns) =
    add_check t column (key_of column) (get_column_checks t columns)

abbrev pub key_is : String → Option String → Bool
key_is key none = false
key_is key (some k) = k == key

abbrev pub has_key : String → Column → Bool
has_key key column = key_is key (key_of column)

-- `columnMap.get(key)`: the last column that was set.
unfoldable pub column_at : String → List Column → Option Column
column_at key [] = none
column_at key (column ∷ columns) = elim (column_at key columns) [
  | none ↦ if has_key key column then some column else none
  | some c ↦ some c
]

-- The columns that are shown; undefined for a check without a column.
unfoldable pub get_columns : List Column → List Check → List (Option Column)
unfolding column_at
get_columns columns checks =
    map (λ (c : Check). column_at c.key columns) (filter (λ (c : Check). c.checked) checks)

-- `checkMap.get(key) ?? col.checked`: the last check with the key.
unfoldable pub checked_at : String → List Check → Option Bool
checked_at key [] = none
checked_at key (check ∷ checks) = elim (checked_at key checks) [
  | none ↦ if check.key == key then some check.checked else none
  | some b ↦ some b
]

-- `reloadColumns`, for the columns that there are then.
unfoldable pub reload_columns : (String → String) → List Column → List Check → List Check
unfolding get_column_checks checked_at
reload_columns t columns checks =
    map (λ (c : Check). record c { checked = get_or (checked_at c.key checks) c.checked })
      (get_column_checks t columns)

-- `formatSearchParams`: null and undefined are left out.
abbrev pub Params : Type 0
Params = List (String × Option String)

unfoldable pub format_search_params : Params → List (String × String)
format_search_params [] = []
format_search_params ((key, none) ∷ params) = format_search_params params
format_search_params ((key, some value) ∷ params) = (key, value) ∷ format_search_params params

-- The rows of a page with their numbers.
abbrev numbered {ℓ} : {A : Type ℓ} → ℕ → List A → List (A × ℕ)
numbered n [] = []
numbered n (a ∷ as') = (a, n) ∷ numbered (suc n) as'

pub record PageData (A : Type 0) : Type 0 where
  pub rows : List (A × ℕ)
  pub page_num : ℕ
  pub page_size : ℕ
  pub total : ℕ

-- What the transformer reads of an answer; missing parts are none.
pub record Answer (A : Type 0) : Type 0 where
  pub number : Option ℕ
  pub size : Option ℕ
  pub total_elements : Option ℕ
  pub data_ : Option (List A)
  pub content : Option (List A)

abbrev or_list {ℓ} : {A : Type ℓ} → Option (List A) → Option (List A) → List A
or_list none none = []
or_list none (some content) = content
or_list (some data_) content = data_

unfoldable pub transformer : {A : Type 0} → Answer A → PageData A
transformer res =
    let number = get_or res.number 1 in
    let size = get_or res.size 10 in
    let page_size = if eqb size 0 then 10 else size in
    record {
      rows = numbered ((number - 1) * page_size + 1) (or_list res.data_ res.content);
      page_num = number;
      page_size = page_size;
      total = get_or res.total_elements 0;
    }

pub record Pagination : Type 0 where
  pub page : ℕ
  pub page_size : ℕ
  pub item_count : ℕ

-- What the table keeps: the pagination, and `page` and `size` of the search parameters.
pub record TableState : Type 0 where
  pub pagination : Pagination
  pub page_param : ℕ
  pub size_param : ℕ

unfoldable pub on_update_page : ℕ → TableState → TableState
on_update_page page s = record s {
  pagination = record s.pagination { page = page };
  page_param = page;
  size_param = s.pagination.page_size;
}

unfoldable pub on_update_page_size : ℕ → TableState → TableState
on_update_page_size page_size s = record s {
  pagination = record s.pagination { page_size = page_size; page = 1 };
  page_param = 1;
  size_param = page_size;
}

unfoldable pub on_fetched : {A : Type 0} → PageData A → TableState → TableState
on_fetched d s = record s {
  pagination = record s.pagination {
    page = d.page_num;
    page_size = d.page_size;
    item_count = d.total;
  };
}

-- ===== src/Files/Lists.antt =====
-- Which files the list and the table of frontend/src/views/knowledge-base/index.vue hold.
use smart_copilot.Common.{
  String, ◌≡◌, refl, ap, ap₂, sym, ◌∙◌, Bool, true, false, ◌||◌, Option, none, some, List, [], ◌∷◌,
  ◌++◌, map, ◌==◌, if◌then◌else◌, filter, find?, find?-sound, any, includes, includes-append,
  distinct, arith, Bool-cases, inl, inr, if-true, if-false, if-both, map-append, distinct-concat,
  eq_iff,
}
use smart_copilot.Files.{
  Row, md5_of, is_md5, change_row, sync_task_from_server, take_item, get_list, table_tasks,
  remote_rows, is_local, or_row, is_completed, interrupt,
}

abbrev pub md5s : List Row → List String
md5s rows = map md5_of rows

any-md5s : (rows : List Row) (md5 : String) → any (is_md5 md5) rows ≡ includes (md5s rows) md5
any-md5s [] md5 = refl
any-md5s (row ∷ rows) md5 = ap (λ b. is_md5 md5 row || b) (any-md5s rows md5)

md5s-change_row :
    (md5 : String) (f : Row → Row) (rows : List Row)
    → ((row : Row) → md5_of (f row) ≡ md5_of row)
    → md5s (change_row md5 f rows) ≡ md5s rows
unfolding change_row
md5s-change_row md5 f [] h = refl
md5s-change_row md5 f (row ∷ rows) h = ground (arith, h row, md5s-change_row md5 f rows h)

md5_of-sync : (source target : Row) → md5_of (sync_task_from_server source target) ≡ md5_of target
unfolding sync_task_from_server
md5_of-sync source target = refl

-- The digests after an item of the server: as before, or with its digest behind them.
md5s-take_item :
    (item : Row) (tasks : List Row)
    → md5s (take_item item tasks)
      ≡ (if includes (md5s tasks) (md5_of item) then md5s tasks else md5s tasks ++ md5_of item ∷ [])
unfolding take_item
md5s-take_item item tasks = elim (Bool-cases (any (is_md5 (md5_of item)) tasks)) [
  | inl h ↦
      ap md5s (if-true _ _ h)
      ∙ md5s-change_row (md5_of item) (sync_task_from_server item) tasks (md5_of-sync item)
      ∙ sym (if-true _ _ (sym (any-md5s tasks (md5_of item)) ∙ h))
  | inr h ↦
      ap md5s (if-false _ _ h)
      ∙ if-both md5s (is_completed item.task.status) (map-append md5_of tasks (item ∷ []))
          (map-append md5_of tasks (interrupt item ∷ []))
      ∙ sym (if-false _ _ (sym (any-md5s tasks (md5_of item)) ∙ h))
]

-- The union of two lists without a text twice: what the second has in addition stands behind.
abbrev with_text : List String → String → List String
with_text xs y = if includes xs y then xs else xs ++ y ∷ []

abbrev pub union : List String → List String → List String
union xs [] = xs
union xs (y ∷ ys) = union (with_text xs y) ys

md5s-get_list :
    (data_ tasks : List Row) → md5s (get_list data_ tasks) ≡ union (md5s tasks) (md5s data_)
unfolding get_list
md5s-get_list [] tasks = refl
md5s-get_list (item ∷ data_) tasks =
    md5s-get_list data_ (take_item item tasks)
    ∙ ap (λ xs. union xs (md5s data_)) (md5s-take_item item tasks)

distinct-with_text :
    (xs : List String) (y : String) → distinct xs ≡ true → distinct (with_text xs y) ≡ true
distinct-with_text xs y h = elim (Bool-cases (includes xs y)) [
  | inl g ↦ ap distinct (if-true _ _ g) ∙ h
  | inr g ↦ ap distinct (if-false _ _ g) ∙ distinct-concat xs y h g
]

includes-with_text :
    (xs : List String) (y z : String) → includes (with_text xs y) z ≡ (includes xs z || y == z)
includes-with_text xs y z = elim (Bool-cases (includes xs y)) [
  | inl g ↦ ap (λ l. includes l z) (if-true _ _ g) ∙ ground (arith, eq_iff y z)
  | inr g ↦ ap (λ l. includes l z) (if-false _ _ g) ∙ includes-append xs (y ∷ []) z ∙ ground arith
]

distinct-union : (xs ys : List String) → distinct xs ≡ true → distinct (union xs ys) ≡ true
distinct-union xs [] h = h
distinct-union xs (y ∷ ys) h = distinct-union (with_text xs y) ys (distinct-with_text xs y h)

includes-union :
    (xs ys : List String) (z : String) → includes (union xs ys) z ≡ (includes xs z || includes ys z)
includes-union xs [] z = ground arith
includes-union xs (y ∷ ys) z =
    includes-union (with_text xs y) ys z
    ∙ ap (λ b. b || includes ys z) (includes-with_text xs y z)
    ∙ ground arith

-- The tasks after the list of the server has come: where no two tasks were for one file, none are;
-- there is a task for a file if there was one or the server lists it, and for no other.
pub get_list-tasks :
    (data_ tasks : List Row) (md5 : String)
    → distinct (md5s tasks) ≡ true
    → (distinct (md5s (get_list data_ tasks)) ≡ true)
      × (any (is_md5 md5) (get_list data_ tasks)
          ≡ (any (is_md5 md5) tasks || any (is_md5 md5) data_))
get_list-tasks data_ tasks md5 h = (
  ap distinct (md5s-get_list data_ tasks) ∙ distinct-union (md5s tasks) (md5s data_) h,
  any-md5s (get_list data_ tasks) md5
      ∙ ap (λ xs. includes xs md5) (md5s-get_list data_ tasks)
      ∙ includes-union (md5s tasks) (md5s data_) md5
      ∙ sym (ap₂ ◌||◌ (any-md5s tasks md5) (any-md5s data_ md5)),
)

-- The table
md5_of-or_row :
    (item : Row) (tasks : List Row) (o : Option Row)
    → find? (is_md5 (md5_of item)) tasks ≡ o
    → md5_of (or_row o item) ≡ md5_of item
md5_of-or_row item tasks none h = refl
md5_of-or_row item tasks (some task) h =
    (eq_iff (md5_of task) (md5_of item)).0 (find?-sound (is_md5 (md5_of item)) tasks task h)

md5s-remote_rows : (data_ tasks : List Row) → md5s (remote_rows data_ tasks) ≡ md5s data_
md5s-remote_rows [] tasks = refl
md5s-remote_rows (item ∷ data_) tasks =
    ap₂ ◌∷◌ (md5_of-or_row item tasks (find? (is_md5 (md5_of item)) tasks) refl)
      (md5s-remote_rows data_ tasks)

includes-filter-md5s :
    (q : Row → Bool) (rows : List Row) (md5 : String)
    → includes (md5s rows) md5 ≡ false
    → includes (md5s (filter q rows)) md5 ≡ false
includes-filter-md5s q [] md5 h = refl
includes-filter-md5s q (row ∷ rows) md5 h = ground (arith, includes-filter-md5s q rows md5)

apart :
    (q : Row → Bool) (rows : List Row) (ms : List String)
    → distinct (md5s rows) ≡ true
    → distinct ms ≡ true
    → ((row : Row) → q row ≡ true → includes ms (md5_of row) ≡ false)
    → distinct (md5s (filter q rows) ++ ms) ≡ true
apart q [] ms h k g = k
apart q (row ∷ rows) ms h k g = ground (
  arith,
  includes-filter-md5s q rows (md5_of row),
  apart q rows ms,
  g row,
  includes-append (md5s (filter q rows)) ms (md5_of row),
)

local-apart :
    (remote : List Row) (row : Row)
    → is_local remote row ≡ true
    → any (is_md5 (md5_of row)) remote ≡ false
local-apart remote row h = ground arith

-- Where no two tasks are for one file and no two items of the server's page either, no two rows of
-- the table are; its rows are those of the page, by the digests, behind the files that only this
-- browser knows.
pub table_tasks-rows :
    (data_ tasks : List Row)
    → distinct (md5s tasks) ≡ true
    → distinct (md5s data_) ≡ true
    → (distinct (md5s (table_tasks data_ tasks)) ≡ true)
      × (md5s (table_tasks data_ tasks)
          ≡ md5s (filter (is_local (remote_rows data_ tasks)) tasks) ++ md5s data_)
unfolding table_tasks
table_tasks-rows data_ tasks h k =
    let remote = remote_rows data_ tasks in
    let q = is_local remote in
    let rows : md5s (table_tasks data_ tasks) ≡ md5s (filter q tasks) ++ md5s data_ =
      map-append md5_of (filter q tasks) remote
      ∙ ap (λ ms. md5s (filter q tasks) ++ ms) (md5s-remote_rows data_ tasks) in
    (
      ap distinct rows
          ∙ apart q tasks (md5s data_) h k (λ row g.
            ap (λ ms. includes ms (md5_of row)) (sym (md5s-remote_rows data_ tasks))
            ∙ sym (any-md5s remote (md5_of row))
            ∙ local-apart remote row g),
      rows,
    )

-- ===== src/Table/Found.antt =====
-- The columns that are found by their keys: frontend/src/hooks/common/table.ts.
use smart_copilot.Common.{
  String, ◌≡◌, refl, ap, ap₂, sym, ◌∙◌, Bool, true, false, not, ◌&&◌, Option, none, some, List, [],
  ◌∷◌, map, if◌then◌else◌, arith, all, is_some, distinct, get_or, Bool-cases, inl, inr, if-true,
  if-false,
}
use smart_copilot.Table.{Column, Check, key_of, column_at, get_columns, checked_at}

-- The keys of columns that have one.
abbrev pub add_key : Option String → List String → List String
add_key none ks = ks
add_key (some key) ks = key ∷ ks

abbrev pub keys : List Column → List String
keys [] = []
keys (column ∷ columns) = add_key (key_of column) (keys columns)

-- Whether a column has a key that was not unchecked.
abbrev pub shown_by : List Check → Option String → Bool
shown_by checks none = false
shown_by checks (some key) = get_or (checked_at key checks) true

abbrev pub is_shown : List Check → Column → Bool
is_shown checks column = shown_by checks (key_of column)

abbrev pub is_at : List Column → Check → Bool
is_at columns check = is_some (column_at check.key columns)

pub and_left : (a b : Bool) → a && b ≡ true → a ≡ true
and_left a b h = ground arith

pub and_right : (a b : Bool) → a && b ≡ true → b ≡ true
and_right a b h = ground arith

is_some-later :
    {A : Type 0} (o p : Option A) → is_some o ≡ true → elim o [ none ↦ p | some a ↦ some a ] ≡ o
is_some-later none p h = cc
is_some-later (some a) p h = refl

pub column_at-later :
    (key : String) (column : Column) (columns : List Column)
    → is_some (column_at key columns) ≡ true
    → column_at key (column ∷ columns) ≡ column_at key columns
unfolding column_at
column_at-later key column columns h = is_some-later (column_at key columns) _ h

pub get_columns-cons :
    (columns : List Column) (check : Check) (checks : List Check)
    → get_columns columns (check ∷ checks) ≡ (
        if check.checked
        then column_at check.key columns ∷ get_columns columns checks
        else get_columns columns checks)
unfolding get_columns
get_columns-cons columns check checks = elim (Bool-cases check.checked) [
  | inl on ↦
      ap (map (λ (c : Check). column_at c.key columns)) (if-true _ _ on) ∙ sym (if-true _ _ on)
  | inr off ↦
      ap (map (λ (c : Check). column_at c.key columns)) (if-false _ _ off) ∙ sym (if-false _ _ off)
]

get_columns-empty : (columns : List Column) → get_columns columns [] ≡ []
unfolding get_columns
get_columns-empty columns = refl

pub get_columns-later :
    (column : Column) (columns : List Column) (checks : List Check)
    → all (is_at columns) checks ≡ true
    → get_columns (column ∷ columns) checks ≡ get_columns columns checks
get_columns-later column columns [] h =
    get_columns-empty (column ∷ columns) ∙ sym (get_columns-empty columns)
get_columns-later column columns (check ∷ checks) h =
    get_columns-cons (column ∷ columns) check checks
    ∙ ap₂ (λ c rest. if check.checked then c ∷ rest else rest)
        (column_at-later check.key column columns (and_left _ _ h))
        (get_columns-later column columns checks (and_right _ _ h))
    ∙ sym (get_columns-cons columns check checks)

pub not_includes : (a b : Bool) → not a && b ≡ true → a ≡ false
not_includes a b h = ground arith

pub distinct_rest :
    (o : Option String) (ks : List String) → distinct (add_key o ks) ≡ true → distinct ks ≡ true
distinct_rest none ks h = h
distinct_rest (some k) ks h = and_right _ _ h

pub map_if :
    (b : Bool) (column : Column) (columns : List Column)
    → (if b then some column ∷ map some columns else map some columns)
      ≡ map some (if b then column ∷ columns else columns)
map_if true column columns = refl
map_if false column columns = refl

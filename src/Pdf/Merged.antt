-- ===== src/Pdf/Merged.antt =====
-- The texts of a page merged into one, with the range of each:
-- frontend/src/components/custom/pdf-document-viewer.vue.
use smart_copilot.Common.{
  ℕ, suc, ◌-◌, ◌≡◌, refl, ap, sym, subst, ◌∙◌, Bool, not, ◌||◌, List, [], ◌∷◌, ◌++◌, if◌then◌else◌,
  leb, eqb, length, take, drop, arith, map, ap₂, filter, Bool-cases, inl, inr, if-true, if-false,
  any, length-append, append_assoc, append-nil,
}
use smart_copilot.Common.Units.{Units, trim, is_empty, slice, collapse, remove_spaces}

abbrev is_quote : ℕ → Bool
is_quote u = any (eqb u) (8220 ∷ 8221 ∷ 34 ∷ 12300 ∷ 12301 ∷ 12302 ∷ 12303 ∷ 12298 ∷ 12299 ∷ [])

-- With `normalize('NFKC')` and `toLowerCase` as arguments.
unfoldable pub normalize_for_match : (Units → Units) → (Units → Units) → Units → Units
unfolding collapse trim
normalize_for_match nfkc to_lower_case value =
    to_lower_case (
      trim
        (collapse (filter (λ u. not (is_quote u)) (filter (λ u. not (eqb u 8230)) (nfkc value)))))

unfoldable pub compact_for_match : (Units → Units) → (Units → Units) → Units → Units
unfolding normalize_for_match remove_spaces
compact_for_match nfkc to_lower_case value =
    remove_spaces (normalize_for_match nfkc to_lower_case value)

pub record ItemRange : Type 0 where
  pub index : ℕ
  pub start : ℕ
  pub end : ℕ

abbrev pub Merged : Type 0
Merged = List ItemRange × Units

abbrev add_range : ItemRange → Merged → Merged
add_range r (ranges, text) = (r ∷ ranges, text)

-- What stands before the text of an item: the texts so far, and a separator if there are any.
abbrev before_item : Units → Units → Units
before_item separator merged = if is_empty merged then merged else merged ++ separator

abbrev range_of : ℕ → Units → Units → ItemRange
range_of index before item = record {
  index = index;
  start = length before;
  end = length (before ++ item);
}

-- Both loops over the items: a space between the texts in `applyHighlight`, nothing in
-- `resolveDirectClueHighlight`.
unfoldable pub merge_items : (Units → Units) → Units → ℕ → Units → List Units → Merged
merge_items normalize separator index merged [] = ([], merged)
merge_items normalize separator index merged (item ∷ items) =
    let skipped = merge_items normalize separator (suc index) merged items in
    let before = before_item separator merged in
    let taken =
      add_range (range_of index before (normalize item))
        (merge_items normalize separator (suc index) (before ++ normalize item) items) in
    if is_empty (normalize item) then skipped else taken

-- The items that a match overlaps: `!(end <= matchStart || start >= matchEnd)`.
abbrev pub matched_ranges : ℕ → ℕ → List ItemRange → List ItemRange
matched_ranges match_start match_end =
    filter (λ r. not (leb r.end match_start || leb match_end r.start))

take-append_same : (xs ys : Units) → take (length xs) (xs ++ ys) ≡ xs
take-append_same [] ys = refl
take-append_same (x ∷ xs) ys = ap (◌∷◌ x) (take-append_same xs ys)

drop-append_same : (xs ys : Units) → drop (length xs) (xs ++ ys) ≡ ys
drop-append_same [] ys = refl
drop-append_same (x ∷ xs) ys = drop-append_same xs ys

length-minus : (xs ys : Units) → length (xs ++ ys) - length xs ≡ length ys
length-minus xs ys = omega (arith, length-append xs ys)

-- What has been merged is the start of the merged text.
module _ (normalize : Units → Units) (separator : Units) where
  abbrev text_of : ℕ → Units → List Units → Units
  text_of index merged items = (merge_items normalize separator index merged items).1

  abbrev Extends : Units → Units → Type 0
  Extends merged text = (rest : Units) × (text ≡ merged ++ rest)

  Extends-append : (xs ys text : Units) → Extends (xs ++ ys) text → Extends xs text
  Extends-append xs ys text (rest, e) = (ys ++ rest, e ∙ append_assoc xs ys rest)

  Extends-before :
      (merged text : Units) → Extends (before_item separator merged) text → Extends merged text
  Extends-before [] text h = h
  Extends-before (u ∷ merged) text h = Extends-append (u ∷ merged) separator text h

  text-Extends :
      (index : ℕ) (merged : Units) (items : List Units)
      → Extends merged (text_of index merged items)
  unfolding merge_items
  text-Extends index merged [] = ([], sym (append-nil merged))
  text-Extends index merged (item ∷ items) = elim (Bool-cases (is_empty (normalize item))) [
    | inl e ↦
        subst (λ (m : Merged). Extends merged m.1) (sym (if-true _ _ e))
          (text-Extends (suc index) merged items)
    | inr e ↦
        let before = before_item separator merged in
        subst (λ (m : Merged). Extends merged m.1) (sym (if-false _ _ e))
          (Extends-before merged (text_of (suc index) (before ++ normalize item) items) (
            Extends-append before (normalize item)
              (text_of (suc index) (before ++ normalize item) items)
              (text-Extends (suc index) (before ++ normalize item) items)))
  ]

  slice-Extends :
      (before item text : Units)
      → Extends (before ++ item) text
      → slice (length before) (length (before ++ item)) text ≡ item
  slice-Extends before item text (rest, e) =
      ap (slice (length before) (length (before ++ item))) (e ∙ append_assoc before item rest)
      ∙ ap (take (length (before ++ item) - length before)) (drop-append_same before (item ++ rest))
      ∙ ap (λ n. take n (item ++ rest)) (length-minus before item)
      ∙ take-append_same item rest

  abbrev text_at : Units → ItemRange → Units
  text_at text r = slice r.start r.end text

  abbrev is_kept : Units → Bool
  is_kept us = not (is_empty us)

  -- The ranges delimit in the merged text the normalized texts of the items that are not empty, in
  -- their order.
  pub merge_items-slices :
      (index : ℕ) (merged : Units) (items : List Units)
      → map
          (text_at (text_of index merged items))
          (merge_items normalize separator index merged items).0
        ≡ filter is_kept (map normalize items)
  unfolding merge_items
  merge_items-slices index merged [] = refl
  merge_items-slices index merged (item ∷ items) = elim (Bool-cases (is_empty (normalize item))) [
    | inl e ↦
        ap (λ (m : Merged). map (text_at m.1) m.0) (if-true _ _ e)
        ∙ merge_items-slices (suc index) merged items
        ∙ sym (if-false _ _ (ap not e))
    | inr e ↦
        let before = before_item separator merged in
        let text = text_of (suc index) (before ++ normalize item) items in
        ap (λ (m : Merged). map (text_at m.1) m.0) (if-false _ _ e)
        ∙ ap₂ ◌∷◌
            (slice-Extends before (normalize item) text
              (text-Extends (suc index) (before ++ normalize item) items))
            (merge_items-slices (suc index) (before ++ normalize item) items)
        ∙ sym (if-true _ _ (ap not e))
  ]

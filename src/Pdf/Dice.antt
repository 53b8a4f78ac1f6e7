-- ===== src/Pdf/Dice.antt =====
-- The bounds of the coefficient of Dice, by which
-- frontend/src/components/custom/pdf-document-viewer.vue compares texts.
use smart_copilot.Common.{
  ℕ, ◌+◌, ◌*◌, ◌≤◌, ◌≡◌, refl, ap, sym, Bool, true, false, not, ◌&&◌, ◌||◌, [], ◌∷◌, if◌then◌else◌,
  eqb_iff, arith,
}
use smart_copilot.Common.Units.{Units, remove_spaces}
use smart_copilot.Pdf.Bigrams.{
  same, Counts, add_bigram, add_bigrams, bigrams_of, build_bigrams, count_of, overlap, size,
  no_counts, calculate_dice_coefficient,
}

same_refl : (us : Units) → same us us ≡ true
unfolding same
same_refl [] = refl
same_refl (u ∷ us) = ground (arith, eqb_iff u u, same_refl us)

same-eq : (us vs : Units) → same us vs ≡ true → us ≡ vs
unfolding same
same-eq [] [] h = refl
same-eq [] (v ∷ vs) h = cc
same-eq (u ∷ us) [] h = cc
same-eq (u ∷ us) (v ∷ vs) h = ground (arith, eqb_iff u v, same-eq us vs)

same_sym : (us vs : Units) → same us vs ≡ same vs us
unfolding same
same_sym [] [] = refl
same_sym [] (v ∷ vs) = refl
same_sym (u ∷ us) [] = refl
same_sym (u ∷ us) (v ∷ vs) = ground (arith, eqb_iff u v, eqb_iff v u, same_sym us vs)

same-same : (k l m : Units) → same k m ≡ true → same l m ≡ same l k
same-same k l m h = ap (same l) (sym (same-eq k m h))

abbrev has_key : Units → Counts → Bool
has_key k [] = false
has_key k ((l, c) ∷ counts) = same k l || has_key k counts

abbrev distinct_keys : Counts → Bool
distinct_keys [] = true
distinct_keys ((k, c) ∷ counts) = not (has_key k counts) && distinct_keys counts

-- The counts without the first of a key.
abbrev remove : Units → Counts → Counts
remove k [] = []
remove k ((l, c) ∷ counts) =
    let rest = remove k counts in if same k l then counts else (l, c) ∷ rest

size-remove :
    (k : Units) (counts : Counts) → size counts ≡ count_of k counts + size (remove k counts)
unfolding count_of
size-remove k [] = omega arith
size-remove k ((l, c) ∷ counts) = ground (arith, size-remove k counts)

count_of-remove :
    (k l : Units) (counts : Counts)
    → same l k ≡ false
    → count_of l (remove k counts) ≡ count_of l counts
unfolding count_of
count_of-remove k l [] h = refl
count_of-remove k l ((m, c) ∷ counts) h =
    ground (arith, same-same k l m, count_of-remove k l counts)

overlap-remove :
    (k : Units) (left right : Counts)
    → has_key k left ≡ false
    → overlap left (remove k right) ≡ overlap left right
unfolding overlap
overlap-remove k [] right h = refl
overlap-remove k ((l, c) ∷ left) right h =
    ground (arith, same_sym l k, count_of-remove k l right, overlap-remove k left right)

overlap-le_left : (left right : Counts) → overlap left right ≤ size left
unfolding overlap
overlap-le_left [] right = omega arith
overlap-le_left ((k, c) ∷ left) right = omega (arith, overlap-le_left left right)

overlap-le_right :
    (left right : Counts) → distinct_keys left ≡ true → overlap left right ≤ size right
unfolding overlap
overlap-le_right [] right h = omega arith
overlap-le_right ((k, c) ∷ left) right h = ground (
  arith,
  overlap-le_right left (remove k right),
  overlap-remove k left right,
  size-remove k right,
)

has_key-add_bigram :
    (k l : Units) (counts : Counts)
    → has_key l (add_bigram k counts) ≡ (same l k || has_key l counts)
unfolding add_bigram
has_key-add_bigram k l [] = refl
has_key-add_bigram k l ((m, c) ∷ counts) =
    ground (arith, same-same k l m, has_key-add_bigram k l counts)

distinct-add_bigram :
    (k : Units) (counts : Counts)
    → distinct_keys counts ≡ true
    → distinct_keys (add_bigram k counts) ≡ true
unfolding add_bigram
distinct-add_bigram k [] h = refl
distinct-add_bigram k ((m, c) ∷ counts) h =
    ground (arith, same_sym k m, has_key-add_bigram k m counts, distinct-add_bigram k counts)

distinct-add_bigrams :
    (us : Units) (counts : Counts)
    → distinct_keys counts ≡ true
    → distinct_keys (add_bigrams us counts) ≡ true
unfolding add_bigrams
distinct-add_bigrams [] counts h = h
distinct-add_bigrams (u ∷ []) counts h = h
distinct-add_bigrams (u ∷ v ∷ us) counts h =
    distinct-add_bigrams (v ∷ us) (add_bigram (u ∷ v ∷ []) counts)
      (distinct-add_bigram (u ∷ v ∷ []) counts h)

distinct-bigrams_of : (us : Units) → distinct_keys (bigrams_of us) ≡ true
distinct-bigrams_of [] = refl
distinct-bigrams_of (u ∷ []) = refl
distinct-bigrams_of (u ∷ v ∷ us) = distinct-add_bigrams (u ∷ v ∷ us) [] refl

distinct-build_bigrams : (value : Units) → distinct_keys (build_bigrams value) ≡ true
unfolding build_bigrams
distinct-build_bigrams value = distinct-bigrams_of (remove_spaces value)

overlap_comm-le :
    (left right : Counts)
    → distinct_keys left ≡ true
    → 2 * overlap left right ≤ size left + size right
overlap_comm-le left right h =
    omega (arith, overlap-le_left left right, overlap-le_right left right h)

overlap_more :
    (k : Units) (c : ℕ) (left right : Counts)
    → has_key k left ≡ false
    → overlap left ((k, c) ∷ right) ≡ overlap left right
unfolding overlap count_of
overlap_more k c [] right h = refl
overlap_more k c ((l, d) ∷ left) right h = ground (arith, same_sym l k, overlap_more k c left right)

overlap_self : (counts : Counts) → distinct_keys counts ≡ true → overlap counts counts ≡ size counts
unfolding overlap count_of
overlap_self [] h = refl
overlap_self ((k, c) ∷ counts) h =
    ground (arith, same_refl k, overlap_more k c counts counts, overlap_self counts)

-- The coefficient is at most one, and that of a text and itself is one, or 0 if it has no pairs.
pub calculate_dice_coefficient-bounds :
    (left right : Units)
    → ((calculate_dice_coefficient left right).0 ≤ (calculate_dice_coefficient left right).1)
      × ((calculate_dice_coefficient left left).0 ≡ (
          if no_counts (build_bigrams left) then 0 else (calculate_dice_coefficient left left).1))
unfolding calculate_dice_coefficient
calculate_dice_coefficient-bounds left right =
    let l = build_bigrams left in
    let r = build_bigrams right in
    (
      ground (arith, overlap_comm-le l r (distinct-build_bigrams left)),
      ground (arith, overlap_self l (distinct-build_bigrams left)),
    )

-- ===== src/Pdf/Bigrams.antt =====
-- The likeness of two texts by their pairs of units:
-- frontend/src/components/custom/pdf-document-viewer.vue.
use smart_copilot.Common.{
  ℕ, ◌+◌, ◌*◌, min, Bool, true, false, ◌&&◌, ◌||◌, List, [], ◌∷◌, if◌then◌else◌, eqb,
}
use smart_copilot.Common.Units.{Units, remove_spaces}

-- Whether two texts are the same.
unfoldable pub same : Units → Units → Bool
same [] [] = true
same [] (v ∷ vs) = false
same (u ∷ us) [] = false
same (u ∷ us) (v ∷ vs) = eqb u v && same us vs

abbrev pub Counts : Type 0
Counts = List (Units × ℕ)

-- `bigrams.set(k, (bigrams.get(k) || 0) + 1)`
unfoldable pub add_bigram : Units → Counts → Counts
unfolding same
add_bigram k [] = (k, 1) ∷ []
add_bigram k ((l, c) ∷ counts) =
    let rest = add_bigram k counts in if same k l then (l, c + 1) ∷ counts else (l, c) ∷ rest

unfoldable pub add_bigrams : Units → Counts → Counts
unfolding add_bigram
add_bigrams [] counts = counts
add_bigrams (u ∷ []) counts = counts
add_bigrams (u ∷ v ∷ us) counts = add_bigrams (v ∷ us) (add_bigram (u ∷ v ∷ []) counts)

abbrev pub bigrams_of : Units → Counts
bigrams_of [] = []
bigrams_of (u ∷ []) = (u ∷ [], 1) ∷ []
bigrams_of (u ∷ v ∷ us) = add_bigrams (u ∷ v ∷ us) []

unfoldable pub build_bigrams : Units → Counts
unfolding add_bigrams remove_spaces
build_bigrams value = bigrams_of (remove_spaces value)

-- `bigrams.get(k) || 0`
unfoldable pub count_of : Units → Counts → ℕ
unfolding same
count_of k [] = 0
count_of k ((l, c) ∷ counts) = let rest = count_of k counts in if same k l then c else rest

unfoldable pub overlap : Counts → Counts → ℕ
unfolding count_of
overlap [] right = 0
overlap ((k, c) ∷ left) right = min c (count_of k right) + overlap left right

abbrev pub size : Counts → ℕ
size [] = 0
size ((k, c) ∷ counts) = c + size counts

abbrev pub no_counts : Counts → Bool
no_counts [] = true
no_counts (k ∷ ks) = false

-- The coefficient as a fraction: its two parts.
unfoldable pub calculate_dice_coefficient : Units → Units → ℕ × ℕ
unfolding overlap build_bigrams
calculate_dice_coefficient left right =
    let left_bigrams = build_bigrams left in
    let right_bigrams = build_bigrams right in
    if no_counts left_bigrams || no_counts right_bigrams
    then (0, 1)
    else (2 * overlap left_bigrams right_bigrams, size left_bigrams + size right_bigrams)

-- ===== src/Pdf/Match.antt =====
-- Where the text of a page matches an anchor:
-- frontend/src/components/custom/pdf-document-viewer.vue.
use smart_copilot.Common.{
  ℕ, ◌+◌, ◌-◌, ◌≤◌, min, ◌≡◌, refl, ap, subst, ◌∙◌, Bool, true, false, ◌⊎◌, inl, inr, Option, none,
  some, List, [], ◌∷◌, if◌then◌else◌, ltb, length, take, drop, arith, get_or,
}
use smart_copilot.Common.Units.{Units, index_of, trim, is_empty, slice, take-index_of, index_of-le}

-- `anchor.slice(0, Math.min(anchor.length, 48)).trim()`
abbrev pub partial_anchor : Units → Units
partial_anchor anchor = trim (slice 0 (min (length anchor) 48) anchor)

abbrev pub Range : Type 0
Range = ℕ × ℕ

abbrev range_at : Units → Option ℕ → Option Range → Option Range
range_at needle none later = later
range_at needle (some i) later = some (i, i + length needle)

unfoldable pub resolve_match_range : Units → List Units → Option Range
unfolding index_of trim
resolve_match_range target [] = none
resolve_match_range target (anchor ∷ anchors) =
    let later = resolve_match_range target anchors in
    if is_empty target
    then none
    else if is_empty anchor
    then later
    else range_at anchor (index_of anchor target) (
        if ltb (length (partial_anchor anchor)) 8
        then later
        else range_at (partial_anchor anchor) (index_of (partial_anchor anchor) target) later)

-- The text of a range is this one.
abbrev Delimits : Units → Range → Units → Type 0
Delimits target (start, end) needle =
    (slice start end target ≡ needle) × ((start ≤ end) × (end ≤ length target))

some_inj : (p q : Range) → some p ≡ some q → p ≡ q
some_inj p q h = ap (λ o. get_or o p) h

plus_minus : (i n : ℕ) → i + n - i ≡ n
plus_minus i n = omega arith

slice_at :
    (target needle : Units) (i : ℕ)
    → index_of needle target ≡ some i
    → Delimits target (i, i + length needle) needle
slice_at target needle i h = (
  ap (λ n. take n (drop i target)) (plus_minus i (length needle)) ∙ take-index_of needle target i h,
  (omega arith, index_of-le needle target i h),
)

range_at-cases :
    (target needle : Units) (x : Option ℕ) (later : Option Range) (r : Range)
    → index_of needle target ≡ x
    → range_at needle x later ≡ some r
    → Delimits target r needle ⊎ (later ≡ some r)
range_at-cases target needle none later r e h = inr h
range_at-cases target needle (some i) later r e h = inl (
    subst (λ q. Delimits target q needle) (some_inj (i, i + length needle) r h)
      (slice_at target needle i e))

-- A text that is one of the anchors or the start of one.
abbrev IsFrom : Units → List Units → Type 0
IsFrom needle [] = ⊥
IsFrom needle (anchor ∷ anchors) =
    ((needle ≡ anchor) ⊎ (needle ≡ partial_anchor anchor)) ⊎ IsFrom needle anchors

abbrev pub Matches : Units → List Units → Range → Type 0
Matches target anchors r = (needle : Units) × (IsFrom needle anchors × Delimits target r needle)

Matches-later :
    (target anchor : Units) (anchors : List Units) (r : Range)
    → Matches target anchors r
    → Matches target (anchor ∷ anchors) r
Matches-later target anchor anchors r (needle, (f, d)) = (needle, (inr f, d))

module _ (target anchor : Units) (anchors : List Units) (r : Range) (later : Option Range)
    (in_later : later ≡ some r → Matches target anchors r) where
  from_later : later ≡ some r → Matches target (anchor ∷ anchors) r
  from_later h = Matches-later target anchor anchors r (in_later h)

  from_partial :
      (short : Bool)
      → (if short
          then later
          else range_at (partial_anchor anchor) (index_of (partial_anchor anchor) target) later)
        ≡ some r
      → Matches target (anchor ∷ anchors) r
  from_partial true h = from_later h
  from_partial false h =
      elim (range_at-cases target (partial_anchor anchor) (index_of (partial_anchor anchor) target)
        later r refl h) [
          | inl d ↦ (partial_anchor anchor, (inl (inr refl), d))
          | inr g ↦ from_later g
        ]

  from_anchor :
      (no_target no_anchor short : Bool)
      → (if no_target
          then none
          else if no_anchor
          then later
          else range_at anchor (index_of anchor target) (
              if short
              then later
              else range_at
                  (partial_anchor anchor)
                  (index_of (partial_anchor anchor) target)
                  later))
        ≡ some r
      → Matches target (anchor ∷ anchors) r
  from_anchor true no_anchor short h = cc
  from_anchor false true short h = from_later h
  from_anchor false false short h =
      elim (range_at-cases target anchor (index_of anchor target) _ r refl h) [
        | inl d ↦ (anchor, (inl (inl refl), d))
        | inr g ↦ from_partial short g
      ]

-- A range that is found is within the text of the page, and delimits one of the anchors or the start
-- of one, trimmed.
pub resolve_match_range-Matches :
    (target : Units) (anchors : List Units) (r : Range)
    → resolve_match_range target anchors ≡ some r
    → Matches target anchors r
unfolding resolve_match_range
resolve_match_range-Matches target [] r h = cc
resolve_match_range-Matches target (anchor ∷ anchors) r h =
    from_anchor target anchor anchors r (resolve_match_range target anchors)
      (resolve_match_range-Matches target anchors r) (is_empty target) (is_empty anchor)
      (ltb (length (partial_anchor anchor)) 8) h

-- ===== src/ChatMessage/Urls.antt =====
-- The punctuation behind an address in a text:
-- frontend/src/views/chat/modules/chat-message.vue.
use smart_copilot.Common.{
  ℕ, ◌+◌, ◌≡◌, refl, ap, ◌∙◌, Bool, true, false, not, ◌||◌, Option, none, some, [], ◌∷◌, ◌++◌,
  if◌then◌else◌, eqb, ltb, any, append-nil, Bool-cases, inl, inr, if-true, if-false,
}
use smart_copilot.Common.Units.{Units}

-- `，。！？；：、,.!?;:`
abbrev pub is_punctuation : ℕ → Bool
is_punctuation u =
    any (eqb u)
      (65292 ∷ 12290 ∷ 65281 ∷ 65311 ∷ 65307 ∷ 65306 ∷ 12289 ∷ 44 ∷ 46 ∷ 33 ∷ 63 ∷ 59 ∷ 58 ∷ [])

-- A closing bracket and its opening one.
abbrev opening_of : ℕ → Option ℕ
opening_of u = if eqb u 41 then some 40 else if eqb u 65289 then some 65288 else none

abbrev count : ℕ → Units → ℕ
count u [] = 0
count u (v ∷ us) = (if eqb u v then 1 else 0) + count u us

abbrev closes_more : ℕ → Option ℕ → Units → Bool
closes_more closing none url = false
closes_more closing (some opening) url = ltb (count opening url) (count closing url)

-- Whether the last unit `u` of an address goes to what trails it. The address is read from its end.
abbrev pub is_trailing : ℕ → Units → Bool
is_trailing u rest = is_punctuation u || closes_more u (opening_of u) (u ∷ rest)

-- `us` from its end, in front of a text.
abbrev from_end : Units → Units → Units
from_end [] text = text
from_end (u ∷ us) text = from_end us (u ∷ text)

-- The loop, on the address from its end: the address, and what trails it.
unfoldable pub split_from_end : Units → Units → Units × Units
split_from_end [] trailing = ([], trailing)
split_from_end (u ∷ url) trailing =
    let shorter = split_from_end url (u ∷ trailing) in
    if is_trailing u url then shorter else (from_end (u ∷ url) [], trailing)

unfoldable pub split_trailing_url_punctuation : Units → Units × Units
unfolding split_from_end
split_trailing_url_punctuation raw_url = split_from_end (from_end raw_url []) []

from_end-append : (us text more : Units) → from_end us text ++ more ≡ from_end us (text ++ more)
from_end-append [] text more = refl
from_end-append (u ∷ us) text more = from_end-append us (u ∷ text) more

from_end-from_end : (us vs text : Units) → from_end (from_end us vs) text ≡ from_end vs (us ++ text)
from_end-from_end [] vs text = refl
from_end-from_end (u ∷ us) vs text = from_end-from_end us (u ∷ vs) text

abbrev pub joined : Units × Units → Units
joined (url, trailing) = url ++ trailing

-- Whether nothing more of an address, read from its end, goes to what trails it.
abbrev ends_well : Units → Bool
ends_well [] = true
ends_well (u ∷ url) = not (is_trailing u url)

abbrev pub is_trimmed : Units × Units → Bool
is_trimmed (url, trailing) = ends_well (from_end url [])

joined-split_from_end :
    (url trailing : Units) → joined (split_from_end url trailing) ≡ from_end url trailing
unfolding split_from_end
joined-split_from_end [] trailing = refl
joined-split_from_end (u ∷ url) trailing = elim (Bool-cases (is_trailing u url)) [
  | inl h ↦ ap joined (if-true _ _ h) ∙ joined-split_from_end url (u ∷ trailing)
  | inr h ↦ ap joined (if-false _ _ h) ∙ from_end-append (u ∷ url) [] trailing
]

split_from_end-trimmed : (url trailing : Units) → is_trimmed (split_from_end url trailing) ≡ true
unfolding split_from_end
split_from_end-trimmed [] trailing = refl
split_from_end-trimmed (u ∷ url) trailing = elim (Bool-cases (is_trailing u url)) [
  | inl h ↦ ap is_trimmed (if-true _ _ h) ∙ split_from_end-trimmed url (u ∷ trailing)
  | inr h ↦
      ap is_trimmed (if-false _ _ h)
      ∙ ap ends_well (from_end-from_end (u ∷ url) [] [] ∙ append-nil (u ∷ url))
      ∙ ap not h
]

-- An address and what trails it are together the text that was split, and the address does not end
-- in what would trail it: punctuation, or a bracket that closes more than is opened.
pub split_trailing_url_punctuation-joined :
    (raw_url : Units)
    → (joined (split_trailing_url_punctuation raw_url) ≡ raw_url)
      × (is_trimmed (split_trailing_url_punctuation raw_url) ≡ true)
unfolding split_trailing_url_punctuation
split_trailing_url_punctuation-joined raw_url = (
  joined-split_from_end (from_end raw_url []) []
      ∙ from_end-from_end raw_url [] []
      ∙ append-nil raw_url,
  split_from_end-trimmed (from_end raw_url []) [],
)

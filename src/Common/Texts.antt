-- ===== src/Common/Texts.antt =====
-- Texts as JavaScript reads them: their length in UTF-16 units, `trim`, and the decimal form of a
-- number.
use Prim.Native.String
use Prim.Native.String.{String}
use Prim.Native.Char.{Char, code}
use Prim.Native.Nat.{ℕ, zero, suc, ◌+◌, ◌/◌, ◌%◌, ◌<◌, ◌≤◌}
use native.Mathlib.Omega.{arith}
use mathlib.Core.Logic.{inl, inr}
use mathlib.Core.Path.{◌≡◌, refl, sym, ◌∙◌}
use mathlib.Core.Bool.{Bool, true, false, ◌&&◌, ◌||◌}
use mathlib.Core.List.{List, [], ◌∷◌}
use smart_copilot.Common.Tests.{if-true, if-false, Bool-cases, ltb, leb, eqb, if◌then◌else◌}

unfoldable pub utf16_length : String → ℕ
utf16_length String.[] = 0
utf16_length (String.◌∷◌ c s) = (if ltb (code c) 65536 then 1 else 2) + utf16_length s

-- White space and line ends of ECMAScript.
abbrev pub is_space : Char → Bool
is_space c =
    let n = code c in
    leb 9 n && leb n 13
    || eqb n 32
    || eqb n 160
    || eqb n 5760
    || leb 8192 n && leb n 8202
    || eqb n 8232
    || eqb n 8233
    || eqb n 8239
    || eqb n 8287
    || eqb n 12288
    || eqb n 65279

unfoldable pub trim_start : String → String
trim_start String.[] = ""
trim_start (String.◌∷◌ c s) = let rest = trim_start s in if is_space c then rest else String.◌∷◌ c s

abbrev is_empty : String → Bool
is_empty String.[] = true
is_empty (String.◌∷◌ c s) = false

unfoldable pub trim_end : String → String
trim_end String.[] = ""
trim_end (String.◌∷◌ c s) =
    let rest = trim_end s in if is_empty rest && is_space c then "" else String.◌∷◌ c rest

unfoldable pub trim : String → String
unfolding trim_start trim_end
trim s = trim_end (trim_start s)

abbrev digit : ℕ → String
digit d = String.slice "0123456789" d (d + 1)

-- The digits of a number that is below ten to the power of the fuel, in front of a text.
unfoldable digits : ℕ → ℕ → String → String
digits zero n rest = rest
digits (suc fuel) n rest =
    let more = digits fuel (n / 10) (String.◌++◌ (digit (n % 10)) rest) in
    if ltb n 10 then String.◌++◌ (digit n) rest else more

unfoldable pub show : ℕ → String
unfolding digits
show n = digits (suc n) n ""

tenth_less : (n fuel : ℕ) → n < suc fuel → 10 ≤ n → n / 10 < fuel
tenth_less n fuel h g = omega (arith, h, g)

-- More fuel than the number is large changes nothing, so the fuel of `show` is enough.
digits_more :
    (fuel n : ℕ) (rest : String) → n < fuel → digits (suc fuel) n rest ≡ digits fuel n rest
unfolding digits
digits_more zero n rest h = absurd (omega (arith, h))
digits_more (suc fuel) n rest h =
    let next = String.◌++◌ (digit (n % 10)) rest in
    elim (Bool-cases (ltb n 10)) [
      | inl small ↦ if-true _ _ small ∙ sym (if-true _ _ small)
      | inr large ↦
          if-false _ _ large
          ∙ digits_more fuel (n / 10) next (tenth_less n fuel h (ground arith))
          ∙ sym (if-false _ _ large)
    ]

trimmed : trim "  a b\n" ≡ "a b"
unfolding trim trim_start trim_end
trimmed = refl

shown : show 130 ≡ "130"
unfolding show digits
shown = refl

-- `s.startsWith(prefix)`
unfoldable pub starts_with : String → String → Bool
starts_with String.[] s = true
starts_with (String.◌∷◌ c p) String.[] = false
starts_with (String.◌∷◌ c p) (String.◌∷◌ d s) = eqb (code c) (code d) && starts_with p s

abbrev pub drop_text : String → String → String
drop_text String.[] s = s
drop_text (String.◌∷◌ c p) String.[] = ""
drop_text (String.◌∷◌ c p) (String.◌∷◌ d s) = drop_text p s

-- `s.replace(needle, '')` for a text that is not empty: its first occurrence goes.
unfoldable pub remove_first : String → String → String
unfolding starts_with
remove_first needle String.[] = ""
remove_first needle (String.◌∷◌ d s) =
    let rest = remove_first needle s in
    if starts_with needle (String.◌∷◌ d s)
    then drop_text needle (String.◌∷◌ d s)
    else String.◌∷◌ d rest

-- `s.includes(c)` for one unit
unfoldable pub has_char : ℕ → String → Bool
has_char n String.[] = false
has_char n (String.◌∷◌ d s) = eqb (code d) n || has_char n s

-- The parts of `s.split(c)` for one unit.
abbrev add_char : Char → List String → List String
add_char d [] = String.◌∷◌ d "" ∷ []
add_char d (s ∷ ss) = String.◌∷◌ d s ∷ ss

unfoldable pub split : ℕ → String → List String
split n String.[] = "" ∷ []
split n (String.◌∷◌ d s) =
    let parts = split n s in if eqb (code d) n then "" ∷ parts else add_char d parts

-- ===== src/Common/Units.antt =====
-- Texts as JavaScript holds them: lists of UTF-16 units, their search and slices.

use Prim.Native.String.{String}
use Prim.Native.Char.{code}
use Prim.Native.Nat.{ℕ, zero, suc, ◌+◌, ◌-◌, ◌/◌, ◌%◌, ◌≤◌}
use mathlib.Core.Path.{◌≡◌, refl}
use mathlib.Core.Bool.{Bool, true, false, ◌&&◌, ◌||◌}
use mathlib.Core.Option.{Option, none, some}
use mathlib.Core.List.{List, [], ◌∷◌, ◌++◌}
use native.Mathlib.Omega.{arith}
use smart_copilot.Common.Tests.{ltb, leb, eqb, eqb_iff, if◌then◌else◌}
use smart_copilot.Common.Lists.{length, take, drop}

abbrev pub Units : Type 0
Units = List ℕ

-- The units of a code point: itself, or a pair of surrogates.
abbrev units_of : ℕ → Units
units_of c =
    if ltb c 65536 then c ∷ [] else (55296 + (c - 65536) / 1024) ∷ (56320 + (c - 65536) % 1024) ∷ []

unfoldable pub units : String → Units
units String.[] = []
units (String.◌∷◌ c s) = units_of (code c) ++ units s

abbrev pub is_space_unit : ℕ → Bool
is_space_unit n =
    leb 9 n && leb n 13
    || eqb n 32
    || eqb n 160
    || eqb n 5760
    || leb 8192 n && leb n 8202
    || eqb n 8232
    || eqb n 8233
    || eqb n 8239
    || eqb n 8287
    || eqb n 12288
    || eqb n 65279

abbrev pub is_empty : Units → Bool
is_empty [] = true
is_empty (u ∷ us) = false

unfoldable pub trim_start : Units → Units
trim_start [] = []
trim_start (u ∷ us) = let rest = trim_start us in if is_space_unit u then rest else u ∷ us

unfoldable pub trim_end : Units → Units
trim_end [] = []
trim_end (u ∷ us) =
    let rest = trim_end us in if is_empty rest && is_space_unit u then [] else u ∷ rest

unfoldable pub trim : Units → Units
unfolding trim_start trim_end
trim us = trim_end (trim_start us)

-- `us.replace(/\s+/g, ' ')`: with a flag for a unit of white space before.
abbrev collapse_after : Bool → Units → Units
collapse_after after [] = []
collapse_after after (u ∷ us) =
    let inside = collapse_after true us in
    let outside = collapse_after false us in
    if is_space_unit u then (if after then inside else 32 ∷ inside) else u ∷ outside

unfoldable pub collapse : Units → Units
collapse us = collapse_after false us

-- `us.replace(/\s+/g, '')`
unfoldable pub remove_spaces : Units → Units
remove_spaces [] = []
remove_spaces (u ∷ us) = let rest = remove_spaces us in if is_space_unit u then rest else u ∷ rest

abbrev pub join : Units → List Units → Units
join separator [] = []
join separator (us ∷ []) = us
join separator (us ∷ vs ∷ uss) = us ++ separator ++ join separator (vs ∷ uss)

-- `us.slice(start, end)`
abbrev pub slice : ℕ → ℕ → Units → Units
slice start end us = take (end - start) (drop start us)

-- Whether the first text starts the second.
unfoldable pub starts_with : Units → Units → Bool
starts_with [] us = true
starts_with (n ∷ ns) [] = false
starts_with (n ∷ ns) (u ∷ us) = eqb n u && starts_with ns us

-- `us.indexOf(needle)`; -1 is `none`
unfoldable pub index_of : Units → Units → Option ℕ
unfolding starts_with
index_of needle [] = if is_empty needle then some 0 else none
index_of needle (u ∷ us) =
    let later = index_of needle us in
    if starts_with needle (u ∷ us)
    then some 0
    else elim later [ none ↦ none | some i ↦ some (suc i) ]

pub take-starts_with :
    (needle us : Units) → starts_with needle us ≡ true → take (length needle) us ≡ needle
unfolding starts_with
take-starts_with [] us h = refl
take-starts_with (n ∷ ns) [] h = cc
take-starts_with (n ∷ ns) (u ∷ us) h = ground (arith, take-starts_with ns us, eqb_iff n u)

pub length-starts_with :
    (needle us : Units) → starts_with needle us ≡ true → length needle ≤ length us
unfolding starts_with
length-starts_with [] us h = omega arith
length-starts_with (n ∷ ns) [] h = cc
length-starts_with (n ∷ ns) (u ∷ us) h = ground (arith, length-starts_with ns us)

-- What is found at a position stands there.
pub take-index_of :
    (needle us : Units) (i : ℕ)
    → index_of needle us ≡ some i
    → take (length needle) (drop i us) ≡ needle
unfolding index_of
take-index_of [] [] zero h = refl
take-index_of [] [] (suc i) h = refl
take-index_of (n ∷ ns) [] i h = cc
take-index_of needle (u ∷ us) zero h = ground (arith, take-starts_with needle (u ∷ us))
take-index_of needle (u ∷ us) (suc i) h = ground (arith, take-index_of needle us i)

pub index_of-le :
    (needle us : Units) (i : ℕ) → index_of needle us ≡ some i → i + length needle ≤ length us
unfolding index_of
index_of-le [] [] zero h = omega arith
index_of-le [] [] (suc i) h = ground arith
index_of-le (n ∷ ns) [] i h = cc
index_of-le needle (u ∷ us) zero h = ground (arith, length-starts_with needle (u ∷ us))
index_of-le needle (u ∷ us) (suc i) h = ground (arith, index_of-le needle us i)

-- ===== src/Storage.antt =====
-- The storage of values as texts of the browser: `createStorage` of
-- frontend/packages/utils/src/storage.ts.
use Prim.Native.String
use smart_copilot.Common.{
  String, ◌≡◌, refl, ap, ◌∙◌, Bool, true, false, Option, none, some, List, [], ◌∷◌, ◌==◌,
  if◌then◌else◌, truthy, eq_refl, if-true,
}

-- The texts by their keys, of which the first counts.
abbrev pub Entries : Type 0
Entries = List (String × String)

unfoldable pub get_item : String → Entries → Option String
get_item key [] = none
get_item key ((k, text) ∷ entries) =
    let rest = get_item key entries in if k == key then some text else rest

unfoldable pub remove_item : String → Entries → Entries
remove_item key [] = []
remove_item key ((k, text) ∷ entries) =
    let rest = remove_item key entries in if k == key then rest else (k, text) ∷ rest

unfoldable pub set_item : String → String → Entries → Entries
unfolding remove_item
set_item key text entries = (key, text) ∷ remove_item key entries

-- `JSON.stringify`, `JSON.parse`, which may throw, and whether a value counts as true.
pub record Json (V : Type 0) : Type 0 where
  pub stringify : V → String
  pub parse : String → Option V
  pub is_true : V → Bool

module _ {V : Type 0} (json : Json V) (storage_prefix : String) where
  abbrev pub key_of : String → String
  key_of key = String.◌++◌ storage_prefix key

  unfoldable pub set : String → V → Entries → Entries
  unfolding set_item
  set key value entries = set_item (key_of key) (json.stringify value) entries

  abbrev kept : Option V → Option V
  kept none = none
  kept (some value) = if json.is_true value then some value else none

  abbrev read : Option String → Option V
  read none = none
  read (some text) = if truthy text then kept (json.parse text) else none

  abbrev get_by : String → Option V → Entries → Option V × Entries
  get_by key none entries = (none, remove_item (key_of key) entries)
  get_by key (some value) entries = (some value, entries)

  -- The value, and the texts after the call: what cannot be read, or does not count as true, is
  -- removed.
  unfoldable pub get : String → Entries → Option V × Entries
  unfolding get_item remove_item
  get key entries = get_by key (read (get_item (key_of key) entries)) entries

  unfoldable pub remove : String → Entries → Entries
  unfolding remove_item
  remove key entries = remove_item (key_of key) entries

  unfoldable pub clear : Entries → Entries
  clear entries = []

  get_item-set :
      (key : String) (value : V) (entries : Entries)
      → get_item (key_of key) (set key value entries) ≡ some (json.stringify value)
  unfolding get_item set
  get_item-set key value entries = if-true _ _ (eq_refl (key_of key))

  read-stringify :
      (value : V)
      → json.parse (json.stringify value) ≡ some value
      → truthy (json.stringify value) ≡ true
      → read (some (json.stringify value)) ≡ (if json.is_true value then some value else none)
  read-stringify value h g = if-true _ _ g ∙ ap kept h

  split :
      (b : Bool) (key : String) (value : V) (entries : Entries)
      → get_by key (if b then some value else none) entries
        ≡ (if b then (some value, entries) else (none, remove_item (key_of key) entries))
  split true key value entries = refl
  split false key value entries = refl

  -- Where parsing undoes the text of a value, and that text is not empty: the value that was set last
  -- under a key is got again if it counts as true; else nothing is got, and its text is removed.
  pub get-set :
      (key : String) (value : V) (entries : Entries)
      → json.parse (json.stringify value) ≡ some value
      → truthy (json.stringify value) ≡ true
      → get key (set key value entries) ≡ (
          if json.is_true value
          then (some value, set key value entries)
          else (none, remove key (set key value entries)))
  unfolding get remove
  get-set key value entries h g =
      ap (λ o. get_by key (read o) (set key value entries)) (get_item-set key value entries)
      ∙ ap (λ o. get_by key o (set key value entries)) (read-stringify value h g)
      ∙ split (json.is_true value) key value (set key value entries)

-- ===== src/Tests/Tables.antt =====
-- A table of three columns, and the requests behind it.
use smart_copilot.Common.{String, ◌≡◌, refl, false, none, some, List, [], ◌∷◌}
use smart_copilot.Table.{
  Column, keyed, selection, plain, Check, get_columns, reload_columns, transformer, checked_at,
}
use smart_copilot.Table.Columns.{get_columns-reload_columns}
use smart_copilot.Request.Client.{
  Client, new_conf, on_request, cancel_request, cancel_all_request, cancel_request-on_request,
}

abbrev columns : List Column
columns = selection ∷ keyed "name" "Name" ∷ plain ∷ keyed "size" "Size" ∷ []

abbrev same : String → String
same s = s

abbrev unchecked : List Check
unchecked = record { key = "name"; title = "Name"; checked = false } ∷ []

get_columns-reload_columns_example :
    get_columns columns (reload_columns same columns unchecked)
    ≡ some selection ∷ some (keyed "size" "Size") ∷ []
unfolding checked_at
get_columns-reload_columns_example = get_columns-reload_columns same unchecked columns refl

second_page :
    (transformer {A = String} (record {
      number = some 2;
      size = some 10;
      total_elements = some 12;
      data_ = none;
      content = some ("k" ∷ "l" ∷ []);
    })).rows
    ≡ ("k", 11) ∷ ("l", 12) ∷ []
unfolding transformer
second_page = refl

abbrev client : Client
client = record { controllers = []; next = 0; aborted = [] }

cancel_request-on_request_example :
    ((cancel_request "mine" (on_request "made" (new_conf (some "mine")) client).1).aborted ≡ 0 ∷ [])
    × ((cancel_request "made" (on_request "made" (new_conf none) client).1).aborted
        ≡ (cancel_request "made" client).aborted)
cancel_request-on_request_example = cancel_request-on_request "mine" "made" client

-- Of two requests without ids of their own, only the later one can be aborted.
one_aborted :
    (cancel_all_request
      (on_request "b" (new_conf none) (on_request "a" (new_conf none) client).1).1).aborted
    ≡ 1 ∷ []
unfolding cancel_all_request on_request
one_aborted = refl

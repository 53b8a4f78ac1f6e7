-- ===== src/Tests/Pages.antt =====
-- Addresses in messages, sources of answers, addresses of services, and stored values.
use smart_copilot.Common.{◌≡◌, refl, Bool, true, false, none, some, [], ◌∷◌, ◌==◌, if◌then◌else◌}
use smart_copilot.Storage.{Json, Entries, get, get_item, set, set_item}
use smart_copilot.Common.Units.{Units, units}
use smart_copilot.Common.Texts.{show}
use smart_copilot.Stream.Sending.{new_answer}
use smart_copilot.ChatMessage.{SourceFile, asks_detail, handle_source_file_click}
use smart_copilot.ChatMessage.Urls.{
  joined, is_trimmed, split_trailing_url_punctuation, split_trailing_url_punctuation-joined,
}
use smart_copilot.Service.{Env, get_service_base_url}

abbrev address : Units
address = units "http://a.b/c(d)e)。"

split : split_trailing_url_punctuation address ≡ (units "http://a.b/c(d)e", units ")。")
unfolding split_trailing_url_punctuation units
split = refl

split_trailing_url_punctuation-joined_example :
    (joined (split_trailing_url_punctuation address) ≡ address)
    × (is_trimmed (split_trailing_url_punctuation address) ≡ true)
split_trailing_url_punctuation-joined_example = split_trailing_url_punctuation-joined address

abbrev source : SourceFile
source = record {
  file_name = "a.pdf";
  reference_number = 1;
  file_md5 = some "m";
  anchor_text = none;
}

asked : asks_detail (some "s") new_answer source ≡ true
unfolding asks_detail show
asked = refl

previewed : (handle_source_file_click (some "s") none new_answer source none).file_md5 ≡ some "m"
unfolding handle_source_file_click show
previewed = refl

abbrev env : Env
env = record {
  service_base_url = "http://h";
  other_service_base_url = some (("demo", "http://d") ∷ []);
  http_proxy = true;
}

proxied : get_service_base_url env true ≡ ("/proxy-default", ("demo", "/proxy-demo") ∷ [])
unfolding get_service_base_url
proxied = refl

abbrev flags : Json Bool
flags = record {
  stringify = λ b. if b then "true" else "false";
  parse =
      λ text. if text == "true" then some true else if text == "false" then some false else none;
  is_true = λ b. b;
}

abbrev entries : Entries
entries = set flags "p_" "dark" true []

stored : entries ≡ ("p_dark", "true") ∷ []
unfolding set set_item
stored = refl

got : get flags "p_" "dark" entries ≡ (some true, entries)
unfolding get set get_item set_item
got = refl

unread : get flags "p_" "dark" (("p_dark", "{") ∷ []) ≡ (none, [])
unfolding get get_item
unread = refl

false_is_lost : get flags "p_" "dark" (set flags "p_" "dark" false []) ≡ (none, [])
unfolding get set get_item set_item
false_is_lost = refl

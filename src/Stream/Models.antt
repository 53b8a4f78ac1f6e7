-- ===== src/Stream/Models.antt =====
-- The models that can be chosen, and the line break in the input:
-- frontend/src/views/chat/modules/input-box.vue.
use Prim.Native.String
use smart_copilot.Common.{
  ℕ, String, Bool, not, Option, none, some, List, ◌∷◌, ◌++◌, map, if◌then◌else◌, is_truthy, take,
  drop, truthy,
}
use smart_copilot.Common.Units.{Units}
use smart_copilot.Stream.Box.{Box}

pub record ModelOption : Type 0 where
  pub mode : String
  pub label : String
  pub enabled : Bool
  pub billable : Bool
  pub remaining_tokens : ℕ

pub record SelectOption : Type 0 where
  pub label : String
  pub value : String
  pub disabled : Bool

-- With `toLocaleString` of a number.
unfoldable pub selectable_model_options : (ℕ → String) → List ModelOption → List SelectOption
selectable_model_options locale_text = map (λ (item : ModelOption). record {
  label = String.◌++◌ item.label (
      if item.billable
      then String.◌++◌ "（剩余 " (String.◌++◌ (locale_text item.remaining_tokens) "）")
      else "");
  value = item.mode;
  disabled = not item.enabled;
})

pub record OptionsResponse : Type 0 where
  pub default_mode : String
  pub options : List ModelOption
  pub llm_token : ℕ

-- `loadModelOptions` with its answer, or none for an error: the options, and the state.
unfoldable pub load_model_options :
    Option OptionsResponse → List ModelOption → Box → List ModelOption × Box
load_model_options none options b = (options, b)
load_model_options (some data_) options b = (
  data_.options,
  record b {
    llm_token = data_.llm_token;
    model_mode =
        if is_truthy b.model_mode
        then b.model_mode
        else some (if truthy data_.default_mode then data_.default_mode else "FREE");
  },
)

-- `insertNewline`, for a selection from `start` to `end` of the text.
unfoldable pub insert_newline : ℕ → ℕ → Units → Units
insert_newline start end message = take start message ++ 10 ∷ drop end message

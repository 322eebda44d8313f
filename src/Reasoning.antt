-- ===== src/Reasoning.antt =====
-- Verified reasoning efforts and the fields of a provider's request (media_bridge/reasoning.py).
-- `str.casefold` is the standard library's, and enters as a parameter.
use media_bridge.Base.{
  ℕ, String, Bool, true, false, ◌&&◌, ◌||◌, Option, none, some, List, [], ◌∷◌, map, any, contains,
  ◌==◌, string_eq, if◌then◌else◌, strip,
}
use media_bridge.Base.{Result, ok, err}
use media_bridge.Json.{Json, text, int, object, Fields, end, field}
pub mod Answers

-- `ReasoningEffort`
pub data Effort : Type 0 where
  provider_default off minimal low medium high xhigh : Effort

abbrev pub effort_name : Effort → String
effort_name provider_default = "provider_default"
effort_name off = "none"
effort_name minimal = "minimal"
effort_name low = "low"
effort_name medium = "medium"
effort_name high = "high"
effort_name xhigh = "xhigh"

abbrev pub same_effort : Effort → Effort → Bool
same_effort e f = effort_name e == effort_name f

-- `wire_values`: a value is a text or a number.
abbrev pub WireValues : Type 0
WireValues = List (Effort × Json)

pub record ReasoningCapability : Type 0 where
  pub efforts : List Effort
  pub wire_protocol : String
  pub wire_values : WireValues

abbrev pub efforts_of : WireValues → List Effort
efforts_of [] = []
efforts_of ((e, v) ∷ vs) = e ∷ efforts_of vs

-- `_capability`
unfoldable pub capability : String → WireValues → Option ReasoningCapability
capability wire values =
    some (record { efforts = efforts_of values; wire_protocol = wire; wire_values = values })

-- The tables of `reasoning_capability`.
abbrev level : Effort → Effort × Json
level e = (e, text (effort_name e))

abbrev levels : List Effort → WireValues
levels [] = []
levels (e ∷ es) = level e ∷ levels es

abbrev pub low_to_high : WireValues
low_to_high = levels (low ∷ medium ∷ high ∷ [])

abbrev pub gemini_25_budgets : WireValues
gemini_25_budgets = (low, int 1024) ∷ (medium, int 8192) ∷ (high, int 24576) ∷ []

abbrev pub gemini_25_flash_budgets : WireValues
gemini_25_flash_budgets = (off, int 0) ∷ gemini_25_budgets

abbrev pub gemini_25_flash : List String
gemini_25_flash =
    "gemini-2.5-flash" ∷ "gemini-2.5-flash-preview" ∷ "gemini-2.5-flash-lite"
    ∷ "gemini-2.5-flash-lite-preview" ∷ []

abbrev three_levels : List Effort
three_levels = low ∷ medium ∷ high ∷ []

abbrev four_levels : List Effort
four_levels = minimal ∷ low ∷ medium ∷ high ∷ []

abbrev pub gemini_3_levels : List (String × List Effort)
gemini_3_levels =
    ("gemini-3.8-flash", three_levels)
    ∷ ("gemini-3.7-flash", three_levels)
    ∷ ("gemini-3.6-flash", four_levels)
    ∷ ("gemini-3.5-flash", four_levels)
    ∷ ("gemini-3.5-flash-lite", four_levels)
    ∷ ("gemini-3.1-flash-lite", four_levels)
    ∷ ("gemini-3.1-pro-preview", three_levels)
    ∷ ("gemini-3-flash-preview", four_levels)
    ∷ []

-- `gemini_3_levels.get(model)`
abbrev pub get_levels : String → List (String × List Effort) → Option (List Effort)
get_levels model [] = none
get_levels model ((m, es) ∷ rest) = if m == model then some es else get_levels model rest

abbrev claude_models : List String
claude_models =
    "claude-opus-4-6" ∷ "claude-opus-4-7" ∷ "claude-opus-4-8" ∷ "claude-sonnet-4-6"
    ∷ "claude-opus-5" ∷ "claude-sonnet-5" ∷ "claude-fable-5" ∷ []

unfoldable pub openai_capability : String → String → Option ReasoningCapability
openai_capability wire model =
    if model == "gpt-5.1"
    then capability wire (levels (off ∷ low ∷ medium ∷ high ∷ []))
    else if model == "gpt-5-pro"
    then capability wire (levels (high ∷ []))
    else if contains model ("o3" ∷ "o4-mini" ∷ [])
    then capability wire low_to_high
    else if model == "gpt-5.1-codex-max"
    then capability wire (levels (off ∷ low ∷ medium ∷ high ∷ xhigh ∷ []))
    else none

unfoldable pub gemini_3_capability : Option (List Effort) → Option ReasoningCapability
gemini_3_capability none = none
gemini_3_capability (some es) = capability "gemini-level" (levels es)

unfoldable pub gemini_capability : String → Option ReasoningCapability
gemini_capability model =
    if model == "gemini-2.5-pro"
    then capability "gemini-budget" gemini_25_budgets
    else if contains model gemini_25_flash
    then capability "gemini-budget" gemini_25_flash_budgets
    else gemini_3_capability (get_levels model gemini_3_levels)

unfoldable pub solar_capability : String → Option ReasoningCapability
solar_capability model =
    if contains model ("solar-pro3" ∷ "solar-pro4" ∷ [])
    then capability "openai-chat" low_to_high
    else none

unfoldable pub anthropic_capability : String → Option ReasoningCapability
anthropic_capability model =
    if contains model claude_models then capability "anthropic-adaptive" low_to_high else none

-- `reasoning_capability` of a provider and a model that are folded, and of a protocol.
unfoldable pub capability_of : String → String → String → Option ReasoningCapability
capability_of provider protocol model =
    if provider == "openai" && protocol == "openai-responses"
    then openai_capability "openai-responses" model
    else if provider == "openai" && protocol == "openai-chat-completions"
    then openai_capability "openai-chat" model
    else if provider == "upstage-solar" && protocol == "openai-chat-completions"
    then solar_capability model
    else if provider == "gemini" && protocol == "gemini-generate-content"
    then gemini_capability model
    else if provider == "anthropic" && protocol == "anthropic-messages"
    then anthropic_capability model
    else none

unfoldable pub reasoning_capability :
    (String → String) → Option String → Option String → Option String → Option ReasoningCapability
reasoning_capability casefold (some catalog_id) (some protocol) (some model_id) =
    if catalog_id == "" || (protocol == "" || model_id == "")
    then none
    else capability_of (casefold (strip catalog_id)) protocol (casefold (strip model_id))
reasoning_capability casefold _ _ _ = none

-- `key_error` is that of `dict(wire_values)[effort]`.
pub data ReasoningError : Type 0 where
  effort_unsupported protocol_unsupported key_error : ReasoningError

-- `dict(wire_values).get(effort)`: a later pair replaces an earlier one.
unfoldable pub wire_value : Effort → WireValues → Option Json
wire_value effort [] = none
wire_value effort ((e, v) ∷ vs) = elim (wire_value effort vs) [
  | some w ↦ some w
  | none ↦ if same_effort e effort then some v else none
]

abbrev field_of : String → Json → Fields
field_of name value = field name value end

abbrev thinking_config : String → Json → Fields
thinking_config name value =
    field_of "generationConfig" (object (field_of "thinkingConfig" (object (field_of name value))))

unfoldable pub wire_fields : String → Json → Result ReasoningError Fields
wire_fields wire value =
    if wire == "gemini-level"
    then ok (thinking_config "thinkingLevel" value)
    else if wire == "gemini-budget"
    then ok (thinking_config "thinkingBudget" value)
    else if wire == "openai-responses"
    then ok (field_of "reasoning" (object (field_of "effort" value)))
    else if wire == "openai-chat"
    then ok (field_of "reasoning_effort" value)
    else if wire == "anthropic-adaptive"
    then ok (
        field "thinking" (object (field_of "type" (text "adaptive")))
          (field_of "output_config" (object (field_of "effort" value))))
    else err protocol_unsupported

unfoldable pub wired : String → Option Json → Result ReasoningError Fields
wired wire none = err key_error
wired wire (some value) = wire_fields wire value

unfoldable pub reasoning_payload_fields :
    Option ReasoningCapability → Option Effort → Result ReasoningError Fields
reasoning_payload_fields none effort = ok end
reasoning_payload_fields (some c) none = ok end
reasoning_payload_fields (some c) (some effort) =
    if same_effort effort provider_default
    then ok end
    else if any (same_effort effort) c.efforts
    then wired c.wire_protocol (wire_value effort c.wire_values)
    else err effort_unsupported

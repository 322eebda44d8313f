-- ===== src/Reasoning/Answers.antt =====
-- What a provider is sent for a reasoning effort.
use media_bridge.Base.{
  String, Bool, true, false, Option, none, some, List, [], ◌∷◌, ◌≡◌, ◌⊎◌, any, contains, string_eq,
}
use media_bridge.Base.{Result, ok, err}
use media_bridge.Json.{Json, Fields, end}
use media_bridge.Reasoning.{
  Effort, provider_default, same_effort, ReasoningCapability, efforts_of, ReasoningError,
  effort_unsupported, wire_value, wire_fields,
}

abbrev known_protocols : List String
known_protocols =
    "gemini-level" ∷ "gemini-budget" ∷ "openai-responses" ∷ "openai-chat" ∷ "anthropic-adaptive"
    ∷ []

-- The efforts are those of the table, and the protocol is one that has fields.
abbrev IsVerified : ReasoningCapability → Type 0
IsVerified c =
    (c.efforts ≡ efforts_of c.wire_values) × (contains c.wire_protocol known_protocols ≡ true)

-- A capability that is given is verified.
abbrev IfSome : Option ReasoningCapability → Type 0
IfSome x = (c : ReasoningCapability) → x ≡ some c → IsVerified c

abbrev pub is_ok : Result ReasoningError Fields → Bool
is_ok (ok _) = true
is_ok (err _) = false

-- What is answered for an effort.
abbrev pub Answers :
    Option ReasoningCapability → Option Effort → Result ReasoningError Fields → Type 0
Answers none effort r = r ≡ ok end
Answers (some c) none r = r ≡ ok end
Answers (some c) (some e) r =
    ((same_effort e provider_default ≡ true) × (r ≡ ok end))
    ⊎ (((same_effort e provider_default ≡ false)
          × (any (same_effort e) c.efforts ≡ false)
          × (r ≡ err effort_unsupported))
        ⊎ ((same_effort e provider_default ≡ false)
            × (any (same_effort e) c.efforts ≡ true)
            × ((v : Json) × (wire_value e c.wire_values ≡ some v)
                × (r ≡ wire_fields c.wire_protocol v)
                × (is_ok r ≡ true))))

-- ===== src/Tests/ReasoningRuns.antt =====
-- The reasoning fields of one verified model.
use media_bridge.Base.{some, ok, string_eq, refl, ◌≡◌}
use media_bridge.Json.{text, field, end}
use media_bridge.Reasoning.{
  high, reasoning_capability, reasoning_payload_fields, capability_of, solar_capability, capability,
  wired, wire_value, wire_fields,
}
use media_bridge.Reasoning.Answers.{Answers}

solar_high :
    reasoning_payload_fields
      (reasoning_capability
        (λ s. s)
        (some "upstage-solar")
        (some "openai-chat-completions")
        (some "solar-pro3"))
      (some high)
    ≡ ok (field "reasoning_effort" (text "high") end)
unfolding reasoning_payload_fields reasoning_capability capability_of solar_capability capability
    wired wire_value wire_fields media_bridge.Base.strip
solar_high = refl

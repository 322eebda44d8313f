-- ===== src/Capability.antt =====
-- Exact model capabilities with explicit staleness (media_bridge/capabilities.py), and the detection
-- of media in a request (media_bridge/detector.py). A `datetime` is a natural number of one unit.
pub mod Modalities
pub mod Resolve
use media_bridge.Base.{
  ℕ, String, Bool, true, false, not, ◌||◌, Option, none, some, List, [], ◌∷◌, map, ◌==◌, string_eq,
  leb, keep, length, distinct, if◌then◌else◌,
}
use media_bridge.Base.{Result, ok, err}
use media_bridge.Contracts.{MediaType, ContentPart, text_part, media_part, MediaPart, image, pdf}
use Modalities.{ModalitySet, empty, singleton, add, subset, has_media}

pub data CapabilityState : Type 0 where
  vision non_vision unknown stale : CapabilityState

-- The text of the `StrEnum` member.
abbrev pub state_value : CapabilityState → String
state_value vision = "vision"
state_value non_vision = "non_vision"
state_value unknown = "unknown"
state_value stale = "stale"

pub record ModelCapability : Type 0 where
  pub model_id : String
  pub input_modalities : ModalitySet
  pub expires_at : Option ℕ
  pub pdf_passthrough_verified : Bool

unfoldable pub supports_all : ModelCapability → ModalitySet → Bool
supports_all c modalities = subset modalities c.input_modalities

unfoldable pub is_stale : ModelCapability → ℕ → Bool
is_stale c now = elim c.expires_at [ none ↦ false | some t ↦ leb t now ]

pub record CapabilityResolution : Type 0 where
  pub state : CapabilityState
  pub capability : Option ModelCapability

pub record CapabilityRegistry : Type 0 where
  pub capabilities : List ModelCapability
  pub version : String

pub data RegistryError : Type 0 where
  duplicate_model_identifiers : RegistryError

-- `CapabilityRegistry.__init__`
unfoldable pub make_registry :
    List ModelCapability → String → Result RegistryError CapabilityRegistry
make_registry capabilities version =
    if distinct (map (λ c. c.model_id) capabilities)
    then ok (record { capabilities = capabilities; version = version })
    else err duplicate_model_identifiers

-- `self._capabilities.get(model_id)`
unfoldable pub find_capability : String → List ModelCapability → Option ModelCapability
find_capability model_id [] = none
find_capability model_id (c ∷ cs) =
    if c.model_id == model_id then some c else find_capability model_id cs

-- What `resolve` returns for the entry that it found.
unfoldable pub classify : Option ModelCapability → ℕ → CapabilityResolution
unfolding is_stale
classify none now = record { state = unknown; capability = none }
classify (some c) now =
    if is_stale c now
    then record { state = stale; capability = some c }
    else if has_media c.input_modalities
    then record { state = vision; capability = some c }
    else record { state = non_vision; capability = some c }

unfoldable pub resolve : CapabilityRegistry → String → ℕ → CapabilityResolution
unfolding find_capability classify
resolve r model_id now = classify (find_capability model_id r.capabilities) now

unfoldable pub available : CapabilityRegistry → ℕ → List ModelCapability
unfolding is_stale
available r now = keep (λ c. not (is_stale c now)) r.capabilities

pub record MediaDetection : Type 0 where
  pub media_count : ℕ
  pub modalities : ModalitySet

-- `isinstance(part, MediaPart)`
unfoldable pub is_media : ContentPart → Bool
is_media (text_part _) = false
is_media (media_part _) = true

unfoldable pub modalities_of : List ContentPart → ModalitySet
modalities_of [] = empty
modalities_of (text_part _ ∷ parts) = modalities_of parts
modalities_of (media_part p ∷ parts) = add p.media_type (modalities_of parts)

unfoldable pub detect_media : List ContentPart → MediaDetection
unfolding is_media modalities_of
detect_media content = record {
  media_count = length (keep is_media content);
  modalities = modalities_of content;
}

-- ===== src/Contracts.antt =====
-- Input contracts shared by the tools and the router adapters (media_bridge/contracts.py). A
-- pydantic model is a record, and what its constraints accept is a test: `raise_if` on it is the
-- `ValidationError` of the constructor.
pub mod Dump
use media_bridge.Base.{
  ℕ, String, Bool, true, false, ◌&&◌, ◌||◌, Option, none, some, List, [], ◌∷◌, ◌==◌, number_eq, leb,
  length, all, codes, text_length, is_alnum, is_lower, is_digit, full_match,
}
use media_bridge.Json.{Json, object, field, end, text, optional_text}

-- `Literal["image", "pdf"]`
pub data MediaType : Type 0 where
  image pdf : MediaType

pub data MediaSource : Type 0 where
  base64_source : String → MediaSource
  asset_source : String → MediaSource
  url_source : String → MediaSource
  path_source : String → MediaSource

pub record MediaPart : Type 0 where
  pub media_type : MediaType
  pub source : MediaSource
  pub filename : Option String
  pub declared_mime : Option String

pub data ContentPart : Type 0 where
  text_part : String → ContentPart
  media_part : MediaPart → ContentPart

-- `Literal["generic", "error_screenshot", "document"]`
pub data Profile : Type 0 where
  generic error_screenshot document : Profile

pub record PrepareRequest : Type 0 where
  pub content : List ContentPart
  pub target : String
  pub profile : Profile

pub record SafeError : Type 0 where
  pub code : String
  pub message : String

-- `Literal["passthrough", "converted", "blocked"]`
pub data Action : Type 0 where
  passthrough converted blocked : Action

pub record PrepareResult : Type 0 where
  pub action : Action
  pub target_model : String
  pub contains_media : Bool
  pub contains_image : Bool
  pub contains_pdf : Bool
  pub target_supports_vision : Option Bool
  pub sanitized_text : Option String
  pub original_image_removed : Bool
  pub error : Option SafeError

abbrev pub max_text : ℕ
max_text = 200000

-- `max_length` on an optional text.
unfoldable pub fits : ℕ → Option String → Bool
fits most none = true
fits most (some s) = leb (text_length s) most

-- The last of `codes`, up to the prefix `mb_`: `^mb_[A-Za-z0-9_-]{22,64}$`.
unfoldable pub asset_id_matches : List ℕ → Bool
asset_id_matches (m ∷ b ∷ u ∷ rest) =
    m == b'm'
    && (b == b'b'
        && (u == b'_'
            && (all (λ c. is_alnum c || c == b'_' || c == b'-') rest
                && (leb 22 (length rest) && leb (length rest) 64))))
asset_id_matches _ = false

-- `^https://`
unfoldable pub https_matches : List ℕ → Bool
https_matches (h ∷ t ∷ u ∷ p ∷ s ∷ c ∷ x ∷ y ∷ rest) =
    h == b'h'
    && (t == b't'
        && (u == b't' && (p == b'p' && (s == b's' && (c == b':' && (x == b'/' && y == b'/'))))))
https_matches _ = false

unfoldable pub source_accepted : MediaSource → Bool
unfolding asset_id_matches https_matches
source_accepted (base64_source s) = leb (text_length s) 2796204
source_accepted (asset_source s) = asset_id_matches (codes s)
source_accepted (url_source s) = leb (text_length s) 2048 && https_matches (codes s)
source_accepted (path_source s) = leb (text_length s) 4096

unfoldable pub part_accepted : ContentPart → Bool
unfolding source_accepted fits
part_accepted (text_part s) = leb (text_length s) max_text
part_accepted (media_part p) =
    source_accepted p.source && (fits 255 p.filename && fits 100 p.declared_mime)

-- `^[a-z0-9][a-z0-9./:_-]{0,127}$`
unfoldable pub target_accepted : String → Bool
target_accepted s =
    full_match (λ c. is_lower c || is_digit c)
      (λ c.
        is_lower c || is_digit c || c == b'.' || c == b'/' || c == b':' || c == b'_' || c == b'-')
      127 (codes s)

unfoldable pub request_accepted : PrepareRequest → Bool
unfolding part_accepted target_accepted
request_accepted r =
    all part_accepted r.content
    && (leb 1 (length r.content) && (leb (length r.content) 32 && target_accepted r.target))

-- `PrepareForModelResult` bounds its text.
unfoldable pub result_accepted : PrepareResult → Bool
unfolding fits
result_accepted r = fits max_text r.sanitized_text

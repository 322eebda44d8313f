-- ===== src/Tests/ResponsesRuns.antt =====
-- Normalization of a Responses request with an image and a text.
use media_bridge.Base.{
  String, true, false, none, some, [], ◌∷◌, ◌≡◌, refl, any, eq_iff, remove_prefix, remove_suffix,
  starts_with, contains_text, split_once,
}
use media_bridge.Base.{ok}
use media_bridge.Json.{text, array, object, nil, cons}
use media_bridge.Json.{Fields, end, field, get, find, keys, has_key}
use media_bridge.Contracts.{
  image, text_part, media_part, base64_source, error_screenshot, request_accepted, part_accepted,
  source_accepted,
}
use media_bridge.Responses.References.{
  Web, contains_reference, some_reference, field_reference, locates,
}
use media_bridge.Responses.Parts.{
  check_bytes, read_data_uri, decode_data_uri, data_image, located_image, image_part, input_text,
  read_part, read_parts, current_content, sections_of,
}
use media_bridge.Responses.Select.{
  user_message, split_last_user, check_message, message_content, select_message,
  select_current_input,
}
use media_bridge.Responses.Normalize.{
  NormalizedRequest, check_previous, prior_parts, request_of, build_request, input_of,
  outside_reference, normalize_fields, normalize_responses_request,
}
use media_bridge.Responses.Locators.{Decoded, decode_data_uri-Decoded}
use media_bridge.Responses.Sources.{is_local, normalize_responses_request-none_local}

program : Unit {0}
unfolding remove_prefix remove_suffix starts_with contains_text split_once get find keys has_key
    contains_reference some_reference field_reference locates check_bytes read_data_uri
    decode_data_uri data_image located_image image_part input_text read_part read_parts
    current_content sections_of user_message split_last_user check_message message_content
    select_message select_current_input check_previous prior_parts request_of build_request input_of
    outside_reference normalize_fields normalize_responses_request request_accepted part_accepted
    source_accepted
program = tt

abbrev pub web : Web
web = record { lower = λ s. s; urlsplit = λ s. none; b64decode = λ s. some (1 ∷ 2 ∷ []) }

abbrev locator : String
locator = "data:image/png;base64,AQI="

abbrev picture : Fields
picture = field "type" (text "input_image") (field "image_url" (text locator) end)

abbrev words : Fields
words = field "type" (text "input_text") (field "text" (text "why?") end)

abbrev message : Fields
message =
    field "role" (text "user")
      (field "content" (array (cons (object words) (cons (object picture) nil))) end)

abbrev request : Fields
request = field "model" (text "solar") (field "input" (array (cons (object message) nil)) end)

abbrev normal : NormalizedRequest
normal = record {
  request = record {
    content =
        text_part "why?"
        ∷ media_part (record {
          media_type = image;
          source = base64_source "AQI=";
          filename = none;
          declared_mime = some "image/png";
        })
        ∷ [];
    target = "solar";
    profile = error_screenshot;
  };
  current_user_text = "why?";
  input_had_media = true;
  previous_state = none;
}

run : normalize_responses_request web (object request) none ≡ ok normal
unfolding program media_bridge.Base.strip media_bridge.Capability.is_media media_bridge.Base.join
run = refl

decode_data_uri-Decoded_example : Decoded web ("image/png" ∷ []) locator "image/png" "AQI="
unfolding program
decode_data_uri-Decoded_example =
    decode_data_uri-Decoded web ("image/png" ∷ []) locator "image/png" "AQI=" refl

normalize_responses_request-none_local_example : any is_local normal.request.content ≡ false
normalize_responses_request-none_local_example =
    normalize_responses_request-none_local web request none normal run

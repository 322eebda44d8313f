-- ===== src/Contracts/Dump.antt =====
-- `model_dump(mode="json")` of the request models (media_bridge/contracts.py), field by field in the
-- order of the classes.
use media_bridge.Base.{String, List, map}
use media_bridge.Json.{Json, text, array, object, field, end, from_list, optional_text}
use media_bridge.Contracts.{
  MediaType, image, pdf, MediaSource, base64_source, asset_source, url_source, path_source,
  ContentPart, text_part, media_part, Profile, generic, error_screenshot, document, PrepareRequest,
}

abbrev pub media_type_name : MediaType → String
media_type_name image = "image"
media_type_name pdf = "pdf"

abbrev pub profile_name : Profile → String
profile_name generic = "generic"
profile_name error_screenshot = "error_screenshot"
profile_name document = "document"

unfoldable pub dump_source : MediaSource → Json
dump_source (base64_source s) = object (field "kind" (text "base64") (field "data" (text s) end))
dump_source (asset_source s) =
    object (field "kind" (text "asset_id") (field "asset_id" (text s) end))
dump_source (url_source s) = object (field "kind" (text "url") (field "url" (text s) end))
dump_source (path_source s) = object (field "kind" (text "local_path") (field "path" (text s) end))

unfoldable pub dump_part : ContentPart → Json
unfolding dump_source
dump_part (text_part s) = object (field "type" (text "text") (field "text" (text s) end))
dump_part (media_part p) = object (
    field "type" (text "media") (
      field "media_type" (text (media_type_name p.media_type)) (
        field "source" (dump_source p.source) (
          field "filename" (optional_text p.filename)
            (field "declared_mime" (optional_text p.declared_mime) end)))))

unfoldable pub dump_content : List ContentPart → Json
unfolding dump_part
dump_content parts = array (from_list (map dump_part parts))

unfoldable pub dump_request : PrepareRequest → Json
unfolding dump_content
dump_request r = object (
    field "content" (dump_content r.content) (
      field "target" (object (field "registry_id" (text r.target) end))
        (field "conversion_profile" (text (profile_name r.profile)) end)))

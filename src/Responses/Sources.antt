-- ===== src/Responses/Sources.antt =====
-- Where the media of a normalized request can come from.
use media_bridge.Base.{
  String, Bool, true, false, Option, none, some, List, [], ◌∷◌, ◌++◌, ◌≡◌, refl, arith, any,
}
use media_bridge.Base.{Result, ok, err, >>=-eq-ok}
use media_bridge.Json.{Json, null, bool, int, number, text, array, object, Items, nil, cons}
use media_bridge.Json.{Fields, get}
use media_bridge.Contracts.{path_source, ContentPart, text_part, media_part}
use media_bridge.Responses.References.{Web, SplitUrl, NormalizationError}
use media_bridge.Responses.Parts.{
  Current, current_content, read_parts, read_part, image_part, pdf_part, input_text, located_image,
  asset_image, located_pdf, asset_pdf, url_image, data_image, asset_of,
}
use media_bridge.State.Gateway.{GatewayStateRecord}
use media_bridge.Responses.Normalize.{NormalizedRequest, prior_parts, normalize_responses_request}
use media_bridge.Responses.Accepted.{normalize_responses_request-IsNormal}

-- The part is a file of the server.
abbrev pub is_local : ContentPart → Bool
is_local (text_part _) = false
is_local (media_part p) = elim p.source [ path_source _ ↦ true | _ ↦ false ]

-- What is returned, if anything, is no file of the server.
abbrev NotLocal : Result NormalizationError ContentPart → Type 0
NotLocal (err e) = Unit
NotLocal (ok part) = is_local part ≡ false

url_image-NotLocal : (locator : String) (u : Option SplitUrl) → NotLocal (url_image locator u)
unfolding url_image
url_image-NotLocal locator none = tt
url_image-NotLocal locator (some u) = ground arith

data_image-NotLocal : (w : Web) (locator : String) → NotLocal (data_image w locator)
unfolding data_image
data_image-NotLocal w locator = ground arith

located_image-NotLocal : (w : Web) (locator : Json) → NotLocal (located_image w locator)
unfolding located_image
located_image-NotLocal w (text s) =
    ground (arith, url_image-NotLocal s (w.urlsplit s), data_image-NotLocal w s)
located_image-NotLocal w _ = tt

asset_image-NotLocal : (w : Web) (id locator : Json) → NotLocal (asset_image w id locator)
unfolding asset_image asset_of
asset_image-NotLocal w (text s) null = ground arith
asset_image-NotLocal w _ _ = tt

image_part-NotLocal : (w : Web) (item : Fields) → NotLocal (image_part w item)
unfolding image_part
image_part-NotLocal w item = ground (
  arith,
  located_image-NotLocal w (get "image_url" item),
  asset_image-NotLocal w (get "asset_id" item) (get "image_url" item),
)

located_pdf-NotLocal : (w : Web) (locator name : Json) → NotLocal (located_pdf w locator name)
unfolding located_pdf
located_pdf-NotLocal w (text s) name = ground arith
located_pdf-NotLocal w _ name = tt

asset_pdf-NotLocal : (w : Web) (id locator name : Json) → NotLocal (asset_pdf w id locator name)
unfolding asset_pdf asset_of
asset_pdf-NotLocal w (text s) null name = ground arith
asset_pdf-NotLocal w _ _ name = tt

pdf_part-NotLocal : (w : Web) (item : Fields) → NotLocal (pdf_part w item)
unfolding pdf_part
pdf_part-NotLocal w item = ground (
  arith,
  located_pdf-NotLocal w (get "file_data" item) (get "filename" item),
  asset_pdf-NotLocal w (get "asset_id" item) (get "file_data" item) (get "filename" item),
)

input_text-NotLocal : (w : Web) (item : Fields) (value : Json) → NotLocal (input_text w item value)
unfolding input_text
input_text-NotLocal w item (text s) = ground arith
input_text-NotLocal w item _ = tt

read_part-NotLocal : (w : Web) (value : Json) → NotLocal (read_part w value)
unfolding read_part
read_part-NotLocal w (object item) = ground (
  arith,
  input_text-NotLocal w item (get "text" item),
  image_part-NotLocal w item,
  pdf_part-NotLocal w item,
)
read_part-NotLocal w _ = tt

read_parts-none_local :
    (w : Web) (xs : Items) (parts : List ContentPart)
    → read_parts w xs ≡ ok parts
    → any is_local parts ≡ false
unfolding read_parts
read_parts-none_local w nil parts h = let e : [] ≡ parts = ground arith in rw (← e) refl
read_parts-none_local w (cons x xs) parts h =
    let (part, first, h1) = >>=-eq-ok (read_part w x) _ h in
    let (rest, later, h2) = >>=-eq-ok (read_parts w xs) _ h1 in
    let remote : NotLocal (ok part) = rw first at (read_part-NotLocal w x) in
    let e : part ∷ rest ≡ parts = ground arith in
    rw (← e, remote) (read_parts-none_local w xs rest later)

-- Whatever a client sends as its message, no part that is read is a file of the server.
pub current_content-none_local :
    (w : Web) (message : Json) (current : Current)
    → current_content w message ≡ ok current
    → any is_local current.parts ≡ false
unfolding current_content
current_content-none_local w (text s) current h = ground (arith, h)
current_content-none_local w (array (cons x xs)) current h =
    let (parts, read, h1) = >>=-eq-ok (read_parts w (cons x xs)) _ h in
    let e : parts ≡ current.parts = ground arith in
    rw (← e) (read_parts-none_local w (cons x xs) parts read)
current_content-none_local w (array nil) current h = absurd (cc h)
current_content-none_local w null current h = absurd (cc h)
current_content-none_local w (bool b) current h = absurd (cc h)
current_content-none_local w (int n) current h = absurd (cc h)
current_content-none_local w (number n) current h = absurd (cc h)
current_content-none_local w (object gs) current h = absurd (cc h)

prior_parts-none_local :
    (state : Option GatewayStateRecord) (parts : List ContentPart)
    → any is_local (prior_parts state ++ parts) ≡ any is_local parts
unfolding prior_parts
prior_parts-none_local none parts = refl
prior_parts-none_local (some s) parts = ground arith

-- Whatever a client sends, and whatever the state of its conversation is, no part of the request that it
-- is normalized to is a file of the server.
pub normalize_responses_request-none_local :
    (w : Web) (fs : Fields) (state : Option GatewayStateRecord) (n : NormalizedRequest)
    → normalize_responses_request w (object fs) state ≡ ok n
    → any is_local n.request.content ≡ false
normalize_responses_request-none_local w fs state n h =
    let known = normalize_responses_request-IsNormal w fs state n h in
    rw (known.content, prior_parts-none_local state known.current.parts)
      (current_content-none_local w known.message known.current known.read)

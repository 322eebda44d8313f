-- ===== src/Gate/Context.antt =====
-- `extract_context`: media to sanitized text (media_bridge/gate.py). Every item has a workspace of its
-- own, which is cleaned up unless the conversion is interrupted.
use media_bridge.Base.{
  ℕ, ◌+◌, String, Bool, true, false, ◌&&◌, Option, none, some, List, [], ◌∷◌, ◌++◌, concat, strip,
  join, show, is_blank, ◌==◌, number_eq, if◌then◌else◌,
}
use media_bridge.Base.{Result, ok, err}
use media_bridge.Contracts.{
  MediaType, image, pdf, MediaPart, ContentPart, text_part, media_part, Profile, generic,
  error_screenshot, document,
}
use media_bridge.Capability.{detect_media}
use media_bridge.Gate.Effects.{
  Bytes, Call, Raised, gate_failure, cleanup_error, other, interrupted, Acquired, Page, OcrResult,
  VisionResult, success, no_text, failure, Services, acquire_called, file_written, pdf_rendered,
  ocr_called, vision_called, create_workspace, clean_workspace, pure, raise, or_fail,
  or_fail_cleanup, attempt, call, ◌>>=◌, ◌>>◌,
}

pub record Sections : Type 0 where
  pub ocr : List String
  pub descriptions : List String
  pub converted : List String

abbrev pub no_sections : Sections
no_sections = record { ocr = []; descriptions = []; converted = [] }

abbrev pub add_sections : Sections → Sections → Sections
add_sections a b = record {
  ocr = a.ocr ++ b.ocr;
  descriptions = a.descriptions ++ b.descriptions;
  converted = a.converted ++ b.converted;
}

-- What one media item adds to the lists of `extract_context`.
pub record Item : Type 0 where
  pub locators : List String
  pub sections : Sections
  pub modality : MediaType

pub record ConvertedContext : Type 0 where
  pub ocr_text : String
  pub visual_description : String
  pub structured_context : String
  pub media_modalities : List MediaType

-- `value or default`
abbrev pub or_default : Option String → String → String
or_default none d = d
or_default (some s) d = if is_blank s then d else s

unfoldable pub texts_of : List ContentPart → List String
texts_of [] = []
texts_of (text_part s ∷ parts) = s ∷ texts_of parts
texts_of (media_part _ ∷ parts) = texts_of parts

-- `_join_text`
unfoldable pub join_text : List ContentPart → String
join_text content = strip (join "\n" (texts_of content))

abbrev starts_with_bytes : Bytes → Bytes → Bool
starts_with_bytes [] d = true
starts_with_bytes (x ∷ xs) [] = false
starts_with_bytes (x ∷ xs) (y ∷ ys) = x == y && starts_with_bytes xs ys

-- The image branch of `_backend_pages`: the type comes from the signature.
unfoldable pub image_page : Bytes → Page
image_page d = record {
  page_number = 1;
  content = d;
  mime_type =
      if starts_with_bytes (137 ∷ 80 ∷ 78 ∷ 71 ∷ 13 ∷ 10 ∷ 26 ∷ 10 ∷ []) d
      then "image/png"
      else if starts_with_bytes (255 ∷ 216 ∷ 255 ∷ []) d
      then "image/jpeg"
      else "image/webp";
  filename = "image";
}

abbrev pub render_failed : Raised
render_failed = gate_failure "pdf_render_failed" "PDF pages could not be rendered safely."

abbrev some_pages : List Page → Call (List Page)
some_pages [] = raise render_failed
some_pages (p ∷ ps) = pure (p ∷ ps)

unfoldable pub backend_pages : Services → Bytes → MediaType → Call (List Page)
backend_pages s d image = pure (image_page d ∷ [])
backend_pages s d pdf = do
  rendered ← or_fail (call pdf_rendered (s.render d)) render_failed
  some_pages rendered

abbrev pub page_label : ℕ → MediaType → Page → String
page_label index image page = concat "Media " (show index)
page_label index pdf page =
    concat "Media " (concat (show index) (concat " page " (show page.page_number)))

-- The file that a rendered page is kept in; an image has none.
abbrev pub keep_page : Services → ℕ → MediaType → Page → Call (Unit {0})
keep_page s index image page = pure tt
keep_page s index pdf page =
    let name = concat "media-" (concat (show index) (concat "-" page.filename)) in
    call (file_written name) (s.write_bytes name page.content)

abbrev ocr_filename : MediaType → Page → Option String
ocr_filename image page = none
ocr_filename pdf page = some page.filename

abbrev read_ocr : OcrResult → Call String
read_ocr r = elim r.status [
  | failure ↦ raise (gate_failure "ocr_failed" "OCR conversion failed.")
  | no_text ↦
      raise (gate_failure "recognition_insufficient" "Screenshot recognition was insufficient.")
  | success ↦ pure (or_default r.text "No text detected.")
]

abbrev read_vision : VisionResult → Call String
read_vision r = elim r.status [
  | failure ↦ raise (gate_failure "vision_failed" "Visual analysis failed safely.")
  | _ ↦ pure (strip (or_default r.description ""))
]

abbrev bracketed : String → String → String → String
bracketed label kind body = concat "[" (concat label (concat " " (concat kind (concat "]\n" body))))

-- Vision runs for the generic profile only.
unfoldable pub describe_page : Services → Profile → String → Page → Call Sections
describe_page s generic label page = do
  result ← call (vision_called page.mime_type) (s.describe page.content page.mime_type generic)
  description ← read_vision result
  pure (
      if is_blank description then no_sections else record {
        ocr = [];
        descriptions = description ∷ [];
        converted = bracketed label "Vision" description ∷ [];
      })
describe_page s error_screenshot label page = pure no_sections
describe_page s document label page = pure no_sections

-- The body of the loop over the pages.
unfoldable pub convert_page : Services → Profile → ℕ → MediaType → Page → Call Sections
convert_page s profile index media page = do
  keep_page s index media page
  result ←
      call (ocr_called page.mime_type) (s.ocr page.content page.mime_type (ocr_filename media page))
  ocr_text ← read_ocr result
  let label = page_label index media page
  described ← describe_page s profile label page
  pure (
      add_sections
        (record {
          ocr = ocr_text ∷ [];
          descriptions = [];
          converted = bracketed label "OCR" ocr_text ∷ [];
        })
        described)

unfoldable pub convert_pages : Services → Profile → ℕ → MediaType → List Page → Call Sections
convert_pages s profile index media [] = pure no_sections
convert_pages s profile index media (page ∷ pages) = do
  first ← convert_page s profile index media page
  rest ← convert_pages s profile index media pages
  pure (add_sections first rest)

abbrev pub extension : MediaType → String
extension image = ".img"
extension pdf = ".pdf"

-- The `try` block over one workspace.
unfoldable pub process_item : Services → Profile → ℕ → Acquired → Call Sections
process_item s profile index acquired = do
  let name = concat "media-" (concat (show index) (extension acquired.media_type))
  call (file_written name) (s.write_bytes name acquired.content)
  pages ← backend_pages s acquired.content acquired.media_type
  convert_pages s profile index acquired.media_type pages

abbrev pub acquisition_failed : Raised
acquisition_failed = gate_failure "media_acquisition_failed" "Media could not be acquired safely."

-- `if processing_failure is not None: raise processing_failure`
abbrev pub settle : Result Raised Sections → Call Sections
settle (ok sections) = pure sections
settle (err (gate_failure code message)) = raise (gate_failure code message)
settle (err interrupted) = raise interrupted
settle (err cleanup_error) =
    raise (gate_failure "conversion_failed" "Media conversion failed safely.")
settle (err other) = raise (gate_failure "conversion_failed" "Media conversion failed safely.")

abbrev pub item_locators : Acquired → List String
item_locators a = elim a.filename [
  | none ↦ a.forbidden_locators
  | some f ↦ if is_blank f then a.forbidden_locators else a.forbidden_locators ++ f ∷ []
]

-- The body of the loop over the parts, for a media part.
unfoldable pub convert_item : Services → Profile → String → ℕ → MediaPart → Call Item
convert_item s profile tenant index part = do
  acquired ← or_fail (call (acquire_called part tenant) (s.acquire part tenant)) acquisition_failed
  or_fail (create_workspace s)
      (gate_failure "workspace_failed" "Temporary media workspace could not be created.")
  outcome ← attempt (process_item s profile index acquired)
  or_fail_cleanup (clean_workspace s)
      (gate_failure "cleanup_failed" "Temporary media cleanup could not be verified.")
  sections ← settle outcome
  pure (record {
    locators = item_locators acquired;
    sections = sections;
    modality = acquired.media_type;
  })

unfoldable pub convert_items : Services → Profile → String → ℕ → List ContentPart → Call (List Item)
convert_items s profile tenant index [] = pure []
convert_items s profile tenant index (text_part _ ∷ parts) =
    convert_items s profile tenant index parts
convert_items s profile tenant index (media_part part ∷ parts) = do
  item ← convert_item s profile tenant (index + 1) part
  rest ← convert_items s profile tenant (index + 1) parts
  pure (item ∷ rest)

abbrev pub all_sections : List Item → Sections
all_sections [] = no_sections
all_sections (i ∷ is) = add_sections i.sections (all_sections is)

abbrev pub all_locators : List Item → List String
all_locators [] = []
all_locators (i ∷ is) = i.locators ++ all_locators is

abbrev pub all_modalities : List Item → List MediaType
all_modalities [] = []
all_modalities (i ∷ is) = i.modality ∷ all_modalities is

abbrev leading_text : String → List String
leading_text s = if is_blank s then [] else s ∷ []

-- A call of the sanitizer, which makes no call that is recorded.
abbrev sanitized : Services → List String → String → Call String
sanitized s locators t h = (s.sanitize t locators, h)

abbrev describe_all : Services → List String → List String → Call String
describe_all s locators [] = pure ""
describe_all s locators (d ∷ ds) = sanitized s locators (join "\n" (d ∷ ds))

-- The `try` block that sanitizes what was collected.
unfoldable pub sanitize_items : Services → String → List Item → Call ConvertedContext
sanitize_items s text items = do
  let locators = all_locators items
  let sections = all_sections items
  ocr_text ← sanitized s locators (join "\n" sections.ocr)
  visual ← describe_all s locators sections.descriptions
  structured ← sanitized s locators (join "\n\n" (leading_text text ++ sections.converted))
  pure (record {
    ocr_text = ocr_text;
    visual_description = visual;
    structured_context = structured;
    media_modalities = all_modalities items;
  })

unfoldable pub extract_context :
    Services → List ContentPart → Profile → String → Call ConvertedContext
extract_context s content profile tenant =
    if (detect_media content).media_count == 0
    then raise (gate_failure "media_required" "At least one media item is required.")
    else do
      items ← convert_items s profile tenant 0 content
      or_fail (sanitize_items s (join_text content) items)
          (gate_failure "sanitization_failed" "Converted text could not be sanitized.")

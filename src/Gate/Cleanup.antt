-- ===== src/Gate/Cleanup.antt =====
-- Temporary media never outlives a request: what the gate's calls leave in the history.
use media_bridge.Base.{
  ℕ, ◌+◌, ◌≤◌, String, List, [], ◌∷◌, ◌≡◌, refl, ◌∙◌, arith, concat, show, Result-cases, inl, inr,
}
use media_bridge.Base.{Result, ok, err}
use media_bridge.Contracts.{
  MediaType, image, pdf, MediaPart, ContentPart, text_part, media_part, Profile, generic,
  error_screenshot, document,
}
use media_bridge.Gate.Effects.{
  Bytes, Call, History, Event, Raised, gate_failure, cleanup_error, other, interrupted,
  acquire_called, workspace_opened, file_written, ocr_called, cleanup_called, cleanup_verified,
  Acquired, Page, Services, or_fail, call, ◌>>=◌,
}
use media_bridge.Gate.Context.{
  Item, backend_pages, page_label, extension, describe_page, convert_page, convert_pages,
  process_item, convert_item, convert_items, sanitize_items, join_text, extract_context,
}

abbrev one_if_opened : Event → ℕ
one_if_opened workspace_opened = 1
one_if_opened _ = 0

abbrev one_if_tried : Event → ℕ
one_if_tried cleanup_called = 1
one_if_tried _ = 0

abbrev one_if_verified : Event → ℕ
one_if_verified cleanup_verified = 1
one_if_verified _ = 0

abbrev total : (Event → ℕ) → History → ℕ
total f [] = 0
total f (e ∷ h) = f e + total f h

-- Workspaces created, deletions tried, and deletions verified.
abbrev pub opened : History → ℕ
opened = total one_if_opened

abbrev pub tried : History → ℕ
tried = total one_if_tried

abbrev pub verified : History → ℕ
verified = total one_if_verified

-- A call that touches no workspace.
abbrev SameCounts : History → History → Type 0
SameCounts h h' = (opened h' ≡ opened h) × (tried h' ≡ tried h) × (verified h' ≡ verified h)

abbrev Quiet : {A : Type 0} → Call A → Type 0
Quiet m = (h : History) → SameCounts h (m h).1

SameCounts-trans : (a b c : History) → SameCounts a b → SameCounts b c → SameCounts a c
SameCounts-trans a b c p q = (q.0 ∙ p.0, q.1 ∙ p.1, q.2 ∙ p.2)

Quiet-bind :
    {A B : Type 0} (m : Call A) (f : A → Call B)
    → Quiet m
    → ((a : A) → Quiet (f a))
    → Quiet (m >>= f)
Quiet-bind {A} {B} m f qm qf h = go (m h) (qm h)
  where
    go : (p : Result Raised A × History) → SameCounts h p.1 → SameCounts h (◌>>=◌ (λ _. p) f h).1
    go (ok a, h') s = SameCounts-trans h h' (f a h').1 s (qf a h')
    go (err e, h') s = s

Quiet-or_fail : {A : Type 0} (m : Call A) (e : Raised) → Quiet m → Quiet (or_fail m e)
Quiet-or_fail {A} m e q h = go (m h) (q h)
  where
    go : (p : Result Raised A × History) → SameCounts h p.1 → SameCounts h (or_fail (λ _. p) e h).1
    go (ok a, h') s = s
    go (err x, h') s = s

backend_pages-Quiet :
    (s : Services) (d : Bytes) (media : MediaType) → Quiet (backend_pages s d media)
unfolding backend_pages
backend_pages-Quiet s d image h = (refl, refl, refl)
backend_pages-Quiet s d pdf h = ground arith

describe_page-Quiet :
    (s : Services) (profile : Profile) (label : String) (page : Page)
    → Quiet (describe_page s profile label page)
unfolding describe_page
describe_page-Quiet s generic label page h = ground arith
describe_page-Quiet s error_screenshot label page h = (refl, refl, refl)
describe_page-Quiet s document label page h = (refl, refl, refl)

convert_page-Quiet :
    (s : Services) (profile : Profile) (index : ℕ) (media : MediaType) (page : Page)
    → Quiet (convert_page s profile index media page)
unfolding convert_page
convert_page-Quiet s profile index image page h = ground (
  arith,
  describe_page-Quiet s profile (page_label index image page) page (ocr_called page.mime_type ∷ h),
)
convert_page-Quiet s profile index pdf page h = ground (
  arith,
  describe_page-Quiet s profile (page_label index pdf page) page (
      ocr_called page.mime_type
      ∷ file_written (concat "media-" (concat (show index) (concat "-" page.filename)))
      ∷ h),
)

convert_pages-Quiet :
    (s : Services) (profile : Profile) (index : ℕ) (media : MediaType) (pages : List Page)
    → Quiet (convert_pages s profile index media pages)
unfolding convert_pages
convert_pages-Quiet s profile index media [] h = (refl, refl, refl)
convert_pages-Quiet s profile index media (page ∷ pages) h = ground (
  arith,
  convert_page-Quiet s profile index media page h,
  convert_pages-Quiet s profile index media pages (convert_page s profile index media page h).1,
)

process_item-Quiet :
    (s : Services) (profile : Profile) (index : ℕ) (acquired : Acquired)
    → Quiet (process_item s profile index acquired)
unfolding process_item
process_item-Quiet s profile index acquired =
    let name = concat "media-" (concat (show index) (extension acquired.media_type)) in
    Quiet-bind (call (file_written name) (s.write_bytes name acquired.content))
      (λ _.
        backend_pages s acquired.content acquired.media_type
        >>= convert_pages s profile index acquired.media_type)
      (λ h. omega arith)
      (λ _.
        Quiet-bind (backend_pages s acquired.content acquired.media_type)
          (convert_pages s profile index acquired.media_type)
          (backend_pages-Quiet s acquired.content acquired.media_type)
          (convert_pages-Quiet s profile index acquired.media_type))

-- A call that returns has verified as many deletions as it has created workspaces.
abbrev pub VerifiedOnReturn : {A : Type 0} → History → Result Raised A → History → Type 0
VerifiedOnReturn h (ok _) h' = opened h' + verified h ≡ verified h' + opened h
VerifiedOnReturn h (err _) h' = Unit

-- How many workspaces a call may leave behind: one if it was interrupted, and else none.
abbrev pub left_behind : {A : Type 0} → Result Raised A → ℕ
left_behind (ok _) = 0
left_behind (err (gate_failure _ _)) = 0
left_behind (err cleanup_error) = 0
left_behind (err other) = 0
left_behind (err interrupted) = 1

-- What a call does to the workspaces, from one history to the next: no more deletions than creations,
-- which are all answered by a deletion but for what is left behind, and by a verified one where the call
-- returns.
abbrev pub Closes : {A : Type 0} → History → Result Raised A × History → Type 0
Closes h (r, h') =
    (tried h' + opened h ≤ opened h' + tried h)
    × (opened h' + tried h ≤ tried h' + opened h + left_behind r)
    × VerifiedOnReturn h r h'

convert_item-Closes :
    (s : Services) (profile : Profile) (tenant : String) (index : ℕ) (part : MediaPart)
    (h : History)
    → Closes h (convert_item s profile tenant index part h)
unfolding convert_item
convert_item-Closes s profile tenant index part h = elim (Result-cases (s.acquire part tenant h)) [
  | inr (e, q) ↦ ground arith
  | inl (acquired, q) ↦ ground (
    arith,
    process_item-Quiet s profile index acquired (workspace_opened ∷ acquire_called part tenant ∷ h),
  )
]

convert_items-Closes :
    (s : Services) (profile : Profile) (tenant : String) (index : ℕ) (parts : List ContentPart)
    (h : History)
    → Closes h (convert_items s profile tenant index parts h)
unfolding convert_items
convert_items-Closes s profile tenant index [] h = (omega arith, omega arith, omega arith)
convert_items-Closes s profile tenant index (text_part t ∷ parts) h =
    convert_items-Closes s profile tenant index parts h
convert_items-Closes s profile tenant index (media_part part ∷ parts) h = ground (
  arith,
  convert_item-Closes s profile tenant (index + 1) part h,
  convert_items-Closes s profile tenant (index + 1) parts
      (convert_item s profile tenant (index + 1) part h).1,
)

sanitize_items-Quiet :
    (s : Services) (text : String) (items : List Item) → Quiet (sanitize_items s text items)
unfolding sanitize_items
sanitize_items-Quiet s text items h = ground arith

-- Whatever the collaborators answer, a conversion has tried to delete every workspace that it created
-- by the time it returns or raises an `Exception`; one that is interrupted has left at most one behind;
-- none tries more deletions than it created workspaces; and one that returns has verified every deletion.
pub extract_context-Closes :
    (s : Services) (content : List ContentPart) (profile : Profile) (tenant : String) (h : History)
    → Closes h (extract_context s content profile tenant h)
unfolding extract_context
extract_context-Closes s content profile tenant h =
    elim (Result-cases (convert_items s profile tenant 0 content h).0) [
      | inr (e, q) ↦ ground (arith, convert_items-Closes s profile tenant 0 content h)
      | inl (items, q) ↦ ground (
        arith,
        convert_items-Closes s profile tenant 0 content h,
        sanitize_items-Quiet s (join_text content) items
            (convert_items s profile tenant 0 content h).1,
      )
    ]

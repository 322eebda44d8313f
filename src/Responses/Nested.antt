-- ===== src/Responses/Nested.antt =====
-- What `_contains_media_reference` (media_bridge/openai_responses.py) rules out, said of the values that
-- are nested in a value.
use media_bridge.Base.{
  Bool, true, false, not, ◌||◌, List, [], ◌∷◌, ◌++◌, ◌≡◌, refl, arith, all, contains, all-append,
  is_blank, ◌==◌, string_eq, starts_with, if◌then◌else◌, Bool-cases, inl, inr,
}
use media_bridge.Json.{Json, null, bool, int, number, text, array, object, Items, nil, cons}
use media_bridge.Json.{Fields, end, field, get}
use media_bridge.Responses.References.{
  Web, text_in, nonempty_text, media_types, locates, contains_reference, some_reference,
  field_reference,
}
use media_bridge.Responses.Normalize.{outside_reference}

-- A value and all that it holds, at any depth.
unfoldable mutual
  pub nested : Json → List Json
  nested null = null ∷ []
  nested (bool b) = bool b ∷ []
  nested (int n) = int n ∷ []
  nested (number s) = number s ∷ []
  nested (text s) = text s ∷ []
  nested (array xs) = array xs ∷ nested_items xs
  nested (object fs) = object fs ∷ nested_fields fs

  pub nested_items : Items → List Json
  nested_items nil = []
  nested_items (cons x xs) = nested x ++ nested_items xs

  pub nested_fields : Fields → List Json
  nested_fields end = []
  nested_fields (field key value fs) = nested value ++ nested_fields fs

-- All that an object holds under other keys than `input`.
unfoldable pub nested_outside : Fields → List Json
nested_outside end = []
nested_outside (field key value fs) =
    let rest = nested_outside fs in if key == "input" then rest else nested value ++ rest

abbrev names_media : Json → Bool
names_media (text s) = contains s ("input_image" ∷ "input_file" ∷ "image_url" ∷ [])
names_media _ = false

abbrev is_locator : Json → Bool
is_locator (text s) = not (is_blank s)
is_locator _ = false

-- A text that is a data URI of an image or a PDF, or an object of a media type or with a locator.
abbrev pub is_reference : Web → Json → Bool
is_reference w (text s) =
    starts_with "data:image/" (w.lower s) || starts_with "data:application/pdf" (w.lower s)
is_reference w (object fs) =
    names_media (get "type" fs)
    || (is_locator (get "image_url" fs)
        || (is_locator (get "file_data" fs)
            || (is_locator (get "file_id" fs)
                || (is_locator (get "file_url" fs) || is_locator (get "asset_id" fs)))))
is_reference w _ = false

-- None of the values is a reference.
abbrev pub AllFree : Web → List Json → Type 0
AllFree w vs = all (λ v. not (is_reference w v)) vs ≡ true

is_locator-eq : (v : Json) → nonempty_text v ≡ is_locator v
is_locator-eq (text s) = refl
is_locator-eq null = refl
is_locator-eq (bool b) = refl
is_locator-eq (int n) = refl
is_locator-eq (number s) = refl
is_locator-eq (array xs) = refl
is_locator-eq (object fs) = refl

names_media-eq : (v : Json) → text_in media_types v ≡ names_media v
names_media-eq (text s) = refl
names_media-eq null = refl
names_media-eq (bool b) = refl
names_media-eq (int n) = refl
names_media-eq (number s) = refl
names_media-eq (array xs) = refl
names_media-eq (object fs) = refl

none_of_six :
    (a b c d e f a' b' c' d' e' f' : Bool)
    → a ≡ a'
    → b ≡ b'
    → c ≡ c'
    → d ≡ d'
    → e ≡ e'
    → f ≡ f'
    → (a || (b || (c || (d || (e || (f || false)))))) ≡ false
    → (a' || (b' || (c' || (d' || (e' || f'))))) ≡ false
none_of_six a b c d e f a' b' c' d' e' f' p q r s t u h = ground (arith, p, q, r, s, t, u, h)

locates-is_reference :
    (w : Web) (fs : Fields) → locates fs ≡ false → is_reference w (object fs) ≡ false
unfolding locates
locates-is_reference w fs h =
    none_of_six _ _ _ _ _ _ _ _ _ _ _ _ (names_media-eq (get "type" fs))
      (is_locator-eq (get "image_url" fs)) (is_locator-eq (get "file_data" fs))
      (is_locator-eq (get "file_id" fs)) (is_locator-eq (get "file_url" fs))
      (is_locator-eq (get "asset_id" fs)) h

mutual
  unfolding contains_reference some_reference field_reference nested nested_items nested_fields

  contains_reference-AllFree :
      (w : Web) (j : Json) → contains_reference w j ≡ false → AllFree w (nested j)
  contains_reference-AllFree w null h = refl
  contains_reference-AllFree w (bool b) h = refl
  contains_reference-AllFree w (int n) h = refl
  contains_reference-AllFree w (number s) h = refl
  contains_reference-AllFree w (text s) h = ground (arith, h)
  contains_reference-AllFree w (array xs) h = some_reference-AllFree w xs h
  contains_reference-AllFree w (object fs) h =
      ground (arith, h, locates-is_reference w fs, field_reference-AllFree w fs)

  pub some_reference-AllFree :
      (w : Web) (xs : Items) → some_reference w xs ≡ false → AllFree w (nested_items xs)
  some_reference-AllFree w nil h = refl
  some_reference-AllFree w (cons x xs) h =
      all-append (λ v. not (is_reference w v)) (nested x) (nested_items xs)
        (contains_reference-AllFree w x (ground arith)) (some_reference-AllFree w xs (ground arith))

  field_reference-AllFree :
      (w : Web) (fs : Fields) → field_reference w fs ≡ false → AllFree w (nested_fields fs)
  field_reference-AllFree w end h = refl
  field_reference-AllFree w (field key value fs) h =
      all-append (λ v. not (is_reference w v)) (nested value) (nested_fields fs)
        (contains_reference-AllFree w value (ground arith))
        (field_reference-AllFree w fs (ground arith))

pub outside_reference-AllFree :
    (w : Web) (fs : Fields) → outside_reference w fs ≡ false → AllFree w (nested_outside fs)
unfolding outside_reference nested_outside
outside_reference-AllFree w end h = refl
outside_reference-AllFree w (field key value fs) h = elim (Bool-cases (key == "input")) [
  | inl input ↦ rw input (outside_reference-AllFree w fs (ground (arith, input)))
  | inr other ↦ rw other (
      all-append (λ v. not (is_reference w v)) (nested value) (nested_outside fs)
        (contains_reference-AllFree w value (ground (arith, other)))
        (outside_reference-AllFree w fs (ground (arith, other))))
]

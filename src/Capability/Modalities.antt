-- ===== src/Capability/Modalities.antt =====
-- Sets of input modalities: `set[Literal["text", "image", "pdf"]]` as its three memberships, so that
-- equal sets are equal values.
use media_bridge.Base.{Bool, true, false, not, ◌&&◌, ◌||◌}
use media_bridge.Contracts.{MediaType, image, pdf}

pub record ModalitySet : Type 0 where
  pub has_text : Bool
  pub has_image : Bool
  pub has_pdf : Bool

abbrev pub empty : ModalitySet
empty = record { has_text = false; has_image = false; has_pdf = false }

abbrev pub singleton : MediaType → ModalitySet
singleton image = record empty { has_image = true }
singleton pdf = record empty { has_pdf = true }

abbrev pub add : MediaType → ModalitySet → ModalitySet
add image m = record m { has_image = true }
add pdf m = record m { has_pdf = true }

abbrev implies : Bool → Bool → Bool
implies a b = not a || b

-- `a.issubset(b)`
abbrev pub subset : ModalitySet → ModalitySet → Bool
subset a b =
    implies a.has_text b.has_text
    && (implies a.has_image b.has_image && implies a.has_pdf b.has_pdf)

abbrev pub union : ModalitySet → ModalitySet → ModalitySet
union a b = record {
  has_text = a.has_text || b.has_text;
  has_image = a.has_image || b.has_image;
  has_pdf = a.has_pdf || b.has_pdf;
}

-- `m.intersection({"image", "pdf"})`, as a test.
abbrev pub has_media : ModalitySet → Bool
has_media m = m.has_image || m.has_pdf

-- `bool(m)`
abbrev pub is_nonempty : ModalitySet → Bool
is_nonempty m = m.has_text || (m.has_image || m.has_pdf)

-- `m == frozenset({"pdf"})`
abbrev pub is_pdf_only : ModalitySet → Bool
is_pdf_only m = not m.has_text && (not m.has_image && m.has_pdf)

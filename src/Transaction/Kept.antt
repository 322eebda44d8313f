-- ===== src/Transaction/Kept.antt =====
-- What the record of a response says of the request that was prepared for it (`_record_state` of
-- media_bridge_gateway/transaction.py).
use media_bridge.Base.{
  ℕ, Bool, true, false, ◌||◌, Option, none, some, List, [], ◌∷◌, ◌≡◌, refl, arith, any, strip, join,
}
use media_bridge.Contracts.{image, pdf, ContentPart, text_part, media_part}
use media_bridge.Capability.{detect_media, modalities_of}
use media_bridge.Gate.Context.{join_text, texts_of}
use media_bridge.State.Gateway.{GatewayStateRecord, record_of}
use media_bridge.Transaction.Contracts.{Subject, GatewayResponse}
use media_bridge.Transaction.Seal.{Gateway, Moment}
use media_bridge.Transaction.Invoke.{Ready, state_of}

-- A part is an image, or a PDF.
abbrev pub holds_image : ContentPart → Bool
holds_image (text_part _) = false
holds_image (media_part p) = elim p.media_type [ image ↦ true | pdf ↦ false ]

abbrev pub holds_pdf : ContentPart → Bool
holds_pdf (text_part _) = false
holds_pdf (media_part p) = elim p.media_type [ image ↦ false | pdf ↦ true ]

-- The state before held an image, a PDF, or another modality.
abbrev pub held_image : Option GatewayStateRecord → Bool
held_image none = false
held_image (some s) = s.media_modalities.has_image

abbrev pub held_pdf : Option GatewayStateRecord → Bool
held_pdf none = false
held_pdf (some s) = s.media_modalities.has_pdf

abbrev pub held_text : Option GatewayStateRecord → Bool
held_text none = false
held_text (some s) = s.media_modalities.has_text

module _ (t : Gateway) (m : Moment) (subject : Subject) (response : GatewayResponse)
    (r : Ready) where
  -- The record of a response: the texts that the gate prepared, joined by newlines; the target that they
  -- were prepared for; an image, or a PDF, where the prepared content or the state before has one; and the
  -- taint where it has any modality.
  pub record IsKept (expires_at : ℕ) (k : GatewayStateRecord) : Type 0 where
    pub response_id : k.response_id ≡ response.response_id
    pub tenant : k.tenant_id ≡ subject.tenant_id
    pub selector : k.credential_selector ≡ subject.credential_selector
    pub words : k.sanitized_text ≡ strip (join "\n" (texts_of r.prepared.content))
    pub target : k.target_id ≡ r.prepared.target_id
    pub snapshot : k.snapshot_version ≡ t.snapshot_version
    pub images :
        k.media_modalities.has_image
        ≡ (any holds_image r.prepared.content || held_image r.normalized.previous_state)
    pub pdfs :
        k.media_modalities.has_pdf
        ≡ (any holds_pdf r.prepared.content || held_pdf r.normalized.previous_state)
    pub texts : k.media_modalities.has_text ≡ held_text r.normalized.previous_state
    pub tainted : k.media_tainted ≡ (
        k.media_modalities.has_text || (k.media_modalities.has_image || k.media_modalities.has_pdf))
    pub until : k.expires_at ≡ expires_at

modalities_of-any :
    (parts : List ContentPart)
    → ((modalities_of parts).has_image ≡ any holds_image parts)
      × ((modalities_of parts).has_pdf ≡ any holds_pdf parts)
      × ((modalities_of parts).has_text ≡ false)
unfolding modalities_of
modalities_of-any [] = (refl, refl, refl)
modalities_of-any (text_part s ∷ parts) = modalities_of-any parts
modalities_of-any (media_part p ∷ parts) = ground (arith, modalities_of-any parts)

module _ (t : Gateway) (m : Moment) (subject : Subject) (response : GatewayResponse)
    (r : Ready) where
  pub record_of-IsKept :
      (expires_at : ℕ)
      → IsKept t m subject response r expires_at
          (record_of (state_of t m subject response r) expires_at)
  unfolding record_of state_of detect_media join_text
  record_of-IsKept expires_at =
      let (images, pdfs, texts) = modalities_of-any r.prepared.content in
      record {
        response_id = refl;
        tenant = refl;
        selector = refl;
        words = refl;
        target = refl;
        snapshot = refl;
        images = ground (arith, images);
        pdfs = ground (arith, pdfs);
        texts = ground (arith, texts);
        tainted = refl;
        until = refl;
      }

-- ===== src/Tests/Sample.antt =====
-- A small installation: one text model, one model verified for PDF, and collaborators that answer at
-- once.
use media_bridge.Base.{String, true, false, none, some, [], ◌∷◌}
use media_bridge.Base.{ok}
use media_bridge.Contracts.{
  pdf, MediaPart, text_part, media_part, base64_source, PrepareRequest, generic, document,
}
use media_bridge.Capability.{ModelCapability, CapabilityRegistry}
use media_bridge.Receipts.{Codec, ReceiptBinding, payload_json}
use media_bridge.Receipts.Roundtrip.{lifetime}
use media_bridge.Gate.{GateParts, DownstreamPayload}
use media_bridge.Gate.Effects.{Services, success}

abbrev pub text_model : ModelCapability
text_model = record {
  model_id = "solar";
  input_modalities = record { has_text = true; has_image = false; has_pdf = false };
  expires_at = some 1000;
  pdf_passthrough_verified = false;
}

abbrev pub pdf_model : ModelCapability
pdf_model = record {
  model_id = "viewer";
  input_modalities = record { has_text = true; has_image = true; has_pdf = true };
  expires_at = none;
  pdf_passthrough_verified = true;
}

abbrev pub registry : CapabilityRegistry
registry = record { capabilities = text_model ∷ pdf_model ∷ []; version = "v1" }

abbrev pub services : Services
services = record {
  acquire = λ part tenant h. ok (record {
    content = 1 ∷ 2 ∷ [];
    media_type = part.media_type;
    mime_type = "application/pdf";
    filename = some "scan.pdf";
    forbidden_locators = [];
  });
  open_workspace = λ h. ok tt;
  write_bytes = λ name d h. ok tt;
  render = λ d h. ok (
      record { page_number = 1; content = d; mime_type = "image/png"; filename = "page-1.png" }
      ∷ []);
  ocr = λ d mime name h. ok (record { status = success; text = some "an error" });
  describe = λ d mime profile h. ok (record { status = success; description = none });
  cleanup = λ h. ok tt;
  sanitize = λ t locators. ok t;
}

-- What the sample receipt binds.
abbrev pub binding : ReceiptBinding
binding = record {
  target_id = "solar";
  capability = "non_vision";
  input_digest = "d";
  output_digest = "d";
  action = "passthrough";
}

-- Every text is sealed by the one byte 7, and the only payload is that of `binding` at second 100.
abbrev pub codec : Codec
codec = record {
  hmac_sha256 = λ key message. 7 ∷ [];
  urlsafe_b64encode = λ bytes. "Bw==";
  urlsafe_b64decode = λ s. some (7 ∷ []);
  dumps = λ value. 7 ∷ [];
  loads = λ bytes. some (payload_json (lifetime binding 100 30));
  str_of = λ value. "";
  int_of = λ value. none;
}

abbrev pub gate : GateParts
gate = record {
  services = services;
  registry = registry;
  codec = codec;
  secret = 1 ∷ [];
  canonical = λ value. [];
  sha256_hex = λ bytes. "d";
  b64encode = λ bytes. "AQI=";
}

abbrev pub upload : MediaPart
upload = record {
  media_type = pdf;
  source = base64_source "AQI=";
  filename = none;
  declared_mime = none;
}

abbrev pub question : PrepareRequest
question = record { content = text_part "why?" ∷ []; target = "solar"; profile = generic }

abbrev pub scan_for : String → PrepareRequest
scan_for target = record {
  content = text_part "read this" ∷ media_part upload ∷ [];
  target = target;
  profile = document;
}

abbrev pub payload : DownstreamPayload
payload = record {
  target_id = "solar";
  capability = "non_vision";
  action = "passthrough";
  content = text_part "why?" ∷ [];
  input_digest = "d";
  output_digest = "d";
  receipt = "v1.Bw.Bw";
}

-- ===== src/Router/Guard.antt =====
-- The guard accepts what the gate sealed, while the receipt lives, and nothing that breaks the
-- boundary.
use media_bridge.Base.{
  ℕ, ◌+◌, ◌≤◌, String, false, some, ◌∙◌, List, ◌≡◌, ◌≢◌, refl, ◌⊎◌, inl, inr, arith, ltb, any,
  eq_iff, string_eq,
}
use media_bridge.Base.{Result, ok, err}
use media_bridge.Contracts.{PrepareRequest}
use media_bridge.Capability.{is_media, detect_media}
use media_bridge.Receipts.{ReceiptBinding, payload_json, ReceiptError, encoding_error, verify}
use media_bridge.Receipts.Accepted.{Evidence, verify-Evidence, same_binding_refl}
use media_bridge.Receipts.Roundtrip.{Base64, lifetime, verify-sign}
use media_bridge.Gate.{DownstreamPayload, GateParts, binding_of, digest_content, receipt_ttl}
use media_bridge.Gate.Safety.{Sealed}
use media_bridge.Gate.Decision.{media_count-zero, media_count_of_none}
use media_bridge.Router.{DownstreamRequest, checked_receipt, guard}

-- What a request that passed the guard is known to be.
pub record Guarded (g : GateParts) (now : ℕ) (p : DownstreamPayload) (q : DownstreamRequest)
    : Type 0 where
  pub target : q.target_id ≡ p.target_id
  pub content : q.content ≡ p.content
  pub digest : digest_content g p.content ≡ p.output_digest
  pub boundary :
      ((p.capability ≡ "non_vision") × (any is_media p.content ≡ false))
      ⊎ ((p.capability ≡ "vision") × (p.action ≡ "passthrough"))
  pub evidence : Evidence g.codec g.secret now p.receipt (binding_of p)

vision_is_not_non_vision : ◌≢◌ {A = String} "vision" "non_vision"
vision_is_not_non_vision = ground (arith, eq_iff "vision" "non_vision")

passthrough_is_not_converted : ◌≢◌ {A = String} "passthrough" "converted"
passthrough_is_not_converted = ground (arith, eq_iff "passthrough" "converted")

checked_receipt-ok :
    (r : Result ReceiptError ReceiptBinding) (u : Unit {0})
    → checked_receipt r ≡ ok u
    → (b : ReceiptBinding) × (r ≡ ok b)
unfolding checked_receipt
checked_receipt-ok (ok b) u h = (b, refl)
checked_receipt-ok (err encoding_error) u h = absurd (cc h)
checked_receipt-ok (err e) u h = absurd (cc h)

guard-checks :
    (g : GateParts) (now : ℕ) (p : DownstreamPayload) (q : DownstreamRequest)
    → guard g now p ≡ ok q
    → checked_receipt (verify g.codec g.secret now p.receipt (binding_of p)) ≡ ok tt
unfolding guard
guard-checks g now p q h = ground arith

guard-counts :
    (g : GateParts) (now : ℕ) (p : DownstreamPayload) (q : DownstreamRequest)
    → guard g now p ≡ ok q
    → ((p.capability ≡ "non_vision") × (ltb 0 (detect_media p.content).media_count ≡ false))
      ⊎ ((p.capability ≡ "vision") × (p.action ≡ "passthrough"))
unfolding guard
guard-counts g now p q h = ground (
  arith,
  eq_iff p.capability "non_vision",
  eq_iff p.capability "vision",
  eq_iff p.action "passthrough",
  eq_iff p.action "converted",
  vision_is_not_non_vision,
)

guard-boundary :
    (g : GateParts) (now : ℕ) (p : DownstreamPayload) (q : DownstreamRequest)
    → guard g now p ≡ ok q
    → ((p.capability ≡ "non_vision") × (any is_media p.content ≡ false))
      ⊎ ((p.capability ≡ "vision") × (p.action ≡ "passthrough"))
guard-boundary g now p q h = elim (guard-counts g now p q h) [
  | inl (c, plain) ↦ inl (c, media_count-zero p.content plain)
  | inr passed ↦ inr passed
]

-- What passes the guard is what the payload held: its digest matches, its receipt is signed evidence
-- for just this payload, and the boundary between text-only and media-capable models is kept.
pub guard-Guarded :
    (g : GateParts) (now : ℕ) (p : DownstreamPayload) (q : DownstreamRequest)
    → guard g now p ≡ ok q
    → Guarded g now p q
unfolding guard
guard-Guarded g now p q h = record {
  target = ground arith;
  content = ground arith;
  digest = ground (arith, eq_iff (digest_content g p.content) p.output_digest);
  boundary = guard-boundary g now p q h;
  evidence =
      let (b, accepted) =
        checked_receipt-ok (verify g.codec g.secret now p.receipt (binding_of p)) tt
          (guard-checks g now p q h) in
      (verify-Evidence g.codec g.secret now p.receipt (binding_of p) b accepted).0;
}

module _ (g : GateParts) (signed_at now : ℕ) (r : PrepareRequest) (p : DownstreamPayload)
    (body mac : String) where
  abbrev issued_bytes : List ℕ
  issued_bytes = g.codec.dumps (payload_json (lifetime (binding_of p) signed_at receipt_ttl))

  receipt_verifies :
      Sealed g signed_at r p
      → Base64 g.codec issued_bytes body
      → Base64 g.codec (g.codec.hmac_sha256 g.secret body) mac
      → g.codec.loads issued_bytes
        ≡ some (payload_json (lifetime (binding_of p) signed_at receipt_ttl))
      → signed_at ≤ now
      → now ≤ signed_at + receipt_ttl
      → verify g.codec g.secret now p.receipt (binding_of p) ≡ ok (binding_of p)
  receipt_verifies s b m l begun live =
      verify-sign g.codec g.secret (binding_of p) (binding_of p) signed_at receipt_ttl now body mac
        p.receipt b m l s.signed
      ∙ ground (arith, same_binding_refl (binding_of p))

  -- The guard passes whatever the gate sealed, unchanged, for as long as the receipt lives.
  pub guard-Sealed :
      Sealed g signed_at r p
      → Base64 g.codec issued_bytes body
      → Base64 g.codec (g.codec.hmac_sha256 g.secret body) mac
      → g.codec.loads issued_bytes
        ≡ some (payload_json (lifetime (binding_of p) signed_at receipt_ttl))
      → signed_at ≤ now
      → now ≤ signed_at + receipt_ttl
      → guard g now p ≡ ok (record { target_id = p.target_id; content = p.content })
  unfolding guard checked_receipt
  guard-Sealed s b m l begun live = ground (
    arith,
    receipt_verifies s b m l begun live,
    s.form,
    eq_iff (digest_content g p.content) p.output_digest,
    eq_iff p.capability "non_vision",
    eq_iff p.capability "vision",
    eq_iff p.action "passthrough",
    eq_iff p.action "converted",
    vision_is_not_non_vision,
    passthrough_is_not_converted,
    media_count_of_none p.content,
  )

-- ===== src/Receipts/Roundtrip.antt =====
-- Verifying what `sign` returned.
use Prim.Native.String.append
use text.Mathlib.TextLemmas.{append_assoc}
use media_bridge.Base.{
  ℕ, ◌+◌, ◌-◌, ◌%◌, ◌<◌, String, true, ◌||◌, some, List, [], ◌∷◌, ◌≡◌, refl, ap, ◌∙◌, arith, concat,
  codes, text_length, all, ltb, number_eq, if◌then◌else◌, string_eq,
}
use media_bridge.Base.{Result, ok, err}
use media_bridge.Json.{find}
use media_bridge.Receipts.{
  Codec, ReceiptBinding, ReceiptError, expired, mismatch, Payload, payload_json, payload_fields,
  encode, decode, sign, signature_for, read_payload, read_fields, verify, verify_parts, same_bytes,
  same_binding, is_ascii,
}
use media_bridge.Receipts.Padding.{
  padding, repad, split_on, Lacks, split_on-append, split_on-Lacks, unpad-append,
}

-- What base64 is documented to do with these bytes: an ASCII text of whole groups of four with no
-- dot, at most three equals signs that stand at its end, which decodes to the bytes.
pub record Base64 (codec : Codec) (bytes : List ℕ) (body : String) : Type 0 where
  pub pad : ℕ
  pub encoded : codec.urlsafe_b64encode bytes ≡ concat body (padding pad)
  pub decoded : codec.urlsafe_b64decode (concat body (padding pad)) ≡ some bytes
  pub no_equals : Lacks b'=' body
  pub no_dot : Lacks b'.' body
  pub ascii : all (λ c. ltb c 128) (codes body) ≡ true
  pub short : pad < 4
  pub whole : (text_length body + pad) % 4 ≡ 0

module _ {codec : Codec} {bytes : List ℕ} {body : String} (b : Base64 codec bytes body) where
  pub encode-body : encode codec bytes ≡ body
  unfolding encode
  encode-body = rw b.encoded (unpad-append body b.pad b.no_equals)

  pub decode-body : decode codec body ≡ some bytes
  unfolding decode repad
  decode-body =
      let same : (4 - text_length body % 4) % 4 ≡ b.pad = omega (arith, b.short, b.whole) in
      rw (same, decode) b.decoded

pub same_bytes_refl : (xs : List ℕ) → same_bytes xs xs ≡ true
same_bytes_refl [] = refl
same_bytes_refl (x ∷ xs) = ground (arith, same_bytes_refl xs)

read_fields-payload_fields :
    (codec : Codec) (p : Payload) → read_fields codec (payload_fields p) ≡ ok p
unfolding read_fields payload_fields find
read_fields-payload_fields codec p = refl

read_payload-body :
    (codec : Codec) (p : Payload) (bytes : List ℕ) (body : String)
    → Base64 codec bytes body
    → codec.loads bytes ≡ some (payload_json p)
    → read_payload codec body ≡ ok p
unfolding read_payload
read_payload-body codec p bytes body b h =
    rw (decode-body b, h) (read_fields-payload_fields codec p)

-- What the verifier answers to a token of the signer.
abbrev pub answer : ℕ → ℕ → ℕ → ReceiptBinding → ReceiptBinding → Result ReceiptError ReceiptBinding
answer issued ttl now binding expected =
    if ltb now issued || ltb (issued + ttl) now
    then err expired
    else if same_binding binding expected
    then ok binding
    else err mismatch

-- The payload that `sign` issues.
abbrev pub lifetime : ReceiptBinding → ℕ → ℕ → Payload
lifetime binding issued ttl = record {
  binding = binding;
  issued_at = issued;
  expires_at = issued + ttl;
}

dot-cons : (s : String) → concat "." s ≡ String.◌∷◌ "." s
dot-cons s = append.cons "." "" s ∙ ap (λ t. String.◌∷◌ "." t) (append.nil s)

token_splits :
    (body mac : String)
    → Lacks b'.' body
    → Lacks b'.' mac
    → split_on b'.' (concat "v1." (concat body (concat "." mac))) ≡ "v1" ∷ body ∷ mac ∷ []
token_splits body mac hb hm =
    ap (split_on b'.') (append_assoc "v1" "." (concat body (concat "." mac)))
    ∙ ap (λ t. split_on b'.' (concat "v1" t)) (dot-cons (concat body (concat "." mac)))
    ∙ split_on-append b'.' "." "v1" (concat body (concat "." mac)) refl refl
    ∙ ap (λ t. "v1" ∷ split_on b'.' (concat body t)) (dot-cons mac)
    ∙ ap (◌∷◌ "v1") (split_on-append b'.' "." body mac refl hb)
    ∙ ap (λ t. "v1" ∷ body ∷ t) (split_on-Lacks b'.' mac hm)

module _ (codec : Codec) (secret : List ℕ) (binding expected : ReceiptBinding) (issued ttl now : ℕ)
    (body mac : String) where
  verify_parts-signed :
      Base64 codec (codec.dumps (payload_json (lifetime binding issued ttl))) body
      → Base64 codec (codec.hmac_sha256 secret body) mac
      → codec.loads (codec.dumps (payload_json (lifetime binding issued ttl)))
        ≡ some (payload_json (lifetime binding issued ttl))
      → verify_parts codec secret now "v1" body mac expected
        ≡ answer issued ttl now binding expected
  unfolding verify_parts is_ascii
  verify_parts-signed b m l =
      rw
        (
          decode-body m,
          b.ascii,
          same_bytes_refl (codec.hmac_sha256 secret body),
          read_payload-body codec (lifetime binding issued ttl)
              (codec.dumps (payload_json (lifetime binding issued ttl))) body b l,
        )
        (ground arith)

  verify-token :
      Base64 codec (codec.dumps (payload_json (lifetime binding issued ttl))) body
      → Base64 codec (codec.hmac_sha256 secret body) mac
      → codec.loads (codec.dumps (payload_json (lifetime binding issued ttl)))
        ≡ some (payload_json (lifetime binding issued ttl))
      → verify codec secret now (concat "v1." (concat body (concat "." mac))) expected
        ≡ answer issued ttl now binding expected
  unfolding verify
  verify-token b m l =
      rw (token_splits body mac b.no_dot m.no_dot, verify) (verify_parts-signed b m l)

  sign-token :
      (token : String)
      → Base64 codec (codec.dumps (payload_json (lifetime binding issued ttl))) body
      → Base64 codec (codec.hmac_sha256 secret body) mac
      → sign codec secret issued binding ttl ≡ ok token
      → concat "v1." (concat body (concat "." mac)) ≡ token
  unfolding sign signature_for
  sign-token token b m h = ground (arith, encode-body b, encode-body m, h)

  -- A token that `sign` issued for a lifetime of `ttl` seconds is answered by `verify`, under the same
  -- secret: it is expired before its issue and after its lifetime, mismatched where the caller expects
  -- another binding, and else returns its binding. The payload survives JSON and base64, as documented.
  pub verify-sign :
      (token : String)
      → Base64 codec (codec.dumps (payload_json (lifetime binding issued ttl))) body
      → Base64 codec (codec.hmac_sha256 secret body) mac
      → codec.loads (codec.dumps (payload_json (lifetime binding issued ttl)))
        ≡ some (payload_json (lifetime binding issued ttl))
      → sign codec secret issued binding ttl ≡ ok token
      → verify codec secret now token expected ≡ answer issued ttl now binding expected
  verify-sign token b m l h = rw (← sign-token token b m h) (verify-token b m l)

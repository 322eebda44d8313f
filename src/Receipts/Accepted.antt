-- ===== src/Receipts/Accepted.antt =====
-- What a token that `verify` accepts must be.
use media_bridge.Base.{
  ℕ, ◌≤◌, String, true, some, List, [], ◌∷◌, ◌≡◌, refl, arith, number_eq, string_eq, eq_iff,
}
use media_bridge.Base.{ok}
use media_bridge.Receipts.{
  Codec, ReceiptBinding, Payload, decode, read_payload, verify, verify_parts, same_bytes,
  same_binding,
}
use media_bridge.Receipts.Padding.{split_on}

pub same_bytes-eq : (xs ys : List ℕ) → same_bytes xs ys ≡ true → xs ≡ ys
same_bytes-eq [] [] h = refl
same_bytes-eq [] (y ∷ ys) h = cc
same_bytes-eq (x ∷ xs) [] h = cc
same_bytes-eq (x ∷ xs) (y ∷ ys) h = ground (arith, same_bytes-eq xs ys)

pub same_binding-eq : (a b : ReceiptBinding) → same_binding a b ≡ true → a ≡ b
unfolding same_binding
same_binding-eq a b h = ground (
  arith,
  eq_iff a.target_id b.target_id,
  eq_iff a.capability b.capability,
  eq_iff a.input_digest b.input_digest,
  eq_iff a.output_digest b.output_digest,
  eq_iff a.action b.action,
)

pub same_binding_refl : (a : ReceiptBinding) → same_binding a a ≡ true
unfolding same_binding
same_binding_refl a = ground (
  arith,
  eq_iff a.target_id a.target_id,
  eq_iff a.capability a.capability,
  eq_iff a.input_digest a.input_digest,
  eq_iff a.output_digest a.output_digest,
  eq_iff a.action a.action,
)

-- The evidence in an accepted token: its parts, the signature over the second of them, and a payload
-- that is live and binds what the caller expects.
pub record Evidence (codec : Codec) (secret : List ℕ) (now : ℕ) (token : String)
    (expected : ReceiptBinding) : Type 0 where
  pub encoded : String
  pub signature : String
  pub payload : Payload
  pub parts : split_on b'.' token ≡ "v1" ∷ encoded ∷ signature ∷ []
  pub signed : decode codec signature ≡ some (codec.hmac_sha256 secret encoded)
  pub carried : read_payload codec encoded ≡ ok payload
  pub binds : payload.binding ≡ expected
  pub begun : payload.issued_at ≤ now
  pub live : now ≤ payload.expires_at

module _ (codec : Codec) (secret : List ℕ) (now : ℕ) (expected : ReceiptBinding)
    (version encoded signature : String) (b : ReceiptBinding) where
  verify_parts-signed :
      (supplied : List ℕ) (p : Payload)
      → decode codec signature ≡ some supplied
      → read_payload codec encoded ≡ ok p
      → verify_parts codec secret now version encoded signature expected ≡ ok b
      → (version ≡ "v1")
        × (supplied ≡ codec.hmac_sha256 secret encoded)
        × (p.binding ≡ expected)
        × (p.issued_at ≤ now)
        × (now ≤ p.expires_at)
        × (b ≡ expected)
  unfolding verify_parts
  verify_parts-signed supplied p d r h = ground (
    arith,
    d,
    r,
    h,
    eq_iff version "v1",
    same_bytes-eq supplied (codec.hmac_sha256 secret encoded),
    same_binding-eq p.binding expected,
  )

  verify_parts-decodes :
      verify_parts codec secret now version encoded signature expected ≡ ok b
      → ((supplied : List ℕ) × (decode codec signature ≡ some supplied))
        × ((p : Payload) × (read_payload codec encoded ≡ ok p))
  unfolding verify_parts
  verify_parts-decodes h = ground arith

module _ (codec : Codec) (secret : List ℕ) (now : ℕ) (token : String)
    (expected b : ReceiptBinding) where
  parts-Evidence :
      (parts : List String)
      → split_on b'.' token ≡ parts
      → verify codec secret now token expected ≡ ok b
      → Evidence codec secret now token expected × (b ≡ expected)
  unfolding verify
  parts-Evidence [] e h = absurd (cc (h, e))
  parts-Evidence (v ∷ []) e h = absurd (cc (h, e))
  parts-Evidence (v ∷ m ∷ []) e h = absurd (cc (h, e))
  parts-Evidence (v ∷ m ∷ s ∷ []) e h =
      let h' : verify_parts codec secret now v m s expected ≡ ok b = rw (e, verify) at h in
      let ((supplied, d), (p, r)) = verify_parts-decodes codec secret now expected v m s b h' in
      let (ve, se, be, begun, live, result) =
        verify_parts-signed codec secret now expected v m s b supplied p d r h' in
      (
        record {
          encoded = m;
          signature = s;
          payload = p;
          parts = rw (e, ve);
          signed = rw (← se) d;
          carried = r;
          binds = be;
          begun = begun;
          live = live;
        },
        result,
      )
  parts-Evidence (v ∷ m ∷ s ∷ x ∷ xs) e h = absurd (cc (h, e))

  -- Whatever `verify` accepts is its expected binding, and the token carries the evidence for it: three
  -- parts of version v1, the secret's HMAC over the second part, and in that part a payload with just
  -- this binding whose lifetime holds the present second.
  pub verify-Evidence :
      verify codec secret now token expected ≡ ok b
      → Evidence codec secret now token expected × (b ≡ expected)
  verify-Evidence h = parts-Evidence (split_on b'.' token) refl h

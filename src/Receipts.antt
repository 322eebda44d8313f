-- ===== src/Receipts.antt =====
-- Receipts that bind a gate's input to its output (media_bridge/receipts.py). HMAC, base64 and JSON are
-- the standard library's, and enter as the operations of `Codec`; the time of a call is a number of
-- whole seconds, which is what the code keeps of its clock.
pub mod Padding
pub mod Roundtrip
pub mod Accepted
use media_bridge.Base.{
  ℕ, String, Bool, true, false, not, Option, none, some, List, [], ◌∷◌, ◌+◌, ◌==◌, number_eq,
  string_eq, ltb, concat, codes, all, length, if◌then◌else◌, ◌&&◌, ◌||◌, Comparable,
}
use media_bridge.Base.{Result, ok, err, raise_if, or_raise, ◌>>=◌, ◌>>◌}
use media_bridge.Json.{Json, object, field, end, text, int, Fields, find}
use Padding.{unpad, repad, split_on}

pub record ReceiptBinding : Type 0 where
  pub target_id : String
  pub capability : String
  pub input_digest : String
  pub output_digest : String
  pub action : String

abbrev pub same_bytes : List ℕ → List ℕ → Bool
same_bytes [] [] = true
same_bytes (x ∷ xs) (y ∷ ys) = x == y && same_bytes xs ys
same_bytes _ _ = false

-- `==` of the dataclass.
unfoldable pub same_binding : ReceiptBinding → ReceiptBinding → Bool
same_binding a b =
    a.target_id == b.target_id
    && (a.capability == b.capability
        && (a.input_digest == b.input_digest
            && (a.output_digest == b.output_digest && a.action == b.action)))

-- The standard library's part. `str_of` and `int_of` are the builtins `str` and `int` on the JSON
-- values that no receipt of `sign` holds.
pub record Codec : Type 0 where
  pub hmac_sha256 : List ℕ → String → List ℕ
  pub urlsafe_b64encode : List ℕ → String
  pub urlsafe_b64decode : String → Option (List ℕ)
  pub dumps : Json → List ℕ
  pub loads : List ℕ → Option Json
  pub str_of : Json → String
  pub int_of : Json → Option ℕ

pub data ReceiptError : Type 0 where
  short_secret invalid_ttl malformed unsupported_version invalid_signature invalid_payload :
      ReceiptError
  expired mismatch encoding_error : ReceiptError

pub record Payload : Type 0 where
  pub binding : ReceiptBinding
  pub issued_at : ℕ
  pub expires_at : ℕ

-- The payload with its keys sorted, as `json.dumps` is asked to write it.
unfoldable pub payload_fields : Payload → Fields
payload_fields p = field "action" (text p.binding.action) (
    field "capability" (text p.binding.capability) (
      field "expires_at" (int p.expires_at) (
        field "input_digest" (text p.binding.input_digest) (
          field "issued_at" (int p.issued_at) (
            field "output_digest" (text p.binding.output_digest)
              (field "target_id" (text p.binding.target_id) end))))))

abbrev pub payload_json : Payload → Json
payload_json p = object (payload_fields p)

module _ (codec : Codec) where
  -- `_encode`
  unfoldable pub encode : List ℕ → String
  unfolding unpad
  encode bytes = unpad (codec.urlsafe_b64encode bytes)

  -- `_decode`
  unfoldable pub decode : String → Option (List ℕ)
  unfolding repad
  decode s = codec.urlsafe_b64decode (repad s)

  -- `GateReceiptSigner.__init__`, on the secret alone.
  unfoldable pub make_signer : List ℕ → Result ReceiptError (List ℕ)
  make_signer secret = if ltb (length secret) 32 then err short_secret else ok secret

  unfoldable pub signature_for : List ℕ → String → String
  signature_for secret encoded = encode (codec.hmac_sha256 secret encoded)

  -- `GateReceiptSigner.sign`
  unfoldable pub sign : List ℕ → ℕ → ReceiptBinding → ℕ → Result ReceiptError String
  sign secret now binding ttl = do
    raise_if (ltb ttl 1 || ltb 300 ttl) invalid_ttl
    let encoded = encode (
        codec.dumps
          (payload_json (record { binding = binding; issued_at = now; expires_at = now + ttl })))
    ok (concat "v1." (concat encoded (concat "." (signature_for secret encoded))))

  -- `str(payload[key])`; a missing key is a `KeyError`.
  unfoldable pub read_text : String → Fields → Option String
  read_text key fs = elim (find key fs) [
    | none ↦ none
    | some v ↦ elim v [ text s ↦ some s | other ↦ some (codec.str_of other) ]
  ]

  -- `int(payload[key])`
  unfoldable pub read_int : String → Fields → Option ℕ
  read_int key fs = elim (find key fs) [
    | none ↦ none
    | some v ↦ elim v [ int n ↦ some n | other ↦ codec.int_of other ]
  ]

  unfoldable pub read_fields : Fields → Result ReceiptError Payload
  unfolding read_text read_int
  read_fields fs = do
    target_id ← or_raise (read_text "target_id" fs) invalid_payload
    capability ← or_raise (read_text "capability" fs) invalid_payload
    input_digest ← or_raise (read_text "input_digest" fs) invalid_payload
    output_digest ← or_raise (read_text "output_digest" fs) invalid_payload
    action ← or_raise (read_text "action" fs) invalid_payload
    issued_at ← or_raise (read_int "issued_at" fs) invalid_payload
    expires_at ← or_raise (read_int "expires_at" fs) invalid_payload
    ok (record {
      binding = record {
        target_id = target_id;
        capability = capability;
        input_digest = input_digest;
        output_digest = output_digest;
        action = action;
      };
      issued_at = issued_at;
      expires_at = expires_at;
    })

  -- The `try` block that reads the signed payload.
  unfoldable pub read_payload : String → Result ReceiptError Payload
  read_payload encoded = do
    bytes ← or_raise (decode encoded) invalid_payload
    value ← or_raise (codec.loads bytes) invalid_payload
    elim value [ object fs ↦ read_fields fs | _ ↦ err invalid_payload ]

  unfoldable pub is_ascii : String → Bool
  is_ascii s = all (λ c. ltb c 128) (codes s)

  -- `verify` once the token has been split in three.
  unfoldable pub verify_parts :
      List ℕ → ℕ → String → String → String → ReceiptBinding → Result ReceiptError ReceiptBinding
  verify_parts secret now version encoded signature expected = do
    supplied ← or_raise (decode signature) malformed
    raise_if (not (version == "v1")) unsupported_version
    raise_if (not (is_ascii encoded)) encoding_error
    raise_if (not (same_bytes supplied (codec.hmac_sha256 secret encoded))) invalid_signature
    payload ← read_payload encoded
    raise_if (ltb now payload.issued_at || ltb payload.expires_at now) expired
    raise_if (not (same_binding payload.binding expected)) mismatch
    ok payload.binding

  -- `GateReceiptSigner.verify`
  unfoldable pub verify : List ℕ → ℕ → String → ReceiptBinding → Result ReceiptError ReceiptBinding
  verify secret now token expected = elim (split_on b'.' token) [
    | version ∷ encoded ∷ signature ∷ [] ↦
        verify_parts secret now version encoded signature expected
    | _ ↦ err malformed
  ]

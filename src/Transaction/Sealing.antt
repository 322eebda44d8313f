-- ===== src/Transaction/Sealing.antt =====
-- What the sealing of a request has seen to, and what its payload is.
use media_bridge.Base.{
  String, false, not, ◌&&◌, Option, none, some, List, ◌≡◌, refl, sym, ap, ◌∙◌, ◌⊎◌, inl, inr, arith,
  is_some, string_eq, Bool-cases,
}
use mathlib.Core.Path.{subst}
use media_bridge.Base.{Result, ok, err, >>=-eq-ok, or_raise, raise_as, or_raise-ok}
use media_bridge.Json.{Json, text, object}
use media_bridge.Json.{Fields, find, remove}
use media_bridge.Json.Laws.{find-insert, find-remove}
use media_bridge.Contracts.{ContentPart}
use media_bridge.Receipts.{verify, sign, ReceiptError}
use media_bridge.Receipts.Accepted.{Evidence, verify-Evidence}
use media_bridge.Gate.{DownstreamPayload, binding_of, receipt_ttl}
use media_bridge.State.Gateway.{GatewayStateRecord}
use media_bridge.Responses.Normalize.{NormalizedRequest}
use media_bridge.Transaction.Contracts.{SealedGatewayRequest, sealed_binding}
use media_bridge.Transaction.Payload.{
  sealing_failed, rebuilt_input, unchanged_payload, replaced_payload, build_downstream_payload,
}
use media_bridge.Transaction.Seal.{Gateway, Moment, seal, nonced, outer_binding, sealed_request}

-- The input of the provider: as it came where there is no media and no prior state, and else built of the
-- parts that the gate prepared.
abbrev pub Input : Fields → NormalizedRequest → List ContentPart → Fields → Type 0
Input raw n parts payload =
    ((n.input_had_media ≡ false)
      × (n.previous_state ≡ none)
      × (find "input" payload ≡ find "input" raw))
    ⊎ ((input : Json) × (rebuilt_input parts ≡ ok input) × (find "input" payload ≡ some input))

-- The fields of a payload that name the target and the conversation.
abbrev pub Addressed : Fields → String → Type 0
Addressed payload target =
    (find "model" payload ≡ some (text target))
    × (find "previous_response_id" payload ≡ none)
    × (find "conversation" payload ≡ none)

unchanged_payload-Addressed :
    (raw : Fields) (target : String) → Addressed (unchanged_payload raw target) target
unfolding unchanged_payload
unchanged_payload-Addressed raw target = (
  rw
      (find-insert "model" "model" (text target)
        (remove "conversation" (remove "previous_response_id" raw)))
      refl,
  simp (find-insert, find-remove),
  simp (find-insert, find-remove),
)

replaced_payload-Addressed :
    (raw : Fields) (target : String) (input : Json)
    → Addressed (replaced_payload raw target input) target
unfolding replaced_payload
replaced_payload-Addressed raw target input =
    (simp (find-insert), simp (find-insert, find-remove), simp (find-insert, find-remove))

unchanged_payload-input :
    (raw : Fields) (target : String)
    → find "input" (unchanged_payload raw target) ≡ find "input" raw
unfolding unchanged_payload
unchanged_payload-input raw target = simp (find-insert, find-remove)

replaced_payload-input :
    (raw : Fields) (target : String) (input : Json)
    → find "input" (replaced_payload raw target input) ≡ some input
unfolding replaced_payload
replaced_payload-input raw target input = simp (find-insert)

is_some-none : (s : Option GatewayStateRecord) → is_some s ≡ false → s ≡ none
is_some-none none h = refl
is_some-none (some s) h = absurd (cc h)

build_downstream_payload-parts :
    (raw : Fields) (n : NormalizedRequest) (p : DownstreamPayload) (payload : Fields)
    → build_downstream_payload raw n p ≡ ok payload
    → Addressed payload p.target_id × Input raw n p.content payload
unfolding build_downstream_payload
build_downstream_payload-parts raw n p payload h =
    elim (Bool-cases (not n.input_had_media && not (is_some n.previous_state))) [
      | inl fresh ↦
          let same : unchanged_payload raw p.target_id ≡ payload =
            ground (arith, (rw fresh at h)) in
          (
            subst (λ q. Addressed q p.target_id) same (unchanged_payload-Addressed raw p.target_id),
            inl (
              ground (arith, fresh),
              is_some-none n.previous_state (ground (arith, fresh)),
              ap (find "input") (sym same) ∙ unchanged_payload-input raw p.target_id,
            ),
          )
      | inr rebuilt ↦
          let (input, built, last) =
            >>=-eq-ok (rebuilt_input p.content) (λ i. ok (replaced_payload raw p.target_id i))
              (rw rebuilt at h) in
          let same : replaced_payload raw p.target_id input ≡ payload = ground (arith, last) in
          (
            subst (λ q. Addressed q p.target_id) same
                (replaced_payload-Addressed raw p.target_id input),
            inr (
              input,
              built,
              ap (find "input") (sym same) ∙ replaced_payload-input raw p.target_id input,
            ),
          )
    ]

module _ (t : Gateway) (m : Moment) where
  -- What sealing has seen to.
  pub record IsSealed (raw : Fields) (n : NormalizedRequest) (p : DownstreamPayload)
      (q : SealedGatewayRequest) : Type 0 where
    pub evidence : Evidence t.gate.codec t.signer_secret m.verified_at p.receipt (binding_of p)
    pub target : q.target_id ≡ p.target_id
    pub addressed : Addressed q.payload p.target_id
    pub input : Input raw n p.content q.payload
    pub input_digest : t.digest (object raw) ≡ some q.input_digest
    pub output_digest : t.digest (nonced t m raw n p q.payload) ≡ some q.output_digest
    pub signed :
        sign t.gate.codec t.signer_secret m.sealed_at (sealed_binding q) receipt_ttl ≡ ok q.receipt

  raise_as-ok :
      {A : Type 0} (r : Result ReceiptError A) (a : A) → raise_as r sealing_failed ≡ ok a → r ≡ ok a
  raise_as-ok (ok b) a h = ground (arith, h)
  raise_as-ok (err e) a h = absurd (cc h)

  pub seal-IsSealed :
      (raw : Fields) (n : NormalizedRequest) (p : DownstreamPayload) (q : SealedGatewayRequest)
      → seal t m raw n p ≡ ok q
      → IsSealed raw n p q
  unfolding seal sealed_binding
  seal-IsSealed raw n p q h =
      let checked = verify t.gate.codec t.signer_secret m.verified_at p.receipt (binding_of p) in
      let (b, verified, h1) = >>=-eq-ok (raise_as checked sealing_failed) _ h in
      let (payload, built, h2) = >>=-eq-ok (build_downstream_payload raw n p) _ h1 in
      let (given, digested, h3) =
        >>=-eq-ok (or_raise (t.digest (object raw)) sealing_failed) _ h2 in
      let (made, digested', h4) =
        >>=-eq-ok (or_raise (t.digest (nonced t m raw n p payload)) sealing_failed) _ h3 in
      let signature =
        sign t.gate.codec t.signer_secret m.sealed_at (outer_binding t m raw n p given made)
          receipt_ttl in
      let (receipt, signed, h5) = >>=-eq-ok (raise_as signature sealing_failed) _ h4 in
      let (addressed, input) = build_downstream_payload-parts raw n p payload built in
      let known : IsSealed raw n p (sealed_request t m raw n p payload given made receipt) =
        record {
          evidence =
              (verify-Evidence t.gate.codec t.signer_secret m.verified_at p.receipt (binding_of p) b
                (raise_as-ok checked b verified)).0;
          target = refl;
          addressed = addressed;
          input = input;
          input_digest = or_raise-ok (t.digest (object raw)) sealing_failed given digested;
          output_digest =
              or_raise-ok (t.digest (nonced t m raw n p payload)) sealing_failed made digested';
          signed = raise_as-ok signature receipt signed;
        } in
      let same : sealed_request t m raw n p payload given made receipt ≡ q = ground (arith, h5) in
      subst (IsSealed raw n p) same known

-- ===== src/Interop/External.antt =====
-- What a provider is sent of a result.
use media_bridge.Base.{
  String, true, false, not, List, [], ◌∷◌, none, ◌≡◌, arith, any, ◌==◌, string_eq, eq_iff,
  if◌then◌else◌, Bool-cases, inl, inr,
}
use mathlib.Core.Path.{subst}
use media_bridge.Base.{ok, >>=-eq-ok, raise_if, raise_if-ok}
use media_bridge.Json.{Fields, end, field, find, has_key}
use media_bridge.Interop.{InteropResult, provider_call_allowed}
use media_bridge.Interop.Wire.{
  original_media, not_authorized, media_keys, is_internal, external_fields, external_messages,
  build_external_provider_messages,
}

pub find-external_fields :
    (key : String) (fs : Fields)
    → find key (external_fields fs) ≡ (if is_internal key then none else find key fs)
unfolding find external_fields
find-external_fields key end = ground arith
find-external_fields key (field j v fs) = elim (Bool-cases (j == key)) [
  | inl same ↦
      let e = (eq_iff j key).0 same in
      rw same (rw e (ground (arith, eq_iff key key, find-external_fields key fs)))
  | inr other ↦ rw other (ground (arith, other, find-external_fields key fs))
]

-- A message without the fields that stay inside, which located no media by a field of its own.
abbrev pub External : Fields → Fields → Type 0
External sent message =
    (any (λ key. has_key key message) media_keys ≡ false)
    × ((key : String) → find key sent ≡ (if is_internal key then none else find key message))

-- One message for each, in their order.
abbrev pub AllExternal : List Fields → List Fields → Type 0
AllExternal [] [] = Unit
AllExternal (sent ∷ rest) (message ∷ messages) = External sent message × AllExternal rest messages
AllExternal _ _ = ⊥

external_messages-AllExternal :
    (messages sent : List Fields) → external_messages messages ≡ ok sent → AllExternal sent messages
unfolding external_messages
external_messages-AllExternal [] sent h =
    let same : [] ≡ sent = ground (arith, h) in subst (λ s. AllExternal s []) same tt
external_messages-AllExternal (message ∷ messages) sent h =
    let found = any (λ key. has_key key message) media_keys in
    let (u, clean, h1) = >>=-eq-ok (raise_if found original_media) _ h in
    let (rest, made, last) = >>=-eq-ok (external_messages messages) _ h1 in
    let same : external_fields message ∷ rest ≡ sent = ground (arith, last) in
    subst (λ s. AllExternal s (message ∷ messages)) same
      (
        (raise_if-ok found original_media u clean, λ key. find-external_fields key message),
        external_messages-AllExternal messages rest made,
      )

-- Messages are built for a provider only from a result that allows the call: one for each of its
-- messages, in their order, none of which has a field of media, with the same fields but those that stay
-- inside the gateway.
pub build_external_provider_messages-AllExternal :
    (r : InteropResult) (sent : List Fields)
    → build_external_provider_messages r ≡ ok sent
    → (provider_call_allowed r ≡ true) × AllExternal sent r.sanitized_messages
unfolding build_external_provider_messages
build_external_provider_messages-AllExternal r sent h =
    let (u, allowed, h1) =
      >>=-eq-ok (raise_if (not (provider_call_allowed r)) not_authorized) _ h in
    (
      ground (arith, raise_if-ok (not (provider_call_allowed r)) not_authorized u allowed),
      external_messages-AllExternal r.sanitized_messages sent h1,
    )

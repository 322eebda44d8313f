-- ===== src/Capability/Resolve.antt =====
-- What a resolution says of the registry, and of the list that model discovery publishes.
use media_bridge.Base.{
  ℕ, String, Bool, true, false, not, Option, none, some, List, [], ◌∷◌, ◌≡◌, refl, ◌⊎◌, inl, inr,
  arith, eq_iff, ◌==◌, contains, string_eq, map, keep, distinct, ok, Bool-cases,
}
use media_bridge.Capability.{
  CapabilityState, vision, non_vision, unknown, stale, ModelCapability, CapabilityRegistry,
  is_stale, find_capability, classify, resolve, available, make_registry,
}
use media_bridge.Capability.Modalities.{has_media}

-- A model is served when it resolves to an active capability.
abbrev pub is_active : CapabilityState → Bool
is_active vision = true
is_active non_vision = true
is_active unknown = false
is_active stale = false

abbrev pub ids : List ModelCapability → List String
ids = map (λ c. c.model_id)

-- The entry is one of the list.
abbrev pub Listed : ModelCapability → List ModelCapability → Type 0
Listed c [] = ⊥
Listed c (x ∷ cs) = (x ≡ c) ⊎ Listed c cs

-- An entry of the registry with this identifier.
abbrev pub IsEntry : List ModelCapability → String → ModelCapability → Type 0
IsEntry cs id c = Listed c cs × (c.model_id ≡ id)

-- What the state of a resolution says of the entry behind it, in a registry of these entries.
abbrev pub Describes :
    List ModelCapability → String → ℕ → CapabilityState → Option ModelCapability → Type 0
Describes cs id now unknown found = (found ≡ none) × (contains id (ids cs) ≡ false)
Describes cs id now stale found =
    (c : ModelCapability) × (found ≡ some c) × IsEntry cs id c × (is_stale c now ≡ true)
Describes cs id now vision found =
    (c : ModelCapability) × (found ≡ some c)
    × IsEntry cs id c
    × (is_stale c now ≡ false)
    × (has_media c.input_modalities ≡ true)
Describes cs id now non_vision found =
    (c : ModelCapability) × (found ≡ some c)
    × IsEntry cs id c
    × (is_stale c now ≡ false)
    × (has_media c.input_modalities ≡ false)

find_capability-IsEntry :
    (id : String) (cs : List ModelCapability) (c : ModelCapability)
    → find_capability id cs ≡ some c
    → IsEntry cs id c
unfolding find_capability
find_capability-IsEntry id [] c h = absurd (cc h)
find_capability-IsEntry id (x ∷ cs) c h = elim (Bool-cases (x.model_id == id)) [
  | inl here ↦
      let same : x ≡ c = ground (arith, (rw here at h)) in
      (inl same, ground (arith, same, (eq_iff x.model_id id).0 here))
  | inr other ↦
      let (listed, named) = find_capability-IsEntry id cs c (rw other at h) in (inr listed, named)
]

find_capability-missing :
    (id : String) (cs : List ModelCapability)
    → find_capability id cs ≡ none
    → contains id (ids cs) ≡ false
unfolding find_capability
find_capability-missing id [] h = refl
find_capability-missing id (c ∷ cs) h =
    ground (arith, eq_iff id c.model_id, eq_iff c.model_id id, find_capability-missing id cs)

classify-Describes :
    (cs : List ModelCapability) (id : String) (now : ℕ) (found : Option ModelCapability)
    → find_capability id cs ≡ found
    → Describes cs id now (classify found now).state (classify found now).capability
unfolding classify
classify-Describes cs id now none h = (refl, find_capability-missing id cs h)
classify-Describes cs id now (some c) h =
    let entry = find_capability-IsEntry id cs c h in
    elim (Bool-cases (is_stale c now)) [
      | inl old ↦ rw old (c, refl, entry, old)
      | inr live ↦ elim (Bool-cases (has_media c.input_modalities)) [
        | inl media ↦ rw (live, media) (c, refl, entry, live, media)
        | inr plain ↦ rw (live, plain) (c, refl, entry, live, plain)
      ]
    ]

-- Every resolution names an entry of the registry with exactly the requested identifier, in the state
-- that the entry's expiry and its modalities give, or is unknown and names none: then no entry of the
-- registry has this identifier.
pub resolve-Describes :
    (r : CapabilityRegistry) (id : String) (now : ℕ)
    → Describes r.capabilities id now (resolve r id now).state (resolve r id now).capability
unfolding resolve
resolve-Describes r id now =
    classify-Describes r.capabilities id now (find_capability id r.capabilities) refl

find_capability-absent :
    (id : String) (cs : List ModelCapability)
    → contains id (ids cs) ≡ false
    → find_capability id cs ≡ none
unfolding find_capability
find_capability-absent id [] h = refl
find_capability-absent id (c ∷ cs) h =
    ground (arith, eq_iff id c.model_id, eq_iff c.model_id id, find_capability-absent id cs)

available-absent :
    (id : String) (now : ℕ) (cs : List ModelCapability)
    → contains id (ids cs) ≡ false
    → contains id (ids (keep (λ c. not (is_stale c now)) cs)) ≡ false
available-absent id now [] h = refl
available-absent id now (c ∷ cs) h = ground (arith, available-absent id now cs)

active_iff_available :
    (id : String) (now : ℕ) (cs : List ModelCapability)
    → distinct (ids cs) ≡ true
    → is_active (classify (find_capability id cs) now).state
      ≡ contains id (ids (keep (λ c. not (is_stale c now)) cs))
unfolding find_capability classify
active_iff_available id now [] h = refl
active_iff_available id now (c ∷ cs) h = ground (
  arith,
  eq_iff id c.model_id,
  eq_iff c.model_id id,
  active_iff_available id now cs,
  available-absent id now cs,
)

-- What the constructor accepts.
make_registry-eq-ok :
    (cs : List ModelCapability) (version : String) (r : CapabilityRegistry)
    → make_registry cs version ≡ ok r
    → (r.capabilities ≡ cs) × (distinct (ids cs) ≡ true)
unfolding make_registry
make_registry-eq-ok cs version r h = ground arith

-- In a registry that its constructor accepted, a model resolves to an active capability exactly when
-- its identifier is among those of the capabilities that discovery lists at the same instant.
pub resolve-available :
    (cs : List ModelCapability) (version : String) (r : CapabilityRegistry) (id : String) (now : ℕ)
    → make_registry cs version ≡ ok r
    → is_active (resolve r id now).state ≡ contains id (ids (available r now))
unfolding resolve available
resolve-available cs version r id now h =
    let (same, unique) = make_registry-eq-ok cs version r h in
    rw same (active_iff_available id now cs unique)

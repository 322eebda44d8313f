-- ===== src/Gate/Decision.antt =====
-- Rules for the results of the gate's calls, and the parts of a decision.
use media_bridge.Base.{false, List, [], ◌∷◌, ◌≡◌, refl, arith, ltb, any}
use media_bridge.Base.{Result, ok, err}
use media_bridge.Contracts.{ContentPart, text_part, media_part}
use media_bridge.Capability.{is_media, detect_media}
use media_bridge.Gate.Effects.{Call, History, Raised, ◌>>=◌}

-- What a call that returns must satisfy; a call that raises satisfies all.
abbrev pub Post : {A : Type 0} → (A → Type 0) → Result Raised A → Type 0
Post P (ok a) = P a
Post P (err e) = Unit

abbrev pub Ensures : {A : Type 0} → (A → Type 0) → Call A → Type 0
Ensures P m = (h : History) → Post P (m h).0

pub Ensures-bind :
    {A B : Type 0} (P : B → Type 0) (m : Call A) (f : A → Call B)
    → ((a : A) → Ensures P (f a))
    → Ensures P (m >>= f)
Ensures-bind {A} {B} P m f k h = go (m h)
  where
    go :
        (p : Result Raised A × History)
        → Post P (let (r, h') = p in (λ (g : Call A). g >>= f) (λ _. (r, h')) h).0
    go (ok a, h') = k a h'
    go (err e, h') = tt

pub media_count-zero :
    (parts : List ContentPart)
    → ltb 0 (detect_media parts).media_count ≡ false
    → any is_media parts ≡ false
unfolding detect_media is_media
media_count-zero [] h = refl
media_count-zero (text_part s ∷ parts) h = media_count-zero parts h
media_count-zero (media_part p ∷ parts) h = ground arith

pub media_count_of_none :
    (parts : List ContentPart)
    → any is_media parts ≡ false
    → ltb 0 (detect_media parts).media_count ≡ false
unfolding detect_media is_media
media_count_of_none [] h = refl
media_count_of_none (text_part s ∷ parts) h = media_count_of_none parts h
media_count_of_none (media_part p ∷ parts) h = cc

-- ===== src/ChatStream/Shapes.antt =====
-- The shapes of what a stream of chunks has yielded (media_bridge/openai_chat.py).
use media_bridge.Base.{
  String, Bool, true, false, Option, none, some, List, [], ◌∷◌, ◌++◌, map, ◌≡◌, refl, sym, ap, ◌⊎◌,
  inl, inr, if◌then◌else◌,
}
use mathlib.Core.Path.{subst}
use media_bridge.Base.{Result, ok, err, ◌>>=◌}
use media_bridge.ChatStream.{
  Emission, role, content, stop, done, Ending, completed, upstream_done, StreamError, StreamState,
  if_ended,
}

-- A stream that is still open: nothing, or the role and pieces of the text.
abbrev pub OpenShape : Bool → List Emission → Type 0
OpenShape false out = out ≡ []
OpenShape true out = (texts : List String) × (out ≡ role ∷ map content texts)

abbrev pub Full : List Emission → Type 0
Full out = (texts : List String) × (out ≡ (role ∷ map content texts) ++ stop ∷ done ∷ [])

-- What was yielded, by what ended the stream.
abbrev pub Shaped : Option Ending → Bool → List Emission → Type 0
Shaped none emitted out = OpenShape emitted out
Shaped (some upstream_done) emitted out = OpenShape emitted out
Shaped (some completed) emitted out = Full out

abbrev pub IsShaped : StreamState → Type 0
IsShaped s = Shaped s.ending s.emitted_role s.out

pub map-snoc :
    (texts : List String) (t : String)
    → map content texts ++ content t ∷ [] ≡ map content (texts ++ t ∷ [])
map-snoc [] t = refl
map-snoc (x ∷ xs) t = ap (λ es. content x ∷ es) (map-snoc xs t)

pub append_twice :
    (xs : List Emission) (a b : Emission) → (xs ++ a ∷ []) ++ b ∷ [] ≡ xs ++ a ∷ b ∷ []
append_twice [] a b = refl
append_twice (x ∷ xs) a b = ap (λ es. x ∷ es) (append_twice xs a b)

abbrev pub Opened : StreamState → StreamState → Type 0
Opened s s' =
    (s'.emitted_role ≡ true)
    × (s'.ending ≡ s.ending)
    × (s'.buffer ≡ s.buffer)
    × OpenShape true s'.out

-- A stream that is still read.
abbrev pub IsOpen : StreamState → Type 0
IsOpen s = (s.ending ≡ none) × OpenShape s.emitted_role s.out

pub of-IsOpen : (s : StreamState) → IsOpen s → IsShaped s
of-IsOpen s (e, h) = subst (λ e. Shaped e s.emitted_role s.out) (sym e) h

pub to-IsOpen : (s : StreamState) → s.ending ≡ none → IsShaped s → IsOpen s
to-IsOpen s e h = (e, subst (λ e. Shaped e s.emitted_role s.out) e h)

pub if-either :
    {A : Type 0} (P : A → Type 0) (b : Bool) (x y : A) → P x → P y → P (if b then x else y)
if-either P true x y h k = h
if-either P false x y h k = k

pub if_ended-either :
    {A : Type 0} (P : A → Type 0) (o : Option Ending) (x y : A)
    → (o ≡ none → P y)
    → P x
    → P (if_ended o x y)
unfolding if_ended
if_ended-either P (some e) x y h k = k
if_ended-either P none x y h k = h refl

-- What a client that reads to the end has: all of it, unless the provider sent its own last line.
abbrev pub Ends : StreamState → Type 0
Ends s = ((s.ending ≡ some upstream_done) × OpenShape s.emitted_role s.out) ⊎ Full s.out

pub finish_ended :
    (e : Ending) (s : StreamState)
    → s.ending ≡ some e
    → Shaped (some e) s.emitted_role s.out
    → Ends s
finish_ended completed s over h = inr h
finish_ended upstream_done s over h = inl (over, h)

pub bind_ok : (m : Result StreamError StreamState) → (m >>= ok) ≡ m
bind_ok (ok s) = refl
bind_ok (err e) = refl

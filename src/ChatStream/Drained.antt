-- ===== src/ChatStream/Drained.antt =====
-- The inner loop of the stream reads every event of its buffer: the fuel is enough
-- (media_bridge/openai_chat.py).
use media_bridge.Base.{
  ℕ, zero, suc, ◌<◌, String, Bool, true, false, none, some, List, [], ◌∷◌, ◌≡◌, refl, ◌∙◌, arith,
  concat, text_length, ◌==◌, string_eq, if◌then◌else◌, Option-cases, Bool-cases, inl, inr, join,
}
use mathlib.Core.Path.{subst}
use media_bridge.Base.{Result, ok, err, ◌>>=◌, >>=-eq-ok}
use media_bridge.Json.{Json, null, bool, int, number, text, array, object}
use media_bridge.Json.{get}
use media_bridge.ChatStream.Shapes.{if-either}
use media_bridge.ChatStream.{
  Emission, role, content, stop, StreamError, LoadError, not_json, load_failed, Reader, StreamState,
  chunk_body, split_event, yields, role_if, yield_role, handle_delta, yield_done, yield_end,
  complete_stream, is_type, handle_body, handle_data, data_lines, handle_lines, handle_event, drain,
  feed, if_ended,
}

-- The rest behind an event is shorter by the two characters that end it.
split_event-lt :
    (s event rest : String) → split_event s ≡ some (event, rest) → text_length rest < text_length s
unfolding split_event
split_event-lt String.[] event rest h = absurd (cc h)
split_event-lt (String.◌∷◌ a String.[]) event rest h = absurd (cc h)
split_event-lt (String.◌∷◌ a (String.◌∷◌ b s)) event rest h =
    elim (Bool-cases (String.◌∷◌ a (String.◌∷◌ b "") == "\n\n")) [
      | inl here ↦ let same : s ≡ rest = ground (arith, (rw here at h)) in rw (← same) (omega arith)
      | inr later ↦ elim (Option-cases (split_event (String.◌∷◌ b s))) [
        | inl missing ↦ absurd (ground (arith, later, missing, h))
        | inr ((event', rest'), found) ↦
            let same : rest' ≡ rest = ground (arith, later, found, h) in
            rw (← same) (omega (arith, split_event-lt (String.◌∷◌ b s) event' rest' found))
      ]
    ]

-- A call keeps the buffer.
abbrev SameBuffer : StreamState → Result StreamError StreamState → Type 0
SameBuffer s (ok s') = s'.buffer ≡ s.buffer
SameBuffer s (err e) = Unit

SameBuffer-bind :
    (s : StreamState) (m : Result StreamError StreamState)
    (f : StreamState → Result StreamError StreamState)
    → SameBuffer s m
    → ((s' : StreamState) → SameBuffer s' (f s'))
    → SameBuffer s (m >>= f)
SameBuffer-bind s (err e) f h k = tt
SameBuffer-bind s (ok s') f h k = after (f s') (k s')
  where
    after : (r : Result StreamError StreamState) → SameBuffer s' r → SameBuffer s r
    after (ok s'') e = e ∙ h
    after (err e) _ = tt

module _ (r : Reader) (response_id model : String) where
  yields-SameBuffer :
      (e : Emission) (s : StreamState) → SameBuffer s (yields r response_id model e s)
  unfolding yields
  yields-SameBuffer e s =
      elim (Option-cases (r.encode (chunk_body (r.clock s.out) response_id model e))) [
        | inl missing ↦ rw missing tt
        | inr (line, written) ↦ rw written refl
      ]

  role_if-SameBuffer :
      (again : Bool) (s : StreamState) → SameBuffer s (role_if r response_id model again s)
  unfolding role_if
  role_if-SameBuffer true s = refl
  role_if-SameBuffer false s = yields-SameBuffer role (record s { emitted_role = true })

  yield_role-SameBuffer : (s : StreamState) → SameBuffer s (yield_role r response_id model s)
  unfolding yield_role
  yield_role-SameBuffer s = role_if-SameBuffer s.emitted_role s

  handle_delta-SameBuffer :
      (delta : Json) (s : StreamState) → SameBuffer s (handle_delta r response_id model delta s)
  unfolding handle_delta
  handle_delta-SameBuffer (text t) s =
      SameBuffer-bind s (yield_role r response_id model s) (yields r response_id model (content t))
        (yield_role-SameBuffer s) (yields-SameBuffer (content t))
  handle_delta-SameBuffer null s = refl
  handle_delta-SameBuffer (bool b) s = refl
  handle_delta-SameBuffer (int n) s = refl
  handle_delta-SameBuffer (number n) s = refl
  handle_delta-SameBuffer (array xs) s = refl
  handle_delta-SameBuffer (object fs) s = refl

  complete_stream-SameBuffer :
      (s : StreamState) → SameBuffer s (complete_stream r response_id model s)
  unfolding complete_stream yield_end
  complete_stream-SameBuffer s =
      SameBuffer-bind s (yield_end r response_id model s) _
        (SameBuffer-bind s (yield_role r response_id model s) _ (yield_role-SameBuffer s) (λ s'.
          SameBuffer-bind s' (yields r response_id model stop s') (λ s''. ok (yield_done s''))
            (yields-SameBuffer stop s') (λ s''. refl)))
        (λ s'. refl)

  handle_body-SameBuffer :
      (body : Result LoadError Json) (s : StreamState)
      → SameBuffer s (handle_body r response_id model body s)
  unfolding handle_body
  handle_body-SameBuffer (err not_json) s = refl
  handle_body-SameBuffer (err load_failed) s = tt
  handle_body-SameBuffer (ok null) s = refl
  handle_body-SameBuffer (ok (bool b)) s = refl
  handle_body-SameBuffer (ok (int n)) s = refl
  handle_body-SameBuffer (ok (number n)) s = refl
  handle_body-SameBuffer (ok (text t)) s = refl
  handle_body-SameBuffer (ok (array xs)) s = refl
  handle_body-SameBuffer (ok (object body)) s =
      if-either (SameBuffer s) (is_type "response.output_text.delta" (get "type" body))
        (handle_delta r response_id model (get "delta" body) s)
        (if is_type "response.completed" (get "type" body)
          then complete_stream r response_id model s
          else ok s)
        (handle_delta-SameBuffer (get "delta" body) s)
        (if-either (SameBuffer s) (is_type "response.completed" (get "type" body))
          (complete_stream r response_id model s) (ok s) (complete_stream-SameBuffer s) refl)

  handle_event-SameBuffer :
      (event : String) (s : StreamState) → SameBuffer s (handle_event r response_id model event s)
  unfolding handle_event handle_lines handle_data
  handle_event-SameBuffer event s = lines (data_lines r response_id model event)
    where
      lines : (ls : List String) → SameBuffer s (handle_lines r response_id model ls s)
      lines [] = refl
      lines (l ∷ ls) =
          if-either (SameBuffer s) (join "\n" (l ∷ ls) == "[DONE]") _
            (handle_body r response_id model (r.loads (join "\n" (l ∷ ls))) s) refl
            (handle_body-SameBuffer (r.loads (join "\n" (l ∷ ls))) s)

  drain-split_event :
      (fuel : ℕ) (s s' : StreamState)
      → text_length s.buffer < suc fuel
      → drain r response_id model fuel s ≡ ok s'
      → s'.ending ≡ none
      → split_event s'.buffer ≡ none
  unfolding drain if_ended
  drain-split_event zero s s' short h open_end =
      let same : s ≡ s' = ground (arith, h) in
      subst (λ x. split_event x.buffer ≡ none) same
        (elim (Option-cases (split_event s.buffer)) [
          | inl whole ↦ whole
          | inr ((event, rest), found) ↦
              absurd (omega (arith, split_event-lt s.buffer event rest found))
        ])
  drain-split_event (suc fuel) s s' short h open_end = elim (Option-cases (split_event s.buffer)) [
    | inl whole ↦
        let same : s ≡ s' = ground (arith, (rw (whole, drain) at h)) in
        subst (λ x. split_event x.buffer ≡ none) same whole
    | inr ((event, rest), found) ↦
        let behind : StreamState = record s { buffer = rest } in
        let (next, handled, last) =
          >>=-eq-ok (handle_event r response_id model event behind) _ (rw (found, drain) at h) in
        let kept : next.buffer ≡ rest =
          subst (SameBuffer behind) handled (handle_event-SameBuffer event behind) in
        let shorter = split_event-lt s.buffer event rest found in
        elim (Option-cases next.ending) [
          | inl more ↦
              drain-split_event fuel next s' (rw kept (omega (arith, shorter))) (rw more at last)
                open_end
          | inr (e, over) ↦ absurd (ground (arith, over, last, open_end))
        ]
  ]

  -- Behind the inner loop no event is left in the buffer, unless the stream has come to its end.
  pub feed-IsDrained :
      (s' : String) (s next : StreamState)
      → feed r response_id model s' s ≡ ok next
      → next.ending ≡ none
      → split_event next.buffer ≡ none
  unfolding feed
  feed-IsDrained s' s next =
      let filled = record s { buffer = concat s.buffer s' } in
      drain-split_event (text_length filled.buffer) filled next (omega arith)

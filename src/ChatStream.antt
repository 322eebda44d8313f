-- ===== src/ChatStream.antt =====
-- The stream of a Responses answer, as a stream of chat completion chunks
-- (`chat_stream_from_responses` of media_bridge/openai_chat.py).
pub mod Shapes
pub mod Drained
pub mod Ends
use Prim.Native.Char.{code}
use media_bridge.Base.{
  ℕ, zero, suc, String, Bool, true, false, not, Option, none, some, List, [], ◌∷◌, ◌++◌, map, keep,
  is_some, starts_with, strip, join, concat, text_length, ◌==◌, number_eq, string_eq, if◌then◌else◌,
}
use media_bridge.Base.{Result, ok, err, ◌>>=◌, or_raise}
use media_bridge.Json.{Json, null, int, text, array, object, Items, nil, cons}
use media_bridge.Json.{Fields, end, field, get}

-- What is yielded: the chunk with the role, one with a piece of the text, the one that stops, and the
-- last line.
pub data Emission : Type 0 where
  role : Emission
  content : String → Emission
  stop done : Emission

-- What ended the loop: the completed response, or the provider's own last line.
pub data Ending : Type 0 where
  completed upstream_done : Ending

-- What leaves the stream: a `UnicodeDecodeError` of a chunk, what `json.loads` raises other than a
-- `JSONDecodeError`, such as a `RecursionError`, and a `UnicodeEncodeError` of what is yielded.
pub data StreamError : Type 0 where
  decode_error load_error encode_error : StreamError

-- A `JSONDecodeError`, and every other exception of `json.loads`.
pub data LoadError : Type 0 where
  not_json load_failed : LoadError

-- The standard library's part: strict UTF-8, `str.splitlines`, the text from its sixth character on,
-- `json.loads`, `json.dumps` with the encoding of its text, and the clock, by what was yielded before.
pub record Reader : Type 0 where
  pub decode : List ℕ → Option String
  pub splitlines : String → List String
  pub after_five : String → String
  pub loads : String → Result LoadError Json
  pub encode : Json → Option (List ℕ)
  pub clock : List Emission → ℕ

-- The local variables, with what set `finished`, and what was yielded so far.
pub record StreamState : Type 0 where
  pub emitted_role : Bool
  pub buffer : String
  pub ending : Option Ending
  pub out : List Emission

abbrev delta_of : Emission → Fields
delta_of role = field "role" (text "assistant") (field "content" (text "") end)
delta_of (content s) = field "content" (text s) end
delta_of _ = end

abbrev finish_of : Emission → Json
finish_of stop = text "stop"
finish_of _ = null

-- `chunk`, the body of what is not the last line.
unfoldable pub chunk_body : ℕ → String → String → Emission → Json
chunk_body created response_id model e = object (
    field "id" (text response_id) (
      field "object" (text "chat.completion.chunk") (
        field "created" (int created) (
          field "model" (text model) (
            field "choices"
              (array (
                cons
                  (object (
                    field "index" (int 0) (
                      field "delta" (object (delta_of e))
                        (field "finish_reason" (finish_of e) end))))
                  nil))
              end)))))

-- `buffer.split("\n\n", 1)`, where the separator is there.
unfoldable pub split_event : String → Option (String × String)
split_event String.[] = none
split_event (String.◌∷◌ a String.[]) = none
split_event (String.◌∷◌ a (String.◌∷◌ b s)) =
    if String.◌∷◌ a (String.◌∷◌ b "") == "\n\n"
    then some ("", s)
    else elim (split_event (String.◌∷◌ b s)) [
      | none ↦ none
      | some (event, rest) ↦ some (String.◌∷◌ a event, rest)
    ]

abbrev pub is_type : String → Json → Bool
is_type name (text s) = s == name
is_type name _ = false

abbrev pub start : StreamState
start = record { emitted_role = false; buffer = ""; ending = none; out = [] }

-- `if finished`.
unfoldable pub if_ended {ℓ} : {A : Type ℓ} → Option Ending → A → A → A
if_ended (some e) x y = x
if_ended none x y = y

-- The last line is the same bytes always.
abbrev pub yield_done : StreamState → StreamState
yield_done s = record s { out = s.out ++ done ∷ [] }

module _ (r : Reader) (response_id model : String) where
  -- `yield chunk(...)`
  unfoldable pub yields : Emission → StreamState → Result StreamError StreamState
  yields e s = do
    line ← or_raise (r.encode (chunk_body (r.clock s.out) response_id model e)) encode_error
    ok (record s { out = s.out ++ e ∷ [] })

  -- The role is yielded before anything else, once.
  unfoldable pub role_if : Bool → StreamState → Result StreamError StreamState
  unfolding yields
  role_if true s = ok s
  role_if false s = yields role (record s { emitted_role = true })

  unfoldable pub yield_role : StreamState → Result StreamError StreamState
  unfolding role_if
  yield_role s = role_if s.emitted_role s

  unfoldable pub handle_delta : Json → StreamState → Result StreamError StreamState
  unfolding yield_role
  handle_delta (text delta) s = do s' ← yield_role s; yields (content delta) s'
  handle_delta _ s = ok s

  unfoldable pub yield_end : StreamState → Result StreamError StreamState
  unfolding yield_role
  yield_end s = do s' ← yield_role s; s'' ← yields stop s'; ok (yield_done s'')

  -- The end of the stream that the provider has completed.
  unfoldable pub complete_stream : StreamState → Result StreamError StreamState
  unfolding yield_end
  complete_stream s = do s' ← yield_end s; ok (record s' { ending = some completed })

  unfoldable pub handle_body : Result LoadError Json → StreamState → Result StreamError StreamState
  unfolding handle_delta complete_stream
  handle_body (err not_json) s = ok s
  handle_body (err load_failed) s = err load_error
  handle_body (ok (object body)) s =
      if is_type "response.output_text.delta" (get "type" body)
      then handle_delta (get "delta" body) s
      else if is_type "response.completed" (get "type" body)
      then complete_stream s
      else ok s
  handle_body (ok _) s = ok s

  -- What follows the outer loop.
  unfoldable pub finish : StreamState → Result StreamError StreamState
  finish s = elim s.ending [ some e ↦ ok s | none ↦ yield_end s ]

  -- The data lines of an event.
  unfoldable pub data_lines : String → List String
  data_lines event =
      map (λ line. strip (r.after_five line)) (keep (starts_with "data:") (r.splitlines event))

  unfoldable pub handle_data : String → StreamState → Result StreamError StreamState
  handle_data payload s =
      if payload == "[DONE]"
      then ok (record s { ending = some upstream_done })
      else handle_body (r.loads payload) s

  unfoldable pub handle_lines : List String → StreamState → Result StreamError StreamState
  handle_lines [] s = ok s
  handle_lines (line ∷ lines) s = handle_data (join "\n" (line ∷ lines)) s

  -- The body of the inner loop, on an event that was split off.
  unfoldable pub handle_event : String → StreamState → Result StreamError StreamState
  handle_event event s = handle_lines (data_lines event) s

  -- The inner loop. Every event takes two characters at least, so those of the buffer are fuel enough.
  unfoldable pub drain : ℕ → StreamState → Result StreamError StreamState
  drain zero s = ok s
  drain (suc fuel) s = elim (split_event s.buffer) [
    | none ↦ ok s
    | some (event, rest) ↦ do
      next ← handle_event event (record s { buffer = rest })
      let later = drain fuel next
      if_ended next.ending (ok next) later
  ]

  unfoldable pub feed : String → StreamState → Result StreamError StreamState
  feed s' s =
      let filled = record s { buffer = concat s.buffer s' } in
      drain (text_length filled.buffer) filled

  -- The outer loop.
  unfoldable pub read_chunks : List (List ℕ) → StreamState → Result StreamError StreamState
  read_chunks [] s = ok s
  read_chunks (raw ∷ chunks) s = do
    decoded ← or_raise (r.decode raw) decode_error
    next ← feed decoded s
    let later = read_chunks chunks next
    if_ended next.ending (ok next) later

  -- `chat_stream_from_responses`, read to its end.
  unfoldable pub chat_stream : List (List ℕ) → Result StreamError StreamState
  chat_stream chunks = do s ← read_chunks chunks start; finish s

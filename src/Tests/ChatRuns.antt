-- ===== src/Tests/ChatRuns.antt =====
-- A provider's answer of one piece of text in two chunks, and a provider that only says that it is done.
use media_bridge.Base.{
  ℕ, zero, String, Bool, true, false, Option, none, some, List, [], ◌∷◌, ◌≡◌, refl, starts_with,
  strip, join, concat, text_length, ◌==◌, number_eq, string_eq, if◌then◌else◌,
}
use media_bridge.Base.{Result, ok, or_raise}
use media_bridge.Json.{Json, text, object, field, end, get}
use media_bridge.ChatStream.{
  role, content, stop, done, completed, upstream_done, LoadError, Reader, split_event, yields,
  role_if, yield_role, handle_delta, yield_end, complete_stream, handle_body, data_lines,
  handle_data, handle_lines, handle_event, drain, feed, read_chunks, finish, if_ended, chat_stream,
}
use media_bridge.ChatStream.Shapes.{Ends}

program : Unit {0}
unfolding starts_with media_bridge.Base.strip split_event yields role_if yield_role handle_delta
    yield_end complete_stream handle_body data_lines handle_data handle_lines handle_event drain
    feed read_chunks finish if_ended chat_stream join get
program = tt

abbrev chunk_text : List ℕ → Option String
chunk_text [] = none
chunk_text (c ∷ raw) =
    if c == 0
    then some "data: delta\n"
    else if c == 1
    then some "\ndata: over\n\n"
    else some "data: [DONE]\n\n"

abbrev drop_five : String → String
drop_five (String.◌∷◌ a (String.◌∷◌ b (String.◌∷◌ c (String.◌∷◌ d (String.◌∷◌ e s))))) = s
drop_five s = ""

abbrev body_of : String → Result LoadError Json
body_of s =
    if s == "delta"
    then ok (
        object
          (field "type" (text "response.output_text.delta") (field "delta" (text "hello") end)))
    else ok (object (field "type" (text "response.completed") end))

abbrev reader : Reader
reader = record {
  decode = chunk_text;
  splitlines = λ s. s ∷ [];
  after_five = drop_five;
  loads = body_of;
  encode = λ body. some [];
  clock = λ out. 7;
}

answer :
    chat_stream reader "r1" "solar" ((0 ∷ []) ∷ (1 ∷ []) ∷ [])
    ≡ ok (record {
      emitted_role = true;
      buffer = "";
      ending = some completed;
      out = role ∷ content "hello" ∷ stop ∷ done ∷ [];
    })
unfolding program
answer = refl

-- The provider's own last line is not passed on, and no other is yielded.
said_done :
    chat_stream reader "r1" "solar" ((2 ∷ []) ∷ [])
    ≡ ok (record { emitted_role = false; buffer = ""; ending = some upstream_done; out = [] })
unfolding program
said_done = refl

abbrev chunks : List (List ℕ)
chunks = (0 ∷ []) ∷ (1 ∷ []) ∷ []

-- ===== src/ChatStream/Ends.antt =====
-- How the stream comes to its end.
use media_bridge.Base.{ℕ, String, Bool, false, none, List, ◌≡◌, all, is_some, string_eq}
use media_bridge.Base.{Result, ok, err}
use media_bridge.Json.{Json}
use media_bridge.ChatStream.{
  Emission, StreamError, decode_error, load_error, encode_error, load_failed, Reader, StreamState,
  chunk_body,
}

module _ (r : Reader) (response_id model : String) where
  abbrev pub decodes : List ℕ → Bool
  decodes raw = is_some (r.decode raw)

  -- What an exception that leaves the stream tells of its chunks and of the standard library.
  abbrev pub Cause : List (List ℕ) → StreamError → Type 0
  Cause chunks decode_error = all decodes chunks ≡ false
  Cause chunks load_error = (payload : String) × (r.loads payload ≡ err load_failed)
  Cause chunks encode_error =
      (e : Emission) × (created : ℕ) × (r.encode (chunk_body created response_id model e) ≡ none)

  -- What a call that returns must satisfy; one that raises has a cause.
  abbrev pub Fine : List (List ℕ) → (StreamState → Type 0) → Result StreamError StreamState → Type 0
  Fine chunks P (ok s) = P s
  Fine chunks P (err e) = Cause chunks e

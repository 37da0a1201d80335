-- ===== src/Serve/Sse/Tests.antt =====
-- Examples for hydralisk/serve/proxy.py: the stream parser.
use hydralisk.Prelude.{
  ℕ, List, [], ◌∷◌, ◌≡◌, refl, String, Option, none, some, if◌then◌else◌, str_eq,
}
use hydralisk.Prelude.Int.{pos}
use hydralisk.Json.{Json, int, obj, end, field, get}
use hydralisk.Text.{strip}
use hydralisk.Serve.Sse.Utf8.{append, decode, decode_from}
use hydralisk.Serve.Sse.{
  StreamState, capture_text, split_event, splitlines, data_lines, read_lines, read_event, drain,
  capture_stream_usage,
}
use hydralisk.Serve.Sse.Chunks.{capture_stream_usage-append}

abbrev loads : String → Option Json
loads s = if str_eq s "{usage}" then some (obj (field "usage" (int (pos 3)) end)) else none

abbrev empty_state : StreamState
empty_state = record { buffer = ""; usage = none }

-- `data: {usage}`, two line feeds and `é`, without its last byte.
abbrev one_event : List ℕ
one_event =
    100 ∷ 97 ∷ 116 ∷ 97 ∷ 58 ∷ 32 ∷ 123 ∷ 117 ∷ 115 ∷ 97 ∷ 103 ∷ 101 ∷ 125 ∷ 10 ∷ 10 ∷ 195 ∷ []

capture-one_event :
    capture_stream_usage loads one_event empty_state
    ≡ record { buffer = ""; usage = some (int (pos 3)) }
unfolding capture_stream_usage capture_text decode decode_from drain split_event read_event
    read_lines data_lines splitlines strip get
capture-one_event = refl

-- A character that is cut in two is lost.
decode-cut : (decode (195 ∷ 169 ∷ []) ≡ "é") × (append (decode (195 ∷ [])) (decode (169 ∷ [])) ≡ "")
unfolding decode decode_from
decode-cut = (refl, refl)

capture_stream_usage-append_example :
    capture_stream_usage loads (100 ∷ 97 ∷ 116 ∷ 97 ∷ 195 ∷ 169 ∷ 10 ∷ 10 ∷ []) empty_state
    ≡ capture_stream_usage loads
        (10 ∷ 10 ∷ [])
        (capture_stream_usage loads (100 ∷ 97 ∷ 116 ∷ 97 ∷ 195 ∷ 169 ∷ []) empty_state)
unfolding decode_from
capture_stream_usage-append_example =
    capture_stream_usage-append loads (100 ∷ 97 ∷ 116 ∷ 97 ∷ 195 ∷ 169 ∷ []) (10 ∷ 10 ∷ [])
      empty_state refl

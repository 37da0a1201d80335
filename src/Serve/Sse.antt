-- ===== src/Serve/Sse.antt =====
-- hydralisk/serve/proxy.py: `_capture_stream_usage`, which looks for the token usage in a stream of
-- server-sent events. A chunk is its bytes; `loads` is `json.loads`, `none` where it raises.
pub mod Utf8
pub mod Chunks
pub mod Tests
use Prim.Native.Char.{Char, code}
use hydralisk.Prelude.{
  ℕ, zero, suc, ◌+◌, String, Bool, true, false, not, ◌&&◌, ◌||◌, Option, none, some, List, [], ◌∷◌,
  leb, ◌==◌, str_eq, if◌then◌else◌,
}
use hydralisk.Json.{Json, Fields, null, obj, get}
use hydralisk.Text.{strip, is_blank}
use hydralisk.Serve.Sse.Utf8.{append, decode}

abbrev pub size : String → ℕ
size String.[] = 0
size (String.◌∷◌ c s) = suc (size s)

abbrev pub push_event : Char → Option (String × String) → Option (String × String)
push_event c none = none
push_event c (some (event, rest)) = some (String.◌∷◌ c event, rest)

-- `buffer.split("\n\n", 1)`, if there is an empty line.
unfoldable pub split_event : String → Option (String × String)
split_event String.[] = none
split_event (String.◌∷◌ c String.[]) = none
split_event (String.◌∷◌ c (String.◌∷◌ d s)) =
    let later = split_event (String.◌∷◌ d s) in
    if code c == 10 && code d == 10 then some (String.[], s) else push_event c later

-- The line breaks of `str.splitlines`.
abbrev is_break : ℕ → Bool
is_break c = leb 10 c && leb c 13 || leb 28 c && leb c 30 || (c == 133 || c == 8232 || c == 8233)

abbrev onto_first : Char → List String → List String
onto_first c [] = String.◌∷◌ c String.[] ∷ []
onto_first c (l ∷ ls) = String.◌∷◌ c l ∷ ls

-- The lines of a text; `after_cr` is whether a carriage return came before, whose line feed is its.
abbrev lines_from : Bool → String → List String
lines_from after_cr String.[] = []
lines_from after_cr (String.◌∷◌ c s) =
    let same = lines_from false s in
    let next = lines_from (code c == 13) s in
    if after_cr && code c == 10
    then same
    else if is_break (code c)
    then String.[] ∷ next
    else onto_first c same

unfoldable pub splitlines : String → List String
splitlines s = lines_from false s

-- What stands behind a prefix, given by its code points.
abbrev after : List ℕ → String → Option String
after [] s = some s
after (p ∷ ps) String.[] = none
after (p ∷ ps) (String.◌∷◌ c s) = let rest = after ps s in if code c == p then rest else none

abbrev data_of : Option String → List String → List String
data_of none rest = rest
data_of (some s) rest = strip s ∷ rest

-- The code points of `data:`.
abbrev data_prefix : List ℕ
data_prefix = 100 ∷ 97 ∷ 116 ∷ 97 ∷ 58 ∷ []

unfoldable pub data_lines : List String → List String
data_lines [] = []
data_lines (l ∷ ls) = let rest = data_lines ls in data_of (after data_prefix l) rest

-- `parsed.get("usage") if isinstance(parsed, dict) else None`, kept if it is not `None`.
abbrev pub newer : Option Json → Option Json → Option Json
newer (some (obj fields)) old = elim (get "usage" fields) [
  | none ↦ old
  | some null ↦ old
  | some usage ↦ some usage
]
newer _ old = old

abbrev read_data : (String → Option Json) → Option Json → String → Option Json
read_data loads usage line =
    if is_blank line || str_eq line "[DONE]" then usage else newer (loads line) usage

unfoldable pub read_lines : (String → Option Json) → Option Json → List String → Option Json
read_lines loads usage [] = usage
read_lines loads usage (line ∷ rest) = read_lines loads (read_data loads usage line) rest

unfoldable pub read_event : (String → Option Json) → Option Json → String → Option Json
read_event loads usage event = read_lines loads usage (data_lines (splitlines event))

-- The buffer and the usage that was seen last.
pub record StreamState : Type 0 where
  pub buffer : String
  pub usage : Option Json

-- The `while`, with the buffer's size as fuel: each event that is split off makes it shorter.
unfoldable pub drain : (String → Option Json) → ℕ → StreamState → StreamState
drain loads zero st = st
drain loads (suc n) st = elim (split_event st.buffer) [
  | none ↦ st
  | some (event, rest) ↦
      drain loads n (record { buffer = rest; usage = read_event loads st.usage event })
]

-- More text for the buffer, which is then drained.
unfoldable pub capture_text : (String → Option Json) → String → StreamState → StreamState
capture_text loads text st =
    let buffer = append st.buffer text in drain loads (size buffer) (record st { buffer = buffer })

-- A chunk is decoded by itself, with the bytes that are no UTF-8 ignored.
unfoldable pub capture_stream_usage : (String → Option Json) → List ℕ → StreamState → StreamState
capture_stream_usage loads chunk st = capture_text loads (decode chunk) st

-- The chunks of a stream, in order.
unfoldable pub capture_chunks : (String → Option Json) → List (List ℕ) → StreamState → StreamState
capture_chunks loads [] st = st
capture_chunks loads (chunk ∷ rest) st =
    capture_chunks loads rest (capture_stream_usage loads chunk st)

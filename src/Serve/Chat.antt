-- ===== src/Serve/Chat.antt =====
-- hydralisk/serve/proxy.py: a request to `/v1/chat/completions` or `/v1/responses`, from its lease on.
-- httpx is what it answers: nothing where a call raises, or a status and what `upstream.json()` makes
-- of the body. `disk` is whether a receipt can be written. A handler's exception
-- is `none`; messages beside a code are left out. A stream is the bytes of its chunks.
pub mod Flow
pub mod Replies
pub mod Tests
use hydralisk.Prelude.{
  ℕ, String, Bool, true, false, not, ◌&&◌, ◌||◌, Option, none, some, List, [], ◌∷◌, leb, str_eq,
  if◌then◌else◌,
}
use hydralisk.Prelude.Int.{ℤ, pos}
use hydralisk.Json.{Json, Fields, int, str, obj, end, field, get, put, set_default}
use hydralisk.Serve.Settings.{HydraliskSettings}
use hydralisk.Serve.Usage.{Usage, normalize_usage}
use hydralisk.Serve.Policy.{PolicyContext}
use hydralisk.Serve.Gate.{InflightGate, release}
use hydralisk.Serve.Metrics.{ProxyMetrics, record_started, record_finished}
use hydralisk.Serve.Sse.{capture_chunks}
use hydralisk.Serve.Receipts.{RunReceipt, Directory, build_receipt, write}

-- What a handler has at hand once it is admitted.
pub record Admission : Type 0 where
  pub run_ref : String
  pub admitted_model : String
  pub policy_context : Option PolicyContext
  pub config : HydraliskSettings
  pub loads : String → Option Json

-- What `upstream.json()` makes of a body: `UnicodeDecodeError`, `JSONDecodeError`, or a value.
pub data Body : Type 0 where
  undecodable : Body
  not_json : Body
  parsed : Json → Body

pub record Reply : Type 0 where
  pub status_code : ℕ
  pub body : Body

pub record Proxy : Type 0 where
  pub gate : InflightGate
  pub metrics : ProxyMetrics
  pub files : Directory

abbrev pub receipt_for : Admission → Option Json → Option ℕ → ℕ → List String → RunReceipt
receipt_for a usage ttft_ms wall_ms blockers =
    build_receipt a.run_ref a.admitted_model usage ttft_ms wall_ms a.config a.policy_context
      blockers

abbrev pub is_none {ℓ} : {A : Type ℓ} → Option A → Bool
is_none none = true
is_none (some a) = false

-- `body.get("usage") if isinstance(body, dict) else None`
abbrev pub usage_in : Json → Option Json
usage_in (obj fields) = get "usage" fields
usage_in _ = none

abbrev pub usage_blockers : Option Json → String → List String
usage_blockers usage code = if is_none (normalize_usage usage) then code ∷ [] else []

abbrev pub hydralisk_part : Admission → ℕ → Json
hydralisk_part a wall_ms = obj (
    field "runRef" (str a.run_ref) (
      field "servedModel" (str a.config.served_model) (
        field "servedAlias" (str a.admitted_model)
          (field "latency" (obj (field "wallMs" (int (pos wall_ms)) end)) end))))

abbrev pub usage_blocker : Json
usage_blocker = obj (field "code" (str "upstream_usage_unavailable") end)

-- `body["hydralisk"]["usageBlocker"] = …` raises unless that is an object.
abbrev pub block_usage : Option Json → Fields → Option Fields
block_usage (some (obj part)) body =
    some (put "hydralisk" (obj (put "usageBlocker" usage_blocker part)) body)
block_usage _ body = none

abbrev pub annotate : Admission → ℕ → Json → Option Json
annotate a wall_ms (obj body) =
    let named = set_default "hydralisk" (hydralisk_part a wall_ms) body in
    if is_none (normalize_usage (get "usage" body))
    then elim (block_usage (get "hydralisk" named) named) [ none ↦ none | some b ↦ some (obj b) ]
    else some (obj named)
annotate a wall_ms body = some body

-- A status and a body for the client, if there is no exception, and the files after.
abbrev pub Answer : Type 0
Answer = Option (ℕ × Json) × Directory

-- `receipts.write(…)`, and what is answered if it does not raise.
abbrev pub written : Bool → RunReceipt → Directory → Option (ℕ × Json) → Answer
written disk r files answer = elim (write disk r files) [
  | none ↦ (none, files)
  | some files' ↦ (answer, files')
]

abbrev pub with_status : ℕ → Option Json → Option (ℕ × Json)
with_status code none = none
with_status code (some body) = some (code, body)

abbrev pub bad_gateway : Admission → ℕ → Json
bad_gateway a wall_ms = obj (
    field "error" (obj (field "code" (str "upstream_non_json_response") end))
      (field "hydralisk" (hydralisk_part a wall_ms) end))

abbrev pub answer_json : Admission → Bool → ℕ → ℕ → Json → Directory → Answer
answer_json a disk wall_ms status_code body files =
    if leb 400 status_code
    then written disk (receipt_for a none none wall_ms ("upstream_http_error" ∷ [])) files
        (some (status_code, body))
    else written disk
        (receipt_for a (usage_in body) none wall_ms
          (usage_blockers (usage_in body) "upstream_usage_unavailable"))
        files (with_status status_code (annotate a wall_ms body))

abbrev pub answer_body : Admission → Bool → ℕ → ℕ → Body → Directory → Answer
answer_body a disk wall_ms status_code undecodable files = (none, files)
answer_body a disk wall_ms status_code not_json files =
    written disk (receipt_for a none none wall_ms ("upstream_non_json_response" ∷ [])) files
      (some (502, bad_gateway a wall_ms))
answer_body a disk wall_ms status_code (parsed body) files =
    answer_json a disk wall_ms status_code body files

unfoldable pub json_upstream_response : Admission → Bool → ℕ → Reply → Directory → Answer
json_upstream_response a disk wall_ms upstream files =
    answer_body a disk wall_ms upstream.status_code upstream.body files

-- The `try` of a handler that does not stream: `none` is that the call upstream raises.
abbrev pub attempt : Admission → Bool → ℕ → Option Reply → Directory → Answer
attempt a disk wall_ms none files = (none, files)
attempt a disk wall_ms (some upstream) files = json_upstream_response a disk wall_ms upstream files

abbrev pub settle : String → ℕ → Option (ℕ × Json) → ProxyMetrics → ProxyMetrics
settle route wall_ms none m = record_finished route 502 wall_ms true m
settle route wall_ms (some (status_code, body)) m =
    record_finished route status_code wall_ms false m

-- A request that does not stream, which holds the lease `lease`.
unfoldable pub respond :
    String → Admission → Bool → ℕ → Option Reply → ℕ → Proxy → Option (ℕ × Json) × Proxy
unfolding json_upstream_response
respond route a disk wall_ms upstream lease p =
    let (answer, files) = attempt a disk wall_ms upstream p.files in
    (
      answer,
      record {
        gate = release lease p.gate;
        metrics = settle route wall_ms answer (record_started route p.metrics);
        files = files;
      },
    )

-- What a streaming call upstream comes to: an exception, an error status, or a stream, whose generator
-- is given its chunks and ends with the first token's time.
pub data StreamReply : Type 0 where
  raises : StreamReply
  refuses : ℕ → StreamReply
  flows : ℕ → Option ℕ → List (List ℕ) → StreamReply

-- The `except` of a handler that streams.
abbrev pub stream_failed : String → ℕ → ℕ → Proxy → Proxy
stream_failed route wall_ms lease p = record p {
  gate = release lease p.gate;
  metrics = record_finished route 502 wall_ms true p.metrics;
}

-- After the lease and the metrics of a refused call: its receipt, which may raise.
abbrev pub refusal_written : String → ℕ → ℕ → Option Directory → Proxy → Proxy
refusal_written route wall_ms lease none p = stream_failed route wall_ms lease p
refusal_written route wall_ms lease (some files) p = record p { files = files }

-- The `finally` of the generator: the receipt comes first, and what follows is lost if it raises.
abbrev pub stream_written : String → ℕ → ℕ → ℕ → Bool → Option Directory → Proxy → Proxy
stream_written route wall_ms lease status_code bad none p = p
stream_written route wall_ms lease status_code bad (some files) p = record {
  gate = release lease p.gate;
  metrics = record_finished route status_code wall_ms bad p.metrics;
  files = files;
}

-- The usage that the generator has seen at its end.
abbrev pub usage_of_chunks : Admission → List (List ℕ) → Option Json
usage_of_chunks a chunks =
    (capture_chunks a.loads chunks (record { buffer = ""; usage = none })).usage

abbrev pub stream_reply : String → Admission → Bool → ℕ → StreamReply → ℕ → Proxy → Proxy
stream_reply route a disk wall_ms raises lease p = stream_failed route wall_ms lease p
stream_reply route a disk wall_ms (refuses status_code) lease p =
    refusal_written route wall_ms lease
      (write disk (receipt_for a none none wall_ms ("upstream_http_error" ∷ [])) p.files)
      (record p {
        gate = release lease p.gate;
        metrics = record_finished route status_code wall_ms false p.metrics;
      })
stream_reply route a disk wall_ms (flows status_code ttft_ms chunks) lease p =
    let usage = usage_of_chunks a chunks in
    let blockers = usage_blockers usage "stream_terminal_usage_unavailable" in
    stream_written route wall_ms lease status_code (is_none (normalize_usage usage))
      (write disk (receipt_for a usage ttft_ms wall_ms blockers) p.files) p

-- A request that streams, with `_stream_to_upstream`, to the end of its stream.
unfoldable pub stream_to_upstream : String → Admission → Bool → ℕ → StreamReply → ℕ → Proxy → Proxy
stream_to_upstream route a disk wall_ms upstream lease p =
    stream_reply route a disk wall_ms upstream lease
      (record p { metrics = record_started route p.metrics })

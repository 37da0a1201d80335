-- ===== src/Serve/Chat/Replies.antt =====
-- What a reply of the upstream comes to, in hydralisk/serve/proxy.py.
use hydralisk.Prelude.{
  ℕ, ◌≡◌, ◌≤◌, ◌<◌, ◌⊎◌, String, Bool, true, false, Option, none, some, List, [], ◌∷◌, ◌++◌,
}
use hydralisk.Json.{Json, Fields, obj, get, set_default}
use hydralisk.Serve.Usage.{Usage, normalize_usage}
use hydralisk.Serve.Receipts.{RunReceipt, model_revision_blockers, Directory, read}
use hydralisk.Serve.Chat.{
  Admission, Body, undecodable, not_json, parsed, Reply, Answer, receipt_for, usage_in,
  usage_blockers, hydralisk_part, usage_blocker, block_usage, annotate, with_status, bad_gateway,
  written,
}

-- Under the run's reference stands a receipt with the usage and the blockers, behind those of the lane.
abbrev pub Keeps : Admission → ℕ → Option Usage → List String → Answer → Type 0
Keeps a wall_ms usage codes answer =
    (r : RunReceipt) × (read a.run_ref answer.1 ≡ some r)
    × (r.wall_ms ≡ wall_ms)
    × (r.usage ≡ usage)
    × (r.blockers ≡ model_revision_blockers a.config ++ codes)

-- The body of a completion with usage: the run is named in it, unless it names one.
abbrev pub IsNamed : Admission → ℕ → ℕ → Json → Option (ℕ × Json) → Type 0
IsNamed a wall_ms code (obj fields) o =
    o ≡ some (code, obj (set_default "hydralisk" (hydralisk_part a wall_ms) fields))
IsNamed a wall_ms code body o = o ≡ some (code, body)

-- The client is told in the body that there is no usage.
abbrev pub IsTold : ℕ → Option (ℕ × Json) → Type 0
IsTold code o =
    (fields : Fields) × (part : Fields) × (o ≡ some (code, obj fields))
    × (get "hydralisk" fields ≡ some (obj part))
    × (get "usageBlocker" part ≡ some usage_blocker)

-- It cannot be told if the upstream's own `hydralisk` is no object: that raises.
abbrev pub IsToldUnder : ℕ → Option Json → Option (ℕ × Json) → Type 0
IsToldUnder code none o = IsTold code o
IsToldUnder code (some (obj part)) o = IsTold code o
IsToldUnder code (some v) o = o ≡ none

abbrev pub IsToldIn : ℕ → Json → Option (ℕ × Json) → Type 0
IsToldIn code (obj fields) o = IsToldUnder code (get "hydralisk" fields) o
IsToldIn code body o = o ≡ some (code, body)

abbrev pub IsAnswered : Admission → ℕ → Directory → ℕ → Body → Answer → Type 0
IsAnswered a wall_ms files code undecodable answer = answer ≡ (none, files)
IsAnswered a wall_ms files code not_json answer =
    Keeps a wall_ms none ("upstream_non_json_response" ∷ []) answer
    × (answer.0 ≡ some (502, bad_gateway a wall_ms))
IsAnswered a wall_ms files code (parsed body) answer =
    ((400 ≤ code)
      × Keeps a wall_ms none ("upstream_http_error" ∷ []) answer
      × (answer.0 ≡ some (code, body)))
    ⊎ ((code < 400)
        × (((u : Usage) × (normalize_usage (usage_in body) ≡ some u)
              × Keeps a wall_ms (some u) [] answer
              × IsNamed a wall_ms code body answer.0)
            ⊎ ((normalize_usage (usage_in body) ≡ none)
                × Keeps a wall_ms none ("upstream_usage_unavailable" ∷ []) answer
                × IsToldIn code body answer.0)))

-- By whether the receipt can be written; a reply that cannot be decoded leaves none.
abbrev pub AnsweredAs : Admission → ℕ → Bool → Reply → Directory → Answer → Type 0
AnsweredAs a wall_ms true upstream files answer =
    IsAnswered a wall_ms files upstream.status_code upstream.body answer
AnsweredAs a wall_ms false upstream files answer = answer ≡ (none, files)

module _ (a : Admission) (disk : Bool) (wall_ms : ℕ) (files : Directory) where
  abbrev default_part : Option Json → Json
  default_part none = hydralisk_part a wall_ms
  default_part (some old) = old

  abbrev noted : ℕ → Option Json → Fields → Option (ℕ × Json)
  noted code part named =
      with_status code (elim (block_usage part named) [ none ↦ none | some b ↦ some (obj b) ])

  abbrev usage_answer : ℕ → Json → Answer
  usage_answer code body =
      written disk
        (receipt_for a (usage_in body) none wall_ms
          (usage_blockers (usage_in body) "upstream_usage_unavailable"))
        files (with_status code (annotate a wall_ms body))

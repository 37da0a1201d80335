-- ===== src/Serve/Chat/Flow.antt =====
-- What a request of hydralisk/serve/proxy.py does to the gate, the counters and the receipts.
use hydralisk.Prelude.{
  ℕ, ◌+◌, ◌≡◌, refl, inl, inr, arith, String, Bool, true, false, ◌&&◌, Option, Option-cases,
  Bool-cases,
}
use hydralisk.Serve.Gate.{release}
use hydralisk.Serve.Gate.Held.{release_idempotent}
use hydralisk.Serve.Metrics.{record_started, record_finished}
use hydralisk.Serve.Receipts.{build_receipt, is_run_ref, write}
use hydralisk.Serve.Chat.{
  Admission, Reply, Proxy, respond, attempt, StreamReply, raises, refuses, flows,
  stream_to_upstream,
}

-- A request that does not stream gives its lease back, and is counted as one request and one response,
-- whether it is answered, the upstream fails, or its receipt cannot be written.
pub respond-counts :
    (route : String) (a : Admission) (disk : Bool) (wall_ms : ℕ) (upstream : Option Reply)
    (lease : ℕ) (p : Proxy)
    → let p' = (respond route a disk wall_ms upstream lease p).1 in
      (p'.gate ≡ release lease p.gate)
      × (p'.metrics.requests_total ≡ p.metrics.requests_total + 1)
      × (p'.metrics.responses_total ≡ p.metrics.responses_total + 1)
unfolding respond record_started record_finished
respond-counts route a disk wall_ms upstream lease p =
    elim (Option-cases (attempt a disk wall_ms upstream p.files).0) [
      | inl e ↦ ground (arith, e)
      | inr ((code, body), e) ↦ ground (arith, e)
    ]

-- What a request that streams does to the lease and to the count of responses.
abbrev pub Settles : Proxy → ℕ → ℕ → Proxy → Type 0
Settles p lease n p' =
    (p'.gate ≡ release lease p.gate)
    × (p'.metrics.requests_total ≡ p.metrics.requests_total + 1)
    × (p'.metrics.responses_total ≡ p.metrics.responses_total + n)

-- The same by the reply, and by whether a receipt can be written.
abbrev pub SettlesAs : StreamReply → Bool → Proxy → ℕ → Proxy → Type 0
SettlesAs raises kept p lease p' = Settles p lease 1 p'
SettlesAs (refuses code) true p lease p' = Settles p lease 1 p'
SettlesAs (refuses code) false p lease p' = Settles p lease 2 p'
SettlesAs (flows code ttft_ms chunks) true p lease p' = Settles p lease 1 p'
SettlesAs (flows code ttft_ms chunks) false p lease p' =
    (p'.gate ≡ p.gate)
    × (p'.metrics.requests_total ≡ p.metrics.requests_total + 1)
    × (p'.metrics.responses_total ≡ p.metrics.responses_total)

-- A request that streams gives its lease back and counts as one response if its receipt is written,
-- and also if the call raises. If the receipt of a refusal cannot be written, it counts as two
-- responses; if the receipt of a stream cannot be written, its lease is never given back, and it does
-- not count as a response.
pub stream_to_upstream-SettlesAs :
    (route : String) (a : Admission) (disk : Bool) (wall_ms : ℕ) (upstream : StreamReply)
    (lease : ℕ) (p : Proxy)
    → SettlesAs upstream
        (is_run_ref a.run_ref && disk)
        p
        lease
        (stream_to_upstream route a disk wall_ms upstream lease p)
unfolding stream_to_upstream record_started record_finished write build_receipt
stream_to_upstream-SettlesAs route a disk wall_ms raises lease p = (refl, refl, refl)
stream_to_upstream-SettlesAs route a disk wall_ms (refuses code) lease p =
    elim (Bool-cases (is_run_ref a.run_ref && disk)) [
      | inl h ↦ ground (arith, h)
      | inr h ↦ ground (arith, h, release_idempotent lease p.gate)
    ]
stream_to_upstream-SettlesAs route a disk wall_ms (flows code ttft_ms chunks) lease p =
    elim (Bool-cases (is_run_ref a.run_ref && disk)) [
      | inl h ↦ ground (arith, h)
      | inr h ↦ ground (arith, h)
    ]

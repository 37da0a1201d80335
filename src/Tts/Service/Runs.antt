-- ===== src/Tts/Service/Runs.antt =====
-- What the counters and the log of hydralisk/tts/service.py say of a history of requests.
use hydralisk.Prelude.{
  ℕ, suc, ◌+◌, ◌≡◌, sym, refl, arith, subst, String, Bool, true, false, not, ◌&&◌, ◌||◌, Option,
  none, some, List, [], ◌∷◌, ◌++◌, if◌then◌else◌, length, length-append, Bool-cases, inl, inr,
}
use hydralisk.Json.{Json, Fields, arr, nil, get}
use hydralisk.Tts.Seam.{voice_or_default, TtsAdapter, VoiceRef, SynthesisMetrics}
use hydralisk.Tts.Receipts.{append_receipt, has_forbidden, build_tts_receipt}
use hydralisk.Tts.Settings.{TtsServiceSettings}
use hydralisk.Tts.Service.{
  Checked, pass, refuse, SynthRequest, Run, TtsService, new_service, admit, run_blockers, count_run,
  is_latin_1, settle_run, synthesize, serve, start_run, answer, logged,
}

abbrev unblocked : Option Json → Bool
unblocked (some (arr nil)) = true
unblocked _ = false

abbrev pub clean : List Fields → ℕ
clean [] = 0
clean (r ∷ log) = (if unblocked (get "blockers" r) then 1 else 0) + clean log

clean-append : (log more : List Fields) → clean (log ++ more) ≡ clean log + clean more
clean-append [] more = omega arith
clean-append (r ∷ log) more = omega (arith, clean-append log more)

-- The headers of a response can carry the run, the adapter and the voice that is asked for.
abbrev pub can_send : TtsAdapter → Run → Option VoiceRef → Bool
can_send adapter run voice_ref =
    is_latin_1 run.run_ref
    && (is_latin_1 adapter.adapter_ref && is_latin_1 (voice_or_default voice_ref adapter).voice_id)

-- Whether a request is counted and leaves no receipt: its response does not begin, or the receipt
-- cannot be written.
abbrev pub is_lost : TtsAdapter → Run → Checked (String × Option VoiceRef) → Bool
is_lost adapter run (refuse status code) = false
is_lost adapter run (pass (text, voice_ref)) =
    run.adapter_ready && (not (can_send adapter run voice_ref) || (not run.begins || not run.disk))

abbrev pub lost : TtsAdapter → TtsServiceSettings → List (SynthRequest × Run) → ℕ
lost adapter config [] = 0
lost adapter config ((request, run) ∷ calls) =
    (if is_lost adapter run (admit config request) then 1 else 0) + lost adapter config calls

-- The counters are those of the log, but for `unwritten` runs.
pub record IsSound (unwritten : ℕ) (s : TtsService) : Type 0 where
  pub requests : s.metrics.synth_requests_total ≡ length s.log + unwritten
  pub settled : s.metrics.synth_completed_total + s.metrics.synth_errors_total ≡ length s.log
  pub completed : s.metrics.synth_completed_total ≡ clean s.log

same_count : {k l : ℕ} {s : TtsService} → k ≡ l → IsSound k s → IsSound l s
same_count {k} {l} {s} e h = subst (λ n. IsSound n s) e h

length-snoc : (log : List Fields) (r : Fields) → length (log ++ r ∷ []) ≡ length log + 1
length-snoc log r = omega (arith, length-append log (r ∷ []))

module _ (audio_seconds_out : ℕ → Json) (adapter : TtsAdapter) (config : TtsServiceSettings) where
  append_receipt-build :
      (disk : Bool) (run_ref : String) (m : SynthesisMetrics) (blockers : List String)
      (log : List Fields)
      → append_receipt disk (build_tts_receipt audio_seconds_out run_ref m blockers) log ≡ (
          if disk
          then some (log ++ build_tts_receipt audio_seconds_out run_ref m blockers ∷ [])
          else none)
  unfolding append_receipt has_forbidden build_tts_receipt
  append_receipt-build true run_ref m blockers log = refl
  append_receipt-build false run_ref m blockers log = refl

  written :
      (k : ℕ) (run_ref : String) (m : SynthesisMetrics) (blockers : List String) (s : TtsService)
      → IsSound k s
      → IsSound k (record {
        metrics = count_run blockers m (start_run audio_seconds_out adapter config s).metrics;
        log = s.log ++ build_tts_receipt audio_seconds_out run_ref m blockers ∷ [];
      })
  unfolding count_run build_tts_receipt get
  written k run_ref m [] s h =
      let r = build_tts_receipt audio_seconds_out run_ref m [] in
      record {
        requests = omega (arith, h.requests, length-snoc s.log r);
        settled = omega (arith, h.settled, length-snoc s.log r);
        completed = omega (arith, h.completed, clean-append s.log (r ∷ []));
      }
  written k run_ref m (code ∷ codes) s h =
      let r = build_tts_receipt audio_seconds_out run_ref m (code ∷ codes) in
      record {
        requests = omega (arith, h.requests, length-snoc s.log r);
        settled = omega (arith, h.settled, length-snoc s.log r);
        completed = omega (arith, h.completed, clean-append s.log (r ∷ []));
      }

  unwritten :
      (k : ℕ) (s : TtsService)
      → IsSound k s
      → IsSound (suc k) (start_run audio_seconds_out adapter config s)
  unwritten k s h = record {
    requests = omega (arith, h.requests);
    settled = h.settled;
    completed = h.completed;
  }

  settle_run-IsSound :
      (k : ℕ) (run : Run) (m : SynthesisMetrics) (s : TtsService)
      → IsSound k s
      → IsSound ((if not run.disk then 1 else 0) + k) (
          settle_run audio_seconds_out adapter config run m
            (start_run audio_seconds_out adapter config s))
  unfolding settle_run logged
  settle_run-IsSound k run m s h = elim (Bool-cases run.disk) [
    | inl e ↦
        rw (append_receipt-build, e)
          (same_count (sym (omega arith)) (written k run.run_ref m (run_blockers run.finish m) s h))
    | inr e ↦ rw (append_receipt-build, e) (same_count (sym (omega arith)) (unwritten k s h))
  ]

  answer-IsSound :
      (k : ℕ) (checked : Checked (String × Option VoiceRef)) (run : Run) (s : TtsService)
      → IsSound k s
      → IsSound
          ((if is_lost adapter run checked then 1 else 0) + k)
          (answer audio_seconds_out adapter config checked run s).1
  unfolding answer settle_run
  answer-IsSound k (refuse status code) run s h = same_count (sym (omega arith)) h
  answer-IsSound k (pass (text, voice_ref)) run s h = elim (Bool-cases run.adapter_ready) [
    | inr e ↦ rw (e) (same_count (sym (omega arith)) h)
    | inl e ↦ elim (Bool-cases (can_send adapter run voice_ref)) [
      | inr f ↦ rw (e, f) (same_count (sym (omega arith)) (unwritten k s h))
      | inl f ↦ elim (Bool-cases run.begins) [
        | inr g ↦ rw (e, f, g) (same_count (sym (omega arith)) (unwritten k s h))
        | inl g ↦ rw (e, f, g) (settle_run-IsSound k run _ s h)
      ]
    ]
  ]

  serve-IsSound_from :
      (calls : List (SynthRequest × Run)) (k : ℕ) (s : TtsService)
      → IsSound k s
      → IsSound (lost adapter config calls + k) (serve audio_seconds_out adapter config calls s)
  unfolding serve synthesize
  serve-IsSound_from [] k s h = same_count (sym (omega arith)) h
  serve-IsSound_from ((request, run) ∷ calls) k s h =
      same_count (omega arith)
        (serve-IsSound_from calls _ _ (answer-IsSound k (admit config request) run s h))

  -- In any history of requests for speech, the requests that were counted are those with a receipt in
  -- the log and those that are lost: admitted with an adapter at hand, but the response did not begin,
  -- since a header cannot carry the run, the adapter or the voice or since the client had gone, or the
  -- receipt could not be written. Each receipt is counted once as completed or as an error, and those
  -- completed are the ones whose receipt has no blocker.
  pub serve-IsSound :
      (calls : List (SynthRequest × Run))
      → IsSound
          (lost adapter config calls)
          (serve audio_seconds_out adapter config calls new_service)
  serve-IsSound calls = same_count (omega arith) (
      serve-IsSound_from calls 0 new_service
        (record { requests = omega arith; settled = omega arith; completed = refl }))

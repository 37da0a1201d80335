-- ===== src/Lib.antt =====
-- Hydralisk: a serving proxy for language models (hydralisk/serve) and a render service for a
-- talking avatar (hydralisk/avatar), with a speech service (hydralisk/tts) and the summary of
-- benchmark runs (hydralisk/evals) and the admission of adapters to a lane (hydralisk/admission),
-- and what is proved of their cores.
--
-- The avatar service. A client of one session sends control messages over a WebSocket. The parser
-- (hydralisk/avatar/protocol.py, Avatar/Protocol.antt) takes a frame apart, or refuses it with a
-- code. A session (hydralisk/avatar/session.py: AvatarSession, Avatar/Session.antt) hands the
-- message to its state machine (state.py, Avatar/State.antt) and the audio of an utterance to its
-- frame scheduler (scheduler.py, Avatar/Scheduler.antt), which cuts it into chunks (audio.py,
-- Avatar/Audio.antt). The render loop asks the scheduler for one job for each video frame: a clip
-- and a frame in it (clips.py, Avatar/Clips.antt), the chunks of audio that go with it, and a blend
-- from the last state. Avatar/Session.antt has the course of each method where its surroundings
-- work, and Avatar/Session/Faults.antt the same methods where the egress, the receipt file or the
-- renderer's close raises, or a tick is cancelled. The rows of a session's receipts are
-- receipts.py's (Avatar/Receipts.antt). The SessionManager of session.py (Avatar/Manager.antt)
-- holds the sessions under their references, keeps their number below a limit, and evicts the
-- oldest one that nobody watches.
--
-- The proxy. A request is admitted by its bearer token, its model and the lane's policy
-- (hydralisk/serve/proxy.py, Serve/Policy.antt, with the settings of config.py in
-- Serve/Settings.antt); its payload is completed with the lane's defaults (Serve/Defaults.antt); it
-- takes a lease of the gate on requests in flight (_InflightGate, Serve/Gate.antt), is counted
-- (_ProxyMetrics, Serve/Metrics.antt), is sent upstream (Serve/Chat.antt; a stream's events are
-- read by _capture_stream_usage, Serve/Sse.antt), and leaves a receipt
-- (hydralisk/serve/receipts.py, Serve/Receipts.antt) with its token counts (Serve/Usage.antt).
--
-- The evaluation. A benchmark run is summarised by hydralisk/evals/terminal_bench.py. The ids that
-- a report shows are cleaned (_clean_task_id, Evals/TaskId.antt); a run's tasks are counted by
-- status (_task_status, Evals/Tasks.antt, and _counts_from_tasks, Evals/Tally.antt), or a payload
-- or the command line brings counts (_counts_from_summary and _payload_from_args,
-- Evals/Summary.antt); both give the receipt (summarize_payload, Evals/Report.antt). A Harbor job
-- directory is first made a payload (harbor_job_to_summary_payload, Evals/Harbor.antt for its
-- trials and Evals/Job.antt). Python's truth values, str and int are in Evals/Values.antt.
--
-- The speech service. A request is checked (hydralisk/tts/service.py: require_bearer, synthesize
-- and compat_synthesize, Tts/Service.antt, with load_tts_settings in Tts/Settings.antt); the
-- adapter's chunks are passed on and measured (seam.py: instrument_stream, Tts/Seam.antt); the run
-- is counted and leaves a receipt in the log (receipts.py, Tts/Receipts.antt). The adapters say the
-- text that normalize_spoken makes (normalize.py, Tts/Normalize.antt).
--
-- The admission. An adapter is probed by hydralisk/admission/deepseek_v4_fable.py: which files may
-- be fetched (validate_requested_files, Admission/Files.antt); whether its targets are modules of
-- the runtime (adapter_targets, compare_adapter_targets and build_report, Admission/Targets.antt);
-- how the others could be reached (build_retarget_plan_report, Admission/Retarget.antt); which
-- tensors and pairs of matrices its file has (safetensor_manifest_from_header and
-- collect_lora_pairs, Admission/Manifest.antt); and whether they are complete
-- (build_transform_smoke_report, Admission/Smoke.antt). The load canary and the lab evaluation
-- follow from the target report (build_load_canary_report and build_lab_eval_report,
-- Admission/Canary.antt), and an inventory of the runtime's source says who owns o_proj
-- (build_o_proj_ownership_report, Admission/Owner.antt). The context map says where the runtime
-- holds the pairs (build_context_map_report, Admission/Context.antt), and their products become the
-- tensors of a file (_packed_delta_specs, Admission/Delta.antt, and build_packed_delta_report,
-- Admission/Written.antt). The products themselves are a parameter, and so are Python's str of a
-- value, int of a text and the decimal digits of a regular expression.
--
-- How the code is modelled. A class is a record and a method a function from the record to what it
-- returns and the record after; a raised exception is none, or the error's code. Where the source
-- matches on a text the model does too (Text.antt has str.strip); Json.antt has the values of json.
-- Numbers that the source takes from a clock are arguments in milliseconds. The renderer, httpx,
-- the disk, base64, json.loads and the UTF-8 of a control frame are arguments: functions, or the
-- result that they give; the UTF-8 of a stream is decoded in Serve/Sse/Utf8.antt. A history is a
-- list of calls: run for a session and its machine, run_with for a session whose surroundings
-- raise, acts for the manager, use_gate for the gate and report for the counters. Only the loop of
-- the stream parser and the printing of a layer's number have fuel: the size of its buffer, which
-- each event that is split off makes smaller (Serve/Sse/Chunks.antt), and the number itself and one
-- more, since it has no more digits (Admission/Delta/Digits.antt); every other loop is a recursion
-- over a list or over the number of its rounds.
--
-- What is not modelled: the watchdog thread, what else runs between the waits of one stop, logging,
-- the aiortc and FastAPI glue, float pacing and resampling, the image work of the renderers, the
-- reading of settings from the environment, the parts of receipts and capabilities that only copy
-- settings, the speech engines, the Markdown texts, and of the admission scripts the downloads, the
-- command lines, the reports on a container image and the patches of another project's source.
mod Prelude
pub mod Text
pub mod Json
pub mod Avatar
pub mod Serve
pub mod Evals
pub mod Tts
pub mod Admission

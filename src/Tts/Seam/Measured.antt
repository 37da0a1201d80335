-- ===== src/Tts/Seam/Measured.antt =====
-- What `instrument_stream` of hydralisk/tts/seam.py passes on and measures.
use hydralisk.Prelude.{
  ℕ, ◌+◌, ◌<◌, ◌≡◌, refl, arith, Bool, true, false, Option, none, some, List, [], ◌∷◌, ◌++◌, length,
  flatten, length-append, All, ap, ◌∙◌,
}
use hydralisk.Tts.Seam.{
  TtsAdapter, VoiceRef, SynthesisMetrics, Finish, exhausted, adapter_failed, cancelled,
  disconnected, Chunk, yielded, measure_chunk, measure_chunks, finish_stream, new_synthesis,
  instrument_stream, first_time,
}

-- The bytes of the adapter.
abbrev pub all_bytes : List Chunk → List ℕ
all_bytes [] = []
all_bytes ((bytes, at) ∷ chunks) = bytes ++ all_bytes chunks

abbrev has_value {ℓ} : {A : Type ℓ} → Option A → Bool
has_value none = false
has_value (some a) = true

abbrev any_sound : List ℕ → Bool
any_sound [] = false
any_sound (b ∷ bytes) = true

-- The measurements are those of the bytes that are passed on.
pub record IsMeasured (chunks : List Chunk) (m : SynthesisMetrics) : Type 0 where
  pub same_bytes : flatten (yielded chunks) ≡ all_bytes chunks
  pub no_empty_chunk : All (λ bytes. 0 < length bytes) (yielded chunks)
  pub chunks_counted : m.chunks_out ≡ length (yielded chunks)
  pub bytes_counted : m.bytes_out ≡ length (all_bytes chunks)
  pub first_timed : has_value m.ms_to_first_chunk ≡ any_sound (all_bytes chunks)

flatten-yielded : (chunks : List Chunk) → flatten (yielded chunks) ≡ all_bytes chunks
flatten-yielded [] = refl
flatten-yielded (([], at) ∷ chunks) = flatten-yielded chunks
flatten-yielded ((b ∷ bytes, at) ∷ chunks) = ap (λ t. b ∷ bytes ++ t) (flatten-yielded chunks)

yielded-All : (chunks : List Chunk) → All (λ bytes. 0 < length bytes) (yielded chunks)
yielded-All [] = tt
yielded-All (([], at) ∷ chunks) = yielded-All chunks
yielded-All ((b ∷ bytes, at) ∷ chunks) = (omega arith, yielded-All chunks)

chunks_out-measure_chunks :
    (chunks : List Chunk) (m : SynthesisMetrics)
    → (measure_chunks chunks m).chunks_out ≡ m.chunks_out + length (yielded chunks)
unfolding measure_chunks measure_chunk
chunks_out-measure_chunks [] m = omega arith
chunks_out-measure_chunks (([], at) ∷ chunks) m = chunks_out-measure_chunks chunks m
chunks_out-measure_chunks ((b ∷ bytes, at) ∷ chunks) m =
    omega (arith, chunks_out-measure_chunks chunks (measure_chunk (b ∷ bytes, at) m).1)

bytes_out-measure_chunks :
    (chunks : List Chunk) (m : SynthesisMetrics)
    → (measure_chunks chunks m).bytes_out ≡ m.bytes_out + length (all_bytes chunks)
unfolding measure_chunks measure_chunk
bytes_out-measure_chunks [] m = omega arith
bytes_out-measure_chunks (([], at) ∷ chunks) m = bytes_out-measure_chunks chunks m
bytes_out-measure_chunks ((b ∷ bytes, at) ∷ chunks) m = omega (
  arith,
  bytes_out-measure_chunks chunks (measure_chunk (b ∷ bytes, at) m).1,
  length-append bytes (all_bytes chunks),
)

some_time : (o : Option ℕ) (at : ℕ) → has_value (first_time o at) ≡ true
some_time none at = refl
some_time (some first) at = refl

timed :
    (chunks : List Chunk) (m : SynthesisMetrics)
    → has_value m.ms_to_first_chunk ≡ true
    → has_value (measure_chunks chunks m).ms_to_first_chunk ≡ true
unfolding measure_chunks measure_chunk
timed [] m h = h
timed (([], at) ∷ chunks) m h = timed chunks m h
timed ((b ∷ bytes, at) ∷ chunks) m h = timed chunks _ (some_time m.ms_to_first_chunk at)

first_timed_from :
    (chunks : List Chunk) (m : SynthesisMetrics)
    → m.ms_to_first_chunk ≡ none
    → has_value (measure_chunks chunks m).ms_to_first_chunk ≡ any_sound (all_bytes chunks)
unfolding measure_chunks measure_chunk
first_timed_from [] m h = ap has_value h
first_timed_from (([], at) ∷ chunks) m h = first_timed_from chunks m h
first_timed_from ((b ∷ bytes, at) ∷ chunks) m h = timed chunks _ (some_time m.ms_to_first_chunk at)

finish_stream_keeps :
    (finish : Finish) (m : SynthesisMetrics)
    → ((finish_stream finish m).chunks_out ≡ m.chunks_out)
      × ((finish_stream finish m).bytes_out ≡ m.bytes_out)
      × ((finish_stream finish m).ms_to_first_chunk ≡ m.ms_to_first_chunk)
unfolding finish_stream
finish_stream_keeps (exhausted at) m = (refl, refl, refl)
finish_stream_keeps (adapter_failed name at) m = (refl, refl, refl)
finish_stream_keeps (cancelled at) m = (refl, refl, refl)
finish_stream_keeps disconnected m = (refl, refl, refl)

-- However the adapter's stream ends, what is passed on of it are its bytes in order, in chunks of at
-- least one byte, and the metrics count these chunks and bytes; the time of a first chunk is set
-- exactly if there was a byte.
pub instrument_stream-IsMeasured :
    (adapter : TtsAdapter) (chars_in : ℕ) (voice_ref : Option VoiceRef) (chunks : List Chunk)
    (finish : Finish)
    → IsMeasured chunks (instrument_stream adapter chars_in voice_ref chunks finish)
unfolding instrument_stream new_synthesis
instrument_stream-IsMeasured adapter chars_in voice_ref chunks finish =
    let start = new_synthesis adapter chars_in voice_ref in
    let kept = finish_stream_keeps finish (measure_chunks chunks start) in
    record {
      same_bytes = flatten-yielded chunks;
      no_empty_chunk = yielded-All chunks;
      chunks_counted = kept.0 ∙ chunks_out-measure_chunks chunks start ∙ omega arith;
      bytes_counted = kept.1 ∙ bytes_out-measure_chunks chunks start ∙ omega arith;
      first_timed = ap has_value kept.2 ∙ first_timed_from chunks start refl;
    }

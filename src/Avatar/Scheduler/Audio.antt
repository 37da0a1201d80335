-- ===== src/Avatar/Scheduler/Audio.antt =====
-- The audio that the frames of hydralisk/avatar/scheduler.py carry.
use hydralisk.Prelude.{
  ℕ, zero, suc, ◌-◌, ◌*◌, max, ◌≡◌, refl, sym, ap, ◌∙◌, Bool, true, false, not, ◌||◌, List, [], ◌∷◌,
  ◌++◌, append-nil, append_assoc, arith, leb, length, take, drop, replicate, flatten, All-append,
  All-take, All-drop, All-replicate, length-append, length-take, length-replicate, take-append-drop,
  flatten-append, flatten-replicate, if_cases, take-nil, drop-nil,
}
use hydralisk.Avatar.State.{AvatarState, speaking, same_state}
use hydralisk.Avatar.Audio.{Sample, Assembler, pop, is_empty}
use hydralisk.Avatar.Audio.Stream.{contents, AreChunks, IsValid}
use hydralisk.Avatar.Scheduler.{
  FrameScheduler, Taken, Audio, silence_chunk, take_chunks, taken, consume, take_audio, silent,
}

abbrev pub waits {ℓ} : {A : Type ℓ} → List A → Bool
waits xs = not (is_empty xs)

Taken-eq :
    {cs ds : List (List Sample)} {b c : Bool} {p q : Assembler}
    → cs ≡ ds
    → b ≡ c
    → p ≡ q
    → ◌≡◌ {A = Taken}
        (record { chunks = cs; consumed_any = b; rest = p })
        (record { chunks = ds; consumed_any = c; rest = q })
Taken-eq e f g = λ i. record { chunks = e i; consumed_any = f i; rest = g i }

or-false : (b : Bool) → b ≡ b || false
or-false b = ground arith

or-true : (b : Bool) → b || true ≡ true
or-true b = ground arith

silence_pad :
    (k : ℕ) (silence : List Sample)
    → silence ∷ (take k [] ++ replicate (k - 0) silence) ≡ replicate (suc k - 0) silence
silence_pad k silence = rw take-nil (
    ap (λ j. silence ∷ replicate j silence) {y = k} (omega arith)
    ∙ ap (λ j. replicate j silence) {x = suc k} (omega arith))

-- The loop over a frame's chunks in closed form.
take_chunks_lem :
    (k : ℕ) (silence : List Sample) (cs : List (List Sample)) (b : Bool) (a : Assembler)
    (q : List (List Sample))
    → take_chunks k silence
        (record { chunks = cs; consumed_any = b; rest = record a { chunks = q } })
      ≡ record {
        chunks = cs ++ (take k q ++ replicate (k - length q) silence);
        consumed_any = b || waits (take k q);
        rest = record a { chunks = drop k q };
      }
unfolding take_chunks pop
take_chunks_lem zero silence cs b a q =
    Taken-eq (sym (append-nil cs) ∙ ap (λ k. cs ++ replicate k silence) {x = 0} (omega arith))
      (or-false b) refl
take_chunks_lem (suc k) silence cs b a [] =
    take_chunks_lem k silence (cs ++ silence ∷ []) b a []
    ∙ Taken-eq
        (append_assoc cs (silence ∷ []) (take k [] ++ replicate (k - 0) silence)
          ∙ ap (λ t. cs ++ t) (silence_pad k silence))
        (ap (λ (t : List (List Sample)). b || waits t) (take-nil k))
        (ap (λ t. record a { chunks = t }) (drop-nil k))
take_chunks_lem (suc k) silence cs b a (c ∷ q) =
    take_chunks_lem k silence (cs ++ c ∷ []) true a q
    ∙ Taken-eq
        (append_assoc cs (c ∷ []) (take k q ++ replicate (k - length q) silence)
          ∙ ap (λ (j : ℕ). cs ++ c ∷ (take k q ++ replicate j silence)) (omega arith))
        (sym (or-true b)) refl

-- What one frame takes: `k` chunks of `n` samples, some of the stream's front and then silence; the
-- rest of the stream stays. Where the frame is not marked as speech, it takes nothing.
pub record Carries (n k : ℕ) (before : Assembler) (chunks : List (List Sample)) (spoke : Bool)
    (after : Assembler) : Type 0 where
  pub count : length chunks ≡ k
  pub sized : AreChunks n chunks
  pub played : List Sample
  pub silence : ℕ
  pub audio : flatten chunks ≡ played ++ replicate silence 0
  pub stream : contents before ≡ played ++ contents after
  pub mute : spoke ≡ false → played ≡ []
  pub valid : IsValid after

abbrev pub IsReady : FrameScheduler → Type 0
IsReady s = IsValid s.assembler × (s.assembler.chunk_samples ≡ s.chunk_samples)

abbrev pub CarriesAudio : FrameScheduler → Audio → Type 0
CarriesAudio s a =
    Carries s.chunk_samples s.audio_chunks_per_frame s.assembler a.0 a.1 a.2.assembler

silent-Carries : (s : FrameScheduler) → IsReady s → CarriesAudio s (silent s)
silent-Carries s v = record {
  count = length-replicate s.audio_chunks_per_frame (silence_chunk s);
  sized =
      All-replicate _ s.audio_chunks_per_frame (silence_chunk s)
        (length-replicate s.chunk_samples 0);
  played = [];
  silence = s.audio_chunks_per_frame * s.chunk_samples;
  audio = flatten-replicate s.audio_chunks_per_frame s.chunk_samples 0;
  stream = refl;
  mute = λ _. refl;
  valid = v.0;
}

pub taken_lem :
    (s : FrameScheduler)
    → taken s ≡ record {
      chunks =
          take s.audio_chunks_per_frame s.assembler.chunks
          ++ replicate (s.audio_chunks_per_frame - length s.assembler.chunks) (silence_chunk s);
      consumed_any = waits (take s.audio_chunks_per_frame s.assembler.chunks);
      rest = record s.assembler { chunks = drop s.audio_chunks_per_frame s.assembler.chunks };
    }
taken_lem s =
    take_chunks_lem s.audio_chunks_per_frame (silence_chunk s) [] false s.assembler
      s.assembler.chunks

taken-Carries :
    (s : FrameScheduler)
    → IsReady s
    → Carries s.chunk_samples s.audio_chunks_per_frame s.assembler
        (taken s).chunks
        (taken s).consumed_any
        (taken s).rest
taken-Carries s v = rw taken_lem (record {
  count = omega (
    arith,
    length-append (take k q) (replicate (k - length q) (silence_chunk s)),
    length-take k q,
    length-replicate (k - length q) (silence_chunk s),
  );
  sized =
      All-append _ (take k q) _ (All-take _ k q (rw v.1 at v.0.full_chunks))
        (All-replicate _ (k - length q) (silence_chunk s) (length-replicate s.chunk_samples 0));
  played = flatten (take k q);
  silence = (k - length q) * s.chunk_samples;
  audio =
      flatten-append (take k q) (replicate (k - length q) (silence_chunk s))
      ∙ ap (λ t. flatten (take k q) ++ t) (flatten-replicate (k - length q) s.chunk_samples 0);
  stream =
      ap (λ t. t ++ s.assembler.pending)
        (ap flatten (sym (take-append-drop k q)) ∙ flatten-append (take k q) (drop k q))
      ∙ append_assoc (flatten (take k q)) (flatten (drop k q)) s.assembler.pending;
  mute = λ e. no_chunks (take k q) e;
  valid = record {
    size_pos = v.0.size_pos;
    full_chunks = All-drop _ k q v.0.full_chunks;
    short_tail = v.0.short_tail;
  };
})
  where
    k : ℕ
    k = s.audio_chunks_per_frame

    q : List (List Sample)
    q = s.assembler.chunks

    no_chunks : (xs : List (List Sample)) → waits xs ≡ false → flatten xs ≡ []
    no_chunks [] e = refl
    no_chunks (x ∷ xs) e = cc

pub take_audio-Carries :
    (state : AvatarState) (s : FrameScheduler) → IsReady s → CarriesAudio s (take_audio state s)
unfolding take_audio consume
take_audio-Carries state s v =
    if_cases (CarriesAudio s) (not (same_state state speaking)) _ _ (λ _. silent-Carries s v)
      λ _.
        if_cases (CarriesAudio s) s.jitter_gate_open _ _ (λ _. taken-Carries s v)
          λ _.
            if_cases (CarriesAudio s)
              (leb (max 1 s.jitter_buffer_chunks) (length s.assembler.chunks)) _ _
              (λ _. taken-Carries (record s { jitter_gate_open = true }) v)
              (λ _. silent-Carries s v)

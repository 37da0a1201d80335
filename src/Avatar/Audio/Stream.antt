-- ===== src/Avatar/Audio/Stream.antt =====
-- `PcmChunkAssembler` of hydralisk/avatar/audio.py as a queue of samples.
use native.Mathlib.Nat.{mod-lt, div-add-mod'}
use hydralisk.Prelude.{
  ℕ, zero, suc, ◌+◌, ◌-◌, ◌*◌, ◌/◌, ◌%◌, ◌≤◌, ◌<◌, ◌≡◌, refl, sym, ap, ◌∙◌, none, some, List, [],
  ◌∷◌, ◌++◌, append-nil, append_assoc, arith, length, take, drop, replicate, flatten, All,
  length-append, length-take, length-drop, length-replicate, take-append-drop, flatten-append,
  All-append, ◌⊎◌, inl, inr, Bool-cases, List-cases, ◌≢◌,
}
use mathlib.Core.Path.{◌≡⟨◌⟩◌, ◌∎}
use hydralisk.Avatar.Audio.{Sample, Assembler, slices, is_empty, push, pop, flush_tail, clear}

-- The samples that wait, in the order of their arrival.
abbrev pub contents : Assembler → List Sample
contents a = flatten a.chunks ++ a.pending

abbrev pub AreChunks : ℕ → List (List Sample) → Type 0
AreChunks n = All λ chunk. length chunk ≡ n

pub record IsValid (a : Assembler) : Type 0 where
  pub size_pos : 0 < a.chunk_samples
  pub full_chunks : AreChunks a.chunk_samples a.chunks
  pub short_tail : length a.pending < a.chunk_samples

drop-drop : (i n k : ℕ) (xs : List Sample) → i + n ≡ k → drop n (drop i xs) ≡ drop k xs
drop-drop zero n k xs e = ap (λ j. drop j xs) (omega arith)
drop-drop (suc i) zero zero xs e = absurd (omega arith)
drop-drop (suc i) (suc n) zero xs e = absurd (omega arith)
drop-drop (suc i) zero (suc k) [] e = refl
drop-drop (suc i) (suc n) (suc k) [] e = refl
drop-drop (suc i) n (suc k) (x ∷ xs) e = drop-drop i n k xs (omega arith)

-- The slices cut the buffer without loss, from slice `i` on.
flatten-slices :
    (n : ℕ) (xs : List Sample) (i k j : ℕ)
    → i + k ≡ j
    → flatten (slices n xs i k) ++ drop (j * n) xs ≡ drop (i * n) xs
unfolding slices
flatten-slices n xs i zero j e = ap (λ t. drop (t * n) xs) (omega arith)
flatten-slices n xs i (suc k) j e =
    (take n (drop (i * n) xs) ++ flatten (slices n xs (i + 1) k)) ++ drop (j * n) xs
    ≡⟨ append_assoc (take n (drop (i * n) xs)) (flatten (slices n xs (i + 1) k)) (drop (j * n) xs) ⟩
      take n (drop (i * n) xs) ++ (flatten (slices n xs (i + 1) k) ++ drop (j * n) xs)
    ≡⟨ ap (λ t. take n (drop (i * n) xs) ++ t) (flatten-slices n xs (i + 1) k j (omega arith)) ⟩
      take n (drop (i * n) xs) ++ drop ((i + 1) * n) xs
    ≡⟨ ap (λ t. take n (drop (i * n) xs) ++ t)
        (sym (drop-drop (i * n) n ((i + 1) * n) xs (omega arith))) ⟩
      take n (drop (i * n) xs) ++ drop n (drop (i * n) xs)
    ≡⟨ take-append-drop n (drop (i * n) xs) ⟩ drop (i * n) xs ∎

slices-AreChunks :
    (n : ℕ) (xs : List Sample) (i k : ℕ) → (i + k) * n ≤ length xs → AreChunks n (slices n xs i k)
unfolding slices
slices-AreChunks n xs i zero h = tt
slices-AreChunks n xs i (suc k) h = (
  grind (arith, length-take n (drop (i * n) xs), length-drop (i * n) xs),
  slices-AreChunks n xs (i + 1) k (omega arith),
)

-- Nothing is lost, made up or reordered: a push appends its samples to those that wait.
pub contents-push : (s : List Sample) (a : Assembler) → contents (push s a) ≡ contents a ++ s
unfolding push
contents-push [] a = sym (append-nil (contents a))
contents-push (x ∷ xs) a =
    flatten (a.chunks ++ cut) ++ tail
    ≡⟨ ap (λ t. t ++ tail) (flatten-append a.chunks cut)
      ∙ append_assoc (flatten a.chunks) (flatten cut) tail ⟩
      flatten a.chunks ++ (flatten cut ++ tail)
    ≡⟨ ap (λ t. flatten a.chunks ++ t)
        (flatten-slices a.chunk_samples buffered 0 full full (omega arith)) ⟩
      flatten a.chunks ++ drop (0 * a.chunk_samples) buffered
    ≡⟨ ap (λ t. flatten a.chunks ++ drop t buffered) {y = 0} (omega arith) ⟩
      flatten a.chunks ++ buffered
    ≡⟨ sym (append_assoc (flatten a.chunks) a.pending (x ∷ xs)) ⟩ contents a ++ x ∷ xs ∎
  where
    buffered : List Sample
    buffered = a.pending ++ x ∷ xs

    full : ℕ
    full = length buffered / a.chunk_samples

    cut : List (List Sample)
    cut = slices a.chunk_samples buffered 0 full

    tail : List Sample
    tail = drop (full * a.chunk_samples) buffered

pub push-IsValid : (s : List Sample) (a : Assembler) → IsValid a → IsValid (push s a)
unfolding push
push-IsValid [] a v = v
push-IsValid (x ∷ xs) a v = record {
  size_pos = v.size_pos;
  full_chunks =
      All-append _ a.chunks _ v.full_chunks
        (slices-AreChunks a.chunk_samples buffered 0 full (omega (arith, cut)));
  short_tail = omega (
    arith,
    cut,
    mod-lt (length buffered) v.size_pos,
    length-drop (full * a.chunk_samples) buffered,
  );
}
  where
    buffered : List Sample
    buffered = a.pending ++ x ∷ xs

    full : ℕ
    full = length buffered / a.chunk_samples

    cut : full * a.chunk_samples + length buffered % a.chunk_samples ≡ length buffered
    cut = div-add-mod' (length buffered) a.chunk_samples

pub pop-IsValid : (a : Assembler) → IsValid a → IsValid (pop a).1
unfolding pop
pop-IsValid a v = ground arith

abbrev padded : Assembler → List Sample
padded a = a.pending ++ drop (length a.pending) (replicate a.chunk_samples 0)

length-padded :
    (a : Assembler) → length a.pending < a.chunk_samples → length (padded a) ≡ a.chunk_samples
length-padded a h = omega (
  arith,
  length-append a.pending (drop (length a.pending) (replicate a.chunk_samples 0)),
  length-drop (length a.pending) (replicate {A = Sample} a.chunk_samples 0),
  length-replicate {A = Sample} a.chunk_samples 0,
)

-- What `flush_tail` leaves, by whether a partial tail waits.
abbrev flushed : Assembler → Assembler
flushed a = record a { chunks = a.chunks ++ padded a ∷ []; pending = [] }

flush_tail_cases {ℓ} :
    (P : Assembler → Type ℓ) (a : Assembler)
    → (a.pending ≡ [] → P a)
    → (a.pending ≢ [] → P (flushed a))
    → P (flush_tail a)
unfolding flush_tail
flush_tail_cases P a none_left some_left = elim (Bool-cases (is_empty a.pending)) [
  | inl e ↦ rw e (none_left (ground arith))
  | inr e ↦ rw e (some_left (ground arith))
]

pub flush_tail-IsValid : (a : Assembler) → IsValid a → IsValid (flush_tail a)
flush_tail-IsValid a v =
    flush_tail_cases IsValid a (λ _. v)
      λ _. record {
        size_pos = v.size_pos;
        full_chunks =
            All-append (λ (c : List Sample). length c ≡ a.chunk_samples) a.chunks (padded a ∷ [])
              v.full_chunks (length-padded a v.short_tail, tt);
        short_tail = v.size_pos;
      }

pub chunk_samples-flush_tail : (a : Assembler) → (flush_tail a).chunk_samples ≡ a.chunk_samples
chunk_samples-flush_tail a =
    flush_tail_cases (λ b. b.chunk_samples ≡ a.chunk_samples) a (λ _. refl) (λ _. refl)

pub clear-IsValid : (a : Assembler) → IsValid a → IsValid (clear a)
unfolding clear
clear-IsValid a v = record { size_pos = v.size_pos; full_chunks = tt; short_tail = v.size_pos }

drop-replicate : (i n : ℕ) (x : Sample) → drop i (replicate n x) ≡ replicate (n - i) x
drop-replicate zero n x = ap (λ k. replicate k x) (omega arith)
drop-replicate (suc i) zero x = ap (λ k. replicate k x) {x = 0} (omega arith)
drop-replicate (suc i) (suc n) x = drop-replicate i n x ∙ ap (λ k. replicate k x) (omega arith)

-- The end of an utterance adds silence only, less than a chunk of it, and leaves no partial tail.
pub flush_tail_lem :
    (a : Assembler)
    → IsValid a
    → (k : ℕ) × (contents (flush_tail a) ≡ contents a ++ replicate k 0)
      × (k < a.chunk_samples)
      × ((flush_tail a).pending ≡ [])
      × ((a.pending ≡ []) ⊎ (0 < k))
flush_tail_lem a v =
    flush_tail_cases
      (λ b.
        (k : ℕ) × (contents b ≡ contents a ++ replicate k 0)
        × (k < a.chunk_samples)
        × (b.pending ≡ [])
        × ((a.pending ≡ []) ⊎ (0 < k)))
      a (λ e. (0, sym (append-nil (contents a)), v.size_pos, e, inl e))
      λ e. (
        a.chunk_samples - length a.pending,
        padding,
        shorter e,
        refl,
        inr (omega (arith, v.short_tail)),
      )
  where
    shorter : a.pending ≢ [] → a.chunk_samples - length a.pending < a.chunk_samples
    shorter h = elim (List-cases a.pending) [
      | inl e ↦ absurd (h e)
      | inr (x, xs, e) ↦ omega (arith, ap length e, v.short_tail)
    ]

    padding : contents (flushed a) ≡ contents a ++ replicate (a.chunk_samples - length a.pending) 0
    padding = simp (flatten-append, append_assoc, append-nil, drop-replicate)

-- `pop` takes the oldest chunk off the front of the stream, whole; it gives nothing only where no
-- whole chunk waits, and then changes nothing.
pub pop_lem :
    (a : Assembler)
    → ((a.chunks ≡ []) × (pop a ≡ (none, a)))
      ⊎ ((c : List Sample) × ((pop a).0 ≡ some c) × (contents a ≡ c ++ contents (pop a).1))
unfolding pop
pop_lem a = elim (List-cases a.chunks) [
  | inl e ↦ inl (e, ground (arith, e))
  | inr (c, rest, e) ↦
      inr (c, ground (arith, e), ground (arith, e, append_assoc c (flatten rest) a.pending))
]

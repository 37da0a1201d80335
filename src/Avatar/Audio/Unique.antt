-- ===== src/Avatar/Audio/Unique.antt =====
-- The chunks of hydralisk/avatar/audio.py depend on the samples alone, not on how they arrived.
use mathlib.Core.Path.{ap₂}
use hydralisk.Prelude.{
  ℕ, ◌<◌, ◌≡◌, refl, sym, ap, ◌∙◌, List, [], ◌∷◌, ◌++◌, append_assoc, arith, length, flatten,
  length-append,
}
use hydralisk.Avatar.Audio.{Sample, Assembler, push}
use hydralisk.Avatar.Audio.Stream.{contents, AreChunks, IsValid, contents-push, push-IsValid}

append_inj :
    (xs ys us vs : List Sample)
    → length xs ≡ length ys
    → xs ++ us ≡ ys ++ vs
    → (xs ≡ ys) × (us ≡ vs)
append_inj [] [] us vs h e = (refl, e)
append_inj [] (y ∷ ys) us vs h e = absurd (omega arith)
append_inj (x ∷ xs) [] us vs h e = absurd (omega arith)
append_inj (x ∷ xs) (y ∷ ys) us vs h e = ground (arith, append_inj xs ys us vs)

chunks_unique :
    (n : ℕ) (cs ds : List (List Sample)) (p q : List Sample)
    → AreChunks n cs
    → AreChunks n ds
    → length p < n
    → length q < n
    → flatten cs ++ p ≡ flatten ds ++ q
    → (cs ≡ ds) × (p ≡ q)
chunks_unique n [] [] p q ha hb hp hq e = (refl, e)
chunks_unique n [] (d ∷ ds) p q ha hb hp hq e =
    absurd
      (omega (arith, ap length e, length-append (d ++ flatten ds) q, length-append d (flatten ds)))
chunks_unique n (c ∷ cs) [] p q ha hb hp hq e =
    absurd
      (omega (arith, ap length e, length-append (c ++ flatten cs) p, length-append c (flatten cs)))
chunks_unique n (c ∷ cs) (d ∷ ds) p q ha hb hp hq e =
    let (same, rest) =
      append_inj c d (flatten cs ++ p) (flatten ds ++ q) (omega arith)
        (sym (append_assoc c (flatten cs) p) ∙ e ∙ append_assoc d (flatten ds) q) in
    let (sames, tails) = chunks_unique n cs ds p q ha.1 hb.1 hp hq rest in
    (ap₂ ◌∷◌ same sames, tails)

-- A valid assembler is determined by its chunk size and the samples that wait in it.
pub assembler_unique :
    (a b : Assembler)
    → IsValid a
    → IsValid b
    → a.chunk_samples ≡ b.chunk_samples
    → contents a ≡ contents b
    → a ≡ b
assembler_unique a b va vb size e =
    let (chunks, tails) =
      chunks_unique a.chunk_samples a.chunks b.chunks a.pending b.pending va.full_chunks
        (rw size vb.full_chunks) va.short_tail (rw size vb.short_tail) e in
    λ i. record { chunk_samples = size i; chunks = chunks i; pending = tails i }

chunk_samples-push : (s : List Sample) (a : Assembler) → (push s a).chunk_samples ≡ a.chunk_samples
unfolding push
chunk_samples-push [] a = refl
chunk_samples-push (x ∷ s) a = refl

-- Cutting a write in two makes no difference: the chunks are those of one write.
pub push-append :
    (a : Assembler) (xs ys : List Sample) → IsValid a → push (xs ++ ys) a ≡ push ys (push xs a)
push-append a xs ys v =
    assembler_unique (push (xs ++ ys) a) (push ys (push xs a)) (push-IsValid (xs ++ ys) a v)
      (push-IsValid ys (push xs a) (push-IsValid xs a v))
      (chunk_samples-push (xs ++ ys) a
        ∙ sym (chunk_samples-push ys (push xs a) ∙ chunk_samples-push xs a))
      (contents-push (xs ++ ys) a
        ∙ sym (append_assoc (contents a) xs ys)
        ∙ ap (λ t. t ++ ys) (sym (contents-push xs a))
        ∙ sym (contents-push ys (push xs a)))

-- ===== src/Tts/Normalize/Dots.antt =====
-- What the last step of hydralisk/tts/normalize.py leaves of the dots.
use hydralisk.Prelude.{
  ℕ, ◌≡◌, ◌∙◌, refl, arith, Bool, true, false, not, ◌&&◌, [], ◌∷◌, ◌==◌, Bool-cases, inl, inr,
  if_cases,
}
use hydralisk.Tts.Normalize.{Text, Style, one_dot, collapse_dots, spell_text, normalize_spoken}

-- No two dots that are not part of three.
abbrev pub NoDouble : Bool → Text → Type 0
NoDouble after_dot [] = Unit
NoDouble after_dot (c ∷ s) = (c == 46 && not after_dot && one_dot s ≡ false) × NoDouble (c == 46) s

collapse_fixed :
    (after_dot : Bool) (s : Text) → NoDouble after_dot s → collapse_dots after_dot s ≡ s
unfolding collapse_dots
collapse_fixed after_dot [] h = refl
collapse_fixed after_dot (c ∷ s) h = simp (h.0, collapse_fixed (c == 46) s h.1)

one_dot-collapse_dots : (s : Text) → one_dot (collapse_dots true s) ≡ one_dot s
unfolding collapse_dots
one_dot-collapse_dots [] = refl
one_dot-collapse_dots (c ∷ []) = ground arith
one_dot-collapse_dots (c ∷ d ∷ s) = ground arith

NoDouble-relax : (t : Text) → one_dot t ≡ true → NoDouble true t → NoDouble false t
NoDouble-relax [] e h = tt
NoDouble-relax (c ∷ []) e h = (ground arith, tt)
NoDouble-relax (c ∷ d ∷ s) e h = (ground (arith, e), h.1)

first_kept :
    (after_dot : Bool) (c : ℕ) (s : Text)
    → c == 46 && not after_dot && one_dot s ≡ false
    → c == 46 && not after_dot && one_dot (collapse_dots (c == 46) s) ≡ false
first_kept after_dot c s e = elim (Bool-cases (c == 46)) [
  | inl h ↦ rw (h, one_dot-collapse_dots s) (rw (h) at e)
  | inr h ↦ rw (h) refl
]

first_dropped :
    (after_dot : Bool) (c : ℕ) (s : Text)
    → c == 46 && not after_dot && one_dot s ≡ true
    → NoDouble (c == 46) (collapse_dots (c == 46) s)
    → NoDouble after_dot (collapse_dots (c == 46) s)
first_dropped true c s e h = absurd (ground (arith, e))
first_dropped false c s e h = elim (Bool-cases (c == 46)) [
  | inl f ↦ rw (f) (
      NoDouble-relax (collapse_dots true s) (one_dot-collapse_dots s ∙ ground (arith, e, f))
        (rw (f) at h))
  | inr f ↦ absurd (ground (arith, e, f))
]

collapse_dots-NoDouble :
    (after_dot : Bool) (s : Text) → NoDouble after_dot (collapse_dots after_dot s)
unfolding collapse_dots
collapse_dots-NoDouble after_dot [] = tt
collapse_dots-NoDouble after_dot (c ∷ s) =
    if_cases (NoDouble after_dot) (c == 46 && not after_dot && one_dot s) _ _
      (λ e. first_dropped after_dot c s e (collapse_dots-NoDouble (c == 46) s))
      (λ e. (first_kept after_dot c s e, collapse_dots-NoDouble (c == 46) s))

-- What a text is turned into for a voice has no two dots next to each other, except as part of a
-- longer row of dots.
pub normalize_spoken-NoDouble :
    (is_word_beyond : ℕ → Bool) (style : Style) (text : Text)
    → NoDouble false (normalize_spoken is_word_beyond style text)
unfolding normalize_spoken
normalize_spoken-NoDouble is_word_beyond style text =
    collapse_dots-NoDouble false (spell_text is_word_beyond style text)

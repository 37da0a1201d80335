-- ===== src/Tts/Normalize/Words.antt =====
-- Spelling out words twice, in hydralisk/tts/normalize.py, does what doing it once does.
use hydralisk.Prelude.{
  ℕ, ◌≡◌, ◌∙◌, sym, ap, refl, arith, Bool, true, false, not, ◌&&◌, List, [], ◌∷◌, ◌++◌,
  append_assoc, append-nil, leb, Bool-cases, inl, inr, if_cases, All, length, ◌⊎◌, All-append,
}
use hydralisk.Tts.Normalize.{
  Text, Style, punctuated, spelled, LexiconEntry, same_text, is_upper, is_letter, is_alnum, dotted,
  spaced, spoken_lexicon, allowlist, in_texts, all_upper, heuristic_spell_out, spoken_of, speak_in,
  speak_word, extends, speak_words,
}

and_false : (b : Bool) → (b && false) ≡ false
and_false true = refl
and_false false = refl

module _ (style : Style) where
  -- Spelling out leaves a text as it is.
  abbrev Stable : Text → Type 0
  Stable text = speak_words style [] text ≡ text

  no_letter : (c : ℕ) → is_alnum c ≡ false → is_letter c ≡ false
  no_letter c e = ground (arith, e)

  upper_letter : (c : ℕ) → is_upper c ≡ true → is_letter c ≡ true
  upper_letter c e = ground (arith, e)

  head_upper : (c : ℕ) (token : Text) → all_upper (c ∷ token) ≡ true → is_upper c ≡ true
  head_upper c token e = ground (arith, e)

  tail_upper : (c : ℕ) (token : Text) → all_upper (c ∷ token) ≡ true → all_upper token ≡ true
  tail_upper c token e = ground (arith, e)

  -- A character that ends every word parts the text.
  speak_words-append :
      (word x : Text) (c : ℕ) (t : Text)
      → is_alnum c ≡ false
      → speak_words style word (x ++ c ∷ t) ≡ speak_words style word x ++ c ∷ speak_words style [] t
  unfolding speak_words
  speak_words-append [] [] c t e = rw (no_letter c e) refl
  speak_words-append (w ∷ word) [] c t e = rw (e) refl
  speak_words-append word (d ∷ x) c t e = elim (Bool-cases (extends word d)) [
    | inl h ↦ rw (h) (speak_words-append (word ++ d ∷ []) x c t e)
    | inr h ↦ rw (h) (
        ap (λ r. speak_word style word ++ d ∷ r) (speak_words-append [] x c t e)
        ∙ sym (append_assoc (speak_word style word) (d ∷ speak_words style [] x) _))
  ]

  short : (c : ℕ) → speak_word style (c ∷ []) ≡ c ∷ []
  unfolding speak_word speak_in heuristic_spell_out
  short c = simp (and_false)

  nothing : speak_word style [] ≡ []
  unfolding speak_word speak_in heuristic_spell_out
  nothing = refl

  -- A word that is spelled out, letter by letter.
  speak_words-letter :
      (c d : ℕ) (t : Text)
      → is_upper c ≡ true
      → is_alnum d ≡ false
      → speak_words style [] (c ∷ d ∷ t) ≡ c ∷ d ∷ speak_words style [] t
  unfolding speak_words
  speak_words-letter c d t u e =
      rw (upper_letter c u, e) (ap (λ w. w ++ d ∷ speak_words style [] t) (short c))

  dotted-Stable : (token : Text) → all_upper token ≡ true → Stable (dotted token)
  unfolding dotted speak_words
  dotted-Stable [] u = nothing
  dotted-Stable (c ∷ token) u =
      speak_words-letter c 46 (dotted token) (head_upper c token u) refl
      ∙ ap (λ t. c ∷ 46 ∷ t) (dotted-Stable token (tail_upper c token u))

  spaced-Stable : (token : Text) → all_upper token ≡ true → Stable (spaced token)
  unfolding spaced speak_words
  spaced-Stable [] u = nothing
  spaced-Stable (c ∷ []) u = rw (upper_letter c (head_upper c [] u)) (short c)
  spaced-Stable (c ∷ d ∷ token) u =
      speak_words-letter c 32 (spaced (d ∷ token)) (head_upper c (d ∷ token) u) refl
      ∙ ap (λ t. c ∷ 32 ∷ t) (spaced-Stable (d ∷ token) (tail_upper c (d ∷ token) u))

  -- The rest of a word is read to its end.
  speak_words_rest :
      (w : ℕ) (word rest : Text)
      → All (λ c. is_alnum c ≡ true) rest
      → speak_words style (w ∷ word) rest ≡ speak_word style (w ∷ word ++ rest)
  unfolding speak_words
  speak_words_rest w word [] h = ap (λ t. speak_word style (w ∷ t)) (sym (append-nil word))
  speak_words_rest w word (c ∷ rest) h = rw (h.0) (
      speak_words_rest w (word ++ c ∷ []) rest h.1
      ∙ ap (λ t. speak_word style (w ∷ t)) (append_assoc word (c ∷ []) rest))

  -- A word as the pattern finds it, or no word.
  abbrev IsWord : Text → Type 0
  IsWord [] = Unit
  IsWord (c ∷ word) = (is_letter c ≡ true) × All (λ d. is_alnum d ≡ true) word

  speak_words-IsWord :
      (word : Text) → IsWord word → speak_words style [] word ≡ speak_word style word
  unfolding speak_words
  speak_words-IsWord [] h = refl
  speak_words-IsWord (c ∷ word) h = rw (h.0) (speak_words_rest c [] word h.1)

  heuristic_spell_out-Stable :
      (token : Text)
      → Stable (heuristic_spell_out style token) ⊎ (heuristic_spell_out style token ≡ token)
  unfolding heuristic_spell_out
  heuristic_spell_out-Stable token =
      if_cases (λ x. Stable x ⊎ (x ≡ token))
        (all_upper token
          && (leb 2 (length token) && leb (length token) 4)
          && not (in_texts token allowlist))
        _ _ (λ e. inl (by_style style (ground (arith, e)))) (λ _. inr refl)
    where
      by_style :
          (s : Style)
          → all_upper token ≡ true
          → Stable (elim s [ punctuated ↦ dotted token | spelled ↦ spaced token ])
      by_style punctuated u = dotted-Stable token u
      by_style spelled u = spaced-Stable token u

  speak_in-Stable :
      (lexicon : List LexiconEntry) (token : Text)
      → All (λ e. Stable (spoken_of style e)) lexicon
      → Stable (speak_in lexicon style token) ⊎ (speak_in lexicon style token ≡ token)
  unfolding speak_in
  speak_in-Stable [] token h = heuristic_spell_out-Stable token
  speak_in-Stable (e ∷ lexicon) token h =
      if_cases (λ x. Stable x ⊎ (x ≡ token)) (same_text token e.written) _ _ (λ _. inl h.0)
        (λ _. speak_in-Stable lexicon token h.1)

-- What the lexicon says has no word that is spelled out.
lexicon-Stable : (style : Style) → All (λ e. Stable style (spoken_of style e)) spoken_lexicon
unfolding speak_words speak_word speak_in heuristic_spell_out
lexicon-Stable punctuated = (
  refl,
  (refl, (refl, (refl, (refl, (refl, (refl, (refl, (refl, (refl, (refl, (refl, tt))))))))))),
)
lexicon-Stable spelled = (
  refl,
  (refl, (refl, (refl, (refl, (refl, (refl, (refl, (refl, (refl, (refl, (refl, tt))))))))))),
)

module _ (style : Style) where
  speak_word-Stable : (word : Text) → IsWord style word → Stable style (speak_word style word)
  unfolding speak_word
  speak_word-Stable word h =
      elim (speak_in-Stable style spoken_lexicon word (lexicon-Stable style)) [
        | inl e ↦ e
        | inr e ↦ ap (speak_words style []) e ∙ speak_words-IsWord style word h
      ]

  word_ends :
      (word : Text) (c : ℕ) (t : Text)
      → IsWord style word
      → extends word c ≡ false
      → Stable style t
      → Stable style (speak_word style word ++ c ∷ t)
  unfolding speak_words speak_word heuristic_spell_out
  word_ends [] c t h e k =
      rw (e) (ap (λ x. x ++ c ∷ speak_words style [] t) (nothing style) ∙ ap (λ x. c ∷ x) k)
  word_ends (w ∷ word) c t h e k =
      speak_words-append style [] (speak_word style (w ∷ word)) c t e
      ∙ ap (λ x. x ++ c ∷ speak_words style [] t) (speak_word-Stable (w ∷ word) h)
      ∙ ap (λ x. speak_word style (w ∷ word) ++ c ∷ x) k

  longer :
      (word : Text) (c : ℕ)
      → IsWord style word
      → extends word c ≡ true
      → IsWord style (word ++ c ∷ [])
  longer [] c h e = (e, tt)
  longer (w ∷ word) c h e = (h.0, All-append (λ d. is_alnum d ≡ true) word (c ∷ []) h.1 (e, tt))

  speak_words_again : (word s : Text) → IsWord style word → Stable style (speak_words style word s)
  unfolding speak_words
  speak_words_again word [] h = speak_word-Stable word h
  speak_words_again word (c ∷ s) h = elim (Bool-cases (extends word c)) [
    | inl e ↦ rw (e) (speak_words_again (word ++ c ∷ []) s (longer word c h e))
    | inr e ↦ rw (e) (word_ends word c (speak_words style [] s) h e (speak_words_again [] s tt))
  ]

  -- Spelling out the words of a text a second time changes nothing, in either style.
  pub speak_words_idem :
      (text : Text) → speak_words style [] (speak_words style [] text) ≡ speak_words style [] text
  speak_words_idem text = speak_words_again [] text tt

-- ===== src/Tts/Normalize.antt =====
-- hydralisk/tts/normalize.py: the spoken form of a text, over its code points.
-- The classes of characters beyond ASCII are the argument `is_word_beyond`, Python's `\w` there.
pub mod Words
pub mod Dots
use Prim.Native.Char.{code}
use hydralisk.Prelude.{
  ℕ, zero, suc, ◌+◌, ◌-◌, String, Bool, true, false, not, ◌&&◌, ◌||◌, List, [], ◌∷◌, ◌++◌, map, ltb,
  leb, ◌==◌, if◌then◌else◌, length,
}

abbrev pub Text : Type 0
Text = List ℕ

abbrev pub codes : String → Text
codes String.[] = []
codes (String.◌∷◌ c s) = code c ∷ codes s

pub data Style : Type 0 where
  punctuated : Style
  spelled : Style

abbrev pub same_text : Text → Text → Bool
same_text [] [] = true
same_text [] (d ∷ t) = false
same_text (c ∷ s) [] = false
same_text (c ∷ s) (d ∷ t) = c == d && same_text s t

abbrev pub is_upper : ℕ → Bool
is_upper c = leb 65 c && leb c 90

abbrev pub is_lower : ℕ → Bool
is_lower c = leb 97 c && leb c 122

abbrev pub is_digit : ℕ → Bool
is_digit c = leb 48 c && leb c 57

-- `[A-Za-z]` and `[A-Za-z0-9]`
abbrev pub is_letter : ℕ → Bool
is_letter c = is_upper c || is_lower c

abbrev pub is_alnum : ℕ → Bool
is_alnum c = is_letter c || is_digit c

-- `_dotted`
unfoldable pub dotted : Text → Text
dotted [] = []
dotted (c ∷ token) = c ∷ 46 ∷ dotted token

-- `_spaced`
unfoldable pub spaced : Text → Text
spaced [] = []
spaced (c ∷ []) = c ∷ []
spaced (c ∷ d ∷ token) = c ∷ 32 ∷ spaced (d ∷ token)

-- An entry of `SPOKEN_LEXICON`.
pub record LexiconEntry : Type 0 where
  pub written : Text
  pub dots : Text
  pub spaces : Text

abbrev lexicon_entry : String → String → String → LexiconEntry
lexicon_entry written dots spaces = record {
  written = codes written;
  dots = codes dots;
  spaces = codes spaces;
}

abbrev pub spoken_lexicon : List LexiconEntry
spoken_lexicon =
    lexicon_entry "AI" "A.I." "A I"
    ∷ lexicon_entry "API" "A.P.I." "A P I"
    ∷ lexicon_entry "APIs" "A.P.I.s" "A P Is"
    ∷ lexicon_entry "CRM" "C.R.M." "C R M"
    ∷ lexicon_entry "URL" "U.R.L." "U R L"
    ∷ lexicon_entry "URLs" "U.R.L.s" "U R Ls"
    ∷ lexicon_entry "FAQ" "F.A.Q." "F A Q"
    ∷ lexicon_entry "TTS" "T.T.S." "T T S"
    ∷ lexicon_entry "QA" "Q.A." "Q A"
    ∷ lexicon_entry "MVP" "M.V.P." "M V P"
    ∷ lexicon_entry "B2B" "B two B" "B two B"
    ∷ lexicon_entry "SaaS" "sass" "sass"
    ∷ []

-- `_ALLCAPS_ALLOWLIST`
abbrev pub allowlist : List Text
allowlist = map codes (
    "A" ∷ "AM" ∷ "AN" ∷ "AS" ∷ "AT" ∷ "BE" ∷ "BY" ∷ "DO" ∷ "GO" ∷ "HE" ∷ "HI" ∷ "IF" ∷ "IN" ∷ "IS"
    ∷ "IT" ∷ "ME" ∷ "MY" ∷ "NO" ∷ "OF" ∷ "OH" ∷ "OK" ∷ "ON" ∷ "OR" ∷ "PM" ∷ "SO" ∷ "TO" ∷ "UP"
    ∷ "US" ∷ "WE" ∷ "ALL" ∷ "AND" ∷ "ARE" ∷ "BUT" ∷ "CAN" ∷ "FOR" ∷ "GET" ∷ "HER" ∷ "HIM" ∷ "HIS"
    ∷ "HOW" ∷ "NEW" ∷ "NOT" ∷ "NOW" ∷ "OUR" ∷ "OUT" ∷ "SHE" ∷ "THE" ∷ "WAS" ∷ "WHO" ∷ "WHY" ∷ "YES"
    ∷ "YOU" ∷ "BEST" ∷ "DAMN" ∷ "DATA" ∷ "DEAL" ∷ "DEMO" ∷ "DOES" ∷ "DONE" ∷ "FREE" ∷ "FROM"
    ∷ "HAVE" ∷ "HERE" ∷ "JUST" ∷ "LIVE" ∷ "MAKE" ∷ "MORE" ∷ "MOST" ∷ "NEED" ∷ "ONLY" ∷ "OVER"
    ∷ "PAIN" ∷ "REAL" ∷ "SELL" ∷ "STOP" ∷ "THAT" ∷ "THEY" ∷ "THIS" ∷ "WANT" ∷ "WHAT" ∷ "WHEN"
    ∷ "WITH" ∷ "WORK" ∷ "YOUR" ∷ [])

abbrev pub in_texts : Text → List Text → Bool
in_texts token [] = false
in_texts token (t ∷ ts) = same_text token t || in_texts token ts

abbrev pub all_upper : Text → Bool
all_upper [] = true
all_upper (c ∷ token) = is_upper c && all_upper token

-- `_heuristic_spell_out`, with the token itself for `None`. A token is ASCII and not empty, so that
-- `isupper` and `isalpha` together say that it is all capitals.
unfoldable pub heuristic_spell_out : Style → Text → Text
unfolding dotted spaced
heuristic_spell_out style token =
    if all_upper token
      && (leb 2 (length token) && leb (length token) 4)
      && not (in_texts token allowlist)
    then elim style [ punctuated ↦ dotted token | spelled ↦ spaced token ]
    else token

abbrev pub spoken_of : Style → LexiconEntry → Text
spoken_of punctuated e = e.dots
spoken_of spelled e = e.spaces

-- `_replace`
unfoldable pub speak_in : List LexiconEntry → Style → Text → Text
speak_in [] style token = heuristic_spell_out style token
speak_in (e ∷ lexicon) style token =
    let rest = speak_in lexicon style token in
    if same_text token e.written then spoken_of style e else rest

unfoldable pub speak_word : Style → Text → Text
unfolding speak_in
speak_word style token = speak_in spoken_lexicon style token

-- Whether a character goes on with the word `[A-Za-z][A-Za-z0-9]*`, of which `word` is read.
abbrev pub extends : Text → ℕ → Bool
extends [] c = is_letter c
extends (d ∷ word) c = is_alnum c

-- `_WORD_RE.sub(_replace, text)`
unfoldable pub speak_words : Style → Text → Text → Text
speak_words style word [] = speak_word style word
speak_words style word (c ∷ s) =
    let rest = speak_words style (if extends word c then word ++ c ∷ [] else []) s in
    if extends word c then rest else speak_word style word ++ c ∷ rest

-- A dot, and no second one behind it.
abbrev pub one_dot : Text → Bool
one_dot [] = false
one_dot (c ∷ []) = c == 46
one_dot (c ∷ d ∷ s) = c == 46 && not (d == 46)

-- `re.sub(r"(?<!\.)\.\.(?!\.)", ".", text)`; `after_dot` tells whether a dot stands before.
unfoldable pub collapse_dots : Bool → Text → Text
collapse_dots after_dot [] = []
collapse_dots after_dot (c ∷ s) =
    let rest = collapse_dots (c == 46) s in
    if c == 46 && not after_dot && one_dot s then rest else c ∷ rest

module _ (is_word_beyond : ℕ → Bool) where
  -- `\w`
  abbrev pub is_word : ℕ → Bool
  is_word c = if ltb c 128 then is_alnum c || c == 95 else is_word_beyond c

  -- Equality of a small letter or a dot with a character when case is ignored; the long s is an s.
  abbrev same_ignoring_case : ℕ → ℕ → Bool
  same_ignoring_case c d = c == d || is_lower c && (d + 32 == c) || c == 115 && d == 383

  -- Whether `written` stands at the start of a text, with no word character behind it.
  abbrev starts_with : Text → Text → Bool
  starts_with [] [] = true
  starts_with [] (d ∷ s) = not (is_word d)
  starts_with (c ∷ written) [] = false
  starts_with (c ∷ written) (d ∷ s) = same_ignoring_case c d && starts_with written s

  -- `re.sub(rf"(?i)\b{written}\b", spoken, text)`; `skip` characters still belong to a match.
  unfoldable pub replace_domain : Text → Text → Bool → ℕ → Text → Text
  replace_domain written spoken after_word skip [] = []
  replace_domain written spoken after_word (suc skip) (c ∷ s) =
      replace_domain written spoken (is_word c) skip s
  replace_domain written spoken after_word zero (c ∷ s) =
      let found = not after_word && starts_with written (c ∷ s) in
      let rest =
        replace_domain written spoken (is_word c) (if found then length written - 1 else 0) s in
      if found then spoken ++ rest else c ∷ rest

  -- The text with its domains and its words spelled out, before the dots are tidied.
  unfoldable pub spell_text : Style → Text → Text
  unfolding speak_words replace_domain
  spell_text style text =
      speak_words style []
        (replace_domain (codes "openagents.com") (codes "open agents dot com") false 0 text)

  unfoldable pub normalize_spoken : Style → Text → Text
  unfolding spell_text collapse_dots
  normalize_spoken style text = collapse_dots false (spell_text style text)

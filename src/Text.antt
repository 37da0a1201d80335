-- ===== src/Text.antt =====
-- What the services use of Python's `str`, over the code points of a text.
pub mod Members
use Prim.Native.Char.{Char, code}
use Prim.Native.String.{String}
use hydralisk.Prelude.{
  ℕ, suc, ◌+◌, Bool, true, false, ◌&&◌, ◌||◌, List, [], ◌∷◌, ltb, leb, ◌==◌, str_eq, if◌then◌else◌,
}

abbrev pub is_blank : String → Bool
is_blank String.[] = true
is_blank (String.◌∷◌ c s) = false

-- `len` of a text.
abbrev pub size : String → ℕ
size String.[] = 0
size (String.◌∷◌ c s) = suc (size s)

-- `str.isspace` of one character.
abbrev pub is_space : ℕ → Bool
is_space c =
    leb 9 c && leb c 13
    || leb 28 c && leb c 32
    || (c == 133 || c == 160 || c == 5760)
    || leb 8192 c && leb c 8202
    || (c == 8232 || c == 8233 || c == 8239 || c == 8287 || c == 12288)

abbrev pub lstrip : String → String
lstrip String.[] = String.[]
lstrip (String.◌∷◌ c s) = if is_space (code c) then lstrip s else String.◌∷◌ c s

abbrev pub rstrip : String → String
rstrip String.[] = String.[]
rstrip (String.◌∷◌ c s) =
    let rest = rstrip s in
    if is_blank rest && is_space (code c) then String.[] else String.◌∷◌ c rest

unfoldable pub strip : String → String
strip s = rstrip (lstrip s)

-- `s in texts`
abbrev pub is_in : String → List String → Bool
is_in s [] = false
is_in s (x ∷ xs) = str_eq s x || is_in s xs

-- The order of Python's texts, by their code points.
unfoldable pub less_text : String → String → Bool
less_text String.[] String.[] = false
less_text String.[] (String.◌∷◌ d t) = true
less_text (String.◌∷◌ c s) String.[] = false
less_text (String.◌∷◌ c s) (String.◌∷◌ d t) =
    let rest = less_text s t in ltb (code c) (code d) || code c == code d && rest

-- `str.lower` of a character, as far as a result in ASCII goes: the Kelvin sign is the one other
-- character whose lower case is an ASCII letter.
abbrev pub lower : ℕ → ℕ
lower c = if leb 65 c && leb c 90 then c + 32 else if c == 8490 then 107 else c

-- Whether a text is the given one after a change of each character.
unfoldable pub reads_as : (ℕ → ℕ) → String → String → Bool
reads_as change String.[] String.[] = true
reads_as change String.[] (String.◌∷◌ d t) = false
reads_as change (String.◌∷◌ c s) String.[] = false
reads_as change (String.◌∷◌ c s) (String.◌∷◌ d t) = change (code c) == code d && reads_as change s t

abbrev prepend : Char → List String → List String
prepend c [] = String.◌∷◌ c String.[] ∷ []
prepend c (part ∷ parts) = String.◌∷◌ c part ∷ parts

-- `str.split` at one character.
unfoldable pub split_on : ℕ → String → List String
split_on mark String.[] = "" ∷ []
split_on mark (String.◌∷◌ c s) =
    let parts = split_on mark s in if code c == mark then "" ∷ parts else prepend c parts

unfoldable pub is_prefix : String → String → Bool
is_prefix String.[] s = true
is_prefix (String.◌∷◌ c t) String.[] = false
is_prefix (String.◌∷◌ c t) (String.◌∷◌ d s) = code c == code d && is_prefix t s

-- `suffix` at the end of a text: `str.endswith`.
unfoldable pub ends_with : String → String → Bool
ends_with suffix String.[] = is_blank suffix
ends_with suffix (String.◌∷◌ c s) = str_eq suffix (String.◌∷◌ c s) || ends_with suffix s

-- `part in text`
unfoldable pub contains : String → String → Bool
unfolding is_prefix
contains part String.[] = is_blank part
contains part (String.◌∷◌ c s) = is_prefix part (String.◌∷◌ c s) || contains part s

unfoldable pub insert_text : String → List String → List String
unfolding less_text
insert_text s [] = s ∷ []
insert_text s (t ∷ rest) =
    let inserted = insert_text s rest in
    if str_eq s t then t ∷ rest else if less_text s t then s ∷ t ∷ rest else t ∷ inserted

-- `sorted(set(texts))`
unfoldable pub sorted_set : List String → List String
unfolding insert_text
sorted_set [] = []
sorted_set (s ∷ rest) = insert_text s (sorted_set rest)

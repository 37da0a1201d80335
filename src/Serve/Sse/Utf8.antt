-- ===== src/Serve/Sse/Utf8.antt =====
-- `bytes.decode("utf-8", errors="ignore")`, which hydralisk/serve/proxy.py calls on each chunk.
use Prim.Native.Nat.{Ordering, compare}
use Prim.Native.Char.{Char, char, IsScalar, IsLt}
use hydralisk.Prelude.{
  ℕ, zero, suc, ◌+◌, ◌-◌, ◌*◌, ◌≡◌, refl, ap, sym, append_assoc, ◌∙◌, String, ◌&&◌, Option, none,
  some, List, [], ◌∷◌, ◌++◌, leb, ◌==◌, if◌then◌else◌,
}

abbrev Below : Ordering → Ordering → Type 0
Below Ordering.lt q = IsLt q
Below Ordering.eq q = ⊥
Below Ordering.gt q = ⊥

abbrev Scalar : Ordering → Ordering → Ordering → Type 0
Scalar Ordering.lt p q = Unit
Scalar Ordering.eq p q = Below p q
Scalar Ordering.gt p q = Below p q

abbrev below? : (p q : Ordering) → Option (Below p q)
below? Ordering.lt Ordering.lt = some tt
below? Ordering.lt Ordering.eq = none
below? Ordering.lt Ordering.gt = none
below? Ordering.eq q = none
below? Ordering.gt q = none

abbrev scalar? : (o p q : Ordering) → Option (Scalar o p q)
scalar? Ordering.lt p q = some tt
scalar? Ordering.eq p q = below? p q
scalar? Ordering.gt p q = below? p q

abbrev with_number : (n : ℕ) → Option (IsScalar n) → List Char
with_number n none = []
with_number n (some p) = char n p ∷ []

-- The character of a number, if it is one.
abbrev char_of : ℕ → List Char
char_of n = with_number n (scalar? (compare n 55296) (compare 57343 n) (compare n 1114112))

-- A decoder between two characters, or in one: how many bytes follow the next, the bounds of the
-- next, and the number so far.
pub data Decoder : Type 0 where
  at_start : Decoder
  waits : (more low high number : ℕ) → Decoder

-- The first byte of a character; a byte that begins none is ignored.
abbrev begin : ℕ → List Char × Decoder
begin b =
    if leb b 127
    then (char_of b, at_start)
    else if leb 194 b && leb b 223
    then ([], waits 0 128 191 (b - 192))
    else if b == 224
    then ([], waits 1 160 191 0)
    else if b == 237
    then ([], waits 1 128 159 13)
    else if leb 225 b && leb b 239
    then ([], waits 1 128 191 (b - 224))
    else if b == 240
    then ([], waits 2 144 191 0)
    else if leb 241 b && leb b 243
    then ([], waits 2 128 191 (b - 240))
    else if b == 244
    then ([], waits 2 128 143 4)
    else ([], at_start)

abbrev continue : ℕ → ℕ → List Char × Decoder
continue zero number = (char_of number, at_start)
continue (suc more) number = ([], waits more 128 191 number)

-- A byte that does not continue a character drops what came of it, and may begin another.
abbrev take_byte : Decoder → ℕ → List Char × Decoder
take_byte at_start b = begin b
take_byte (waits more low high number) b =
    if leb low b && leb b high then continue more (number * 64 + (b - 128)) else begin b

unfoldable pub decode_from : Decoder → List ℕ → List Char × Decoder
decode_from d [] = ([], d)
decode_from d (b ∷ bytes) =
    let (cs, d') = take_byte d b in let (rest, last) = decode_from d' bytes in (cs ++ rest, last)

abbrev text_of_chars : List Char → String
text_of_chars [] = String.[]
text_of_chars (c ∷ cs) = String.◌∷◌ c (text_of_chars cs)

-- What is left of a character at the end is dropped too.
unfoldable pub decode : List ℕ → String
decode bytes = text_of_chars (decode_from at_start bytes).0

abbrev pub append : String → String → String
append String.[] t = t
append (String.◌∷◌ c s) t = String.◌∷◌ c (append s t)

-- The bytes end between two characters.
abbrev pub IsWhole : List ℕ → Type 0
IsWhole bytes = (decode_from at_start bytes).1 ≡ at_start

text_of_chars-append :
    (cs ds : List Char) → text_of_chars (cs ++ ds) ≡ append (text_of_chars cs) (text_of_chars ds)
text_of_chars-append [] ds = refl
text_of_chars-append (c ∷ cs) ds = ap (String.◌∷◌ c) (text_of_chars-append cs ds)

decode_from-append :
    (d : Decoder) (xs ys : List ℕ)
    → (decode_from d (xs ++ ys)).0 ≡ (decode_from d xs).0 ++ (decode_from (decode_from d xs).1 ys).0
unfolding decode_from
decode_from-append d [] ys = refl
decode_from-append d (x ∷ xs) ys =
    ap (λ cs. (take_byte d x).0 ++ cs) (decode_from-append (take_byte d x).1 xs ys)
    ∙ sym (append_assoc (take_byte d x).0 (decode_from (take_byte d x).1 xs).0 _)

pub decode-append :
    (xs ys : List ℕ) → IsWhole xs → decode (xs ++ ys) ≡ append (decode xs) (decode ys)
unfolding decode
decode-append xs ys whole =
    ap text_of_chars (decode_from-append at_start xs ys)
    ∙ text_of_chars-append (decode_from at_start xs).0 _
    ∙ ap
        (λ d.
          append (text_of_chars (decode_from at_start xs).0) (text_of_chars (decode_from d ys).0))
        whole

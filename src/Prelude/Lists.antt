-- ===== src/Prelude/Lists.antt =====
-- Lists measured and indexed by native numbers, under the library's names.
use Prim.Native.Nat.{ℕ, zero, suc, ◌+◌, ◌-◌, ◌*◌, ◌<◌, ◌≤◌, min}
use mathlib.Core.Path.{◌≡◌, refl, sym, ap, ◌∙◌, subst}
use mathlib.Core.Logic.{inl, inr}
use mathlib.Core.List.{List, [], ◌∷◌, ◌++◌, append_assoc}
use mathlib.Core.Bool.{Bool, true, false}
use mathlib.Core.Option.{Option, none, some}
use native.Mathlib.Omega.{arith}
use hydralisk.Prelude.Tests.{if◌then◌else◌, Bool-cases}

module _ {ℓ} {A : Type ℓ} where
  abbrev pub length : List A → ℕ
  length [] = 0
  length (x ∷ xs) = suc (length xs)

  abbrev pub get_elem? : List A → ℕ → Option A
  get_elem? [] i = none
  get_elem? (x ∷ xs) zero = some x
  get_elem? (x ∷ xs) (suc i) = get_elem? xs i

  abbrev pub take : ℕ → List A → List A
  take zero xs = []
  take (suc n) [] = []
  take (suc n) (x ∷ xs) = x ∷ take n xs

  abbrev pub drop : ℕ → List A → List A
  drop zero xs = xs
  drop (suc n) [] = []
  drop (suc n) (x ∷ xs) = drop n xs

  abbrev pub replicate : ℕ → A → List A
  replicate zero a = []
  replicate (suc n) a = a ∷ replicate n a

  abbrev pub flatten : List (List A) → List A
  flatten [] = []
  flatten (xs ∷ xss) = xs ++ flatten xss

  abbrev pub filter : (A → Bool) → List A → List A
  filter p [] = []
  filter p (x ∷ xs) = let rest = filter p xs in if p x then x ∷ rest else rest

  -- A predicate by recursion computes to tuples, which the tactics read and build.
  abbrev pub All {κ} : (A → Type κ) → List A → Type κ
  All P [] = Unit
  All P (x ∷ xs) = P x × All P xs

module _ {ℓ} {A : Type ℓ} where
  pub take-nil : (k : ℕ) → take {A = A} k [] ≡ []
  take-nil zero = refl
  take-nil (suc k) = refl

  pub drop-nil : (k : ℕ) → drop {A = A} k [] ≡ []
  drop-nil zero = refl
  drop-nil (suc k) = refl

  pub length-append : (xs ys : List A) → length (xs ++ ys) ≡ length xs + length ys
  length-append [] ys = omega arith
  length-append (x ∷ xs) ys = omega (arith, length-append xs ys)

  pub take-append-drop : (n : ℕ) (xs : List A) → take n xs ++ drop n xs ≡ xs
  take-append-drop zero xs = refl
  take-append-drop (suc n) [] = refl
  take-append-drop (suc n) (x ∷ xs) = rw (take-append-drop n xs)

  pub length-take : (n : ℕ) (xs : List A) → length (take n xs) ≡ min n (length xs)
  length-take zero xs = omega arith
  length-take (suc n) [] = omega arith
  length-take (suc n) (x ∷ xs) = omega (arith, length-take n xs)

  pub length-drop : (n : ℕ) (xs : List A) → length (drop n xs) ≡ length xs - n
  length-drop zero xs = omega arith
  length-drop (suc n) [] = omega arith
  length-drop (suc n) (x ∷ xs) = omega (arith, length-drop n xs)

  pub length-replicate : (n : ℕ) (a : A) → length (replicate n a) ≡ n
  length-replicate zero a = refl
  length-replicate (suc n) a = ap suc (length-replicate n a)

  pub get_elem?-lt : (xs : List A) (i : ℕ) → i < length xs → (a : A) × (get_elem? xs i ≡ some a)
  get_elem?-lt [] i h = elim h [ ]
  get_elem?-lt (x ∷ xs) zero h = (x, refl)
  get_elem?-lt (x ∷ xs) (suc i) h = get_elem?-lt xs i (omega arith)

  pub flatten-append : (xss yss : List (List A)) → flatten (xss ++ yss) ≡ flatten xss ++ flatten yss
  flatten-append [] yss = refl
  flatten-append (xs ∷ xss) yss = simp (flatten-append xss yss, append_assoc)

  pub All-append {κ} : (P : A → Type κ) (xs ys : List A) → All P xs → All P ys → All P (xs ++ ys)
  All-append P [] ys h k = k
  All-append P (x ∷ xs) ys h k = (h.0, All-append P xs ys h.1 k)

  pub All-get_elem? {κ} :
      (P : A → Type κ) (xs : List A) (i : ℕ) (a : A) → All P xs → get_elem? xs i ≡ some a → P a
  All-get_elem? P [] i a h e = absurd (cc)
  All-get_elem? P (x ∷ xs) zero a h e = subst P (cc) h.0
  All-get_elem? P (x ∷ xs) (suc i) a h e = All-get_elem? P xs i a h.1 e

  pub replicate-add :
      (m n k : ℕ) (a : A) → m + n ≡ k → replicate k a ≡ replicate m a ++ replicate n a
  replicate-add zero n k a e = ap (λ j. replicate j a) (omega arith)
  replicate-add (suc m) n zero a e = absurd (omega arith)
  replicate-add (suc m) n (suc k) a e = ap (λ t. a ∷ t) (replicate-add m n k a (omega arith))

  pub flatten-replicate :
      (j n : ℕ) (a : A) → flatten (replicate j (replicate n a)) ≡ replicate (j * n) a
  flatten-replicate zero n a = ap (λ k. replicate k a) {x = 0} (omega arith)
  flatten-replicate (suc j) n a =
      ap (λ t. replicate n a ++ t) (flatten-replicate j n a)
      ∙ sym (replicate-add n (j * n) (suc j * n) a (omega arith))

  pub All-take {κ} : (P : A → Type κ) (k : ℕ) (xs : List A) → All P xs → All P (take k xs)
  All-take P zero xs h = tt
  All-take P (suc k) [] h = tt
  All-take P (suc k) (x ∷ xs) h = (h.0, All-take P k xs h.1)

  pub All-drop {κ} : (P : A → Type κ) (k : ℕ) (xs : List A) → All P xs → All P (drop k xs)
  All-drop P zero xs h = h
  All-drop P (suc k) [] h = tt
  All-drop P (suc k) (x ∷ xs) h = All-drop P k xs h.1

  pub All-replicate {κ} : (P : A → Type κ) (k : ℕ) (a : A) → P a → All P (replicate k a)
  All-replicate P zero a h = tt
  All-replicate P (suc k) a h = (h, All-replicate P k a h)

  pub filter_none : (p : A → Bool) (xs : List A) → filter p xs ≡ [] → All (λ x. p x ≡ false) xs
  filter_none p [] e = tt
  filter_none p (x ∷ xs) e = elim (Bool-cases (p x)) [
    | inl h ↦ absurd (ground (arith, e, h))
    | inr h ↦ (h, filter_none p xs (ground (arith, e, h)))
  ]

  pub filter_empty : (p : A → Bool) (xs : List A) → All (λ x. p x ≡ false) xs → filter p xs ≡ []
  filter_empty p [] h = refl
  filter_empty p (x ∷ xs) h = rw (h.0) (filter_empty p xs h.1)

  pub filter_each : (p : A → Bool) (xs : List A) → All (λ x. p x ≡ true) xs → filter p xs ≡ xs
  filter_each p [] h = refl
  filter_each p (x ∷ xs) h = rw (h.0) (ap (λ t. x ∷ t) (filter_each p xs h.1))

  pub length-filter : (p : A → Bool) (xs : List A) → length (filter p xs) ≤ length xs
  length-filter p [] = omega arith
  length-filter p (x ∷ xs) = elim (Bool-cases (p x)) [
    | inl h ↦ rw (h) (omega (arith, length-filter p xs))
    | inr h ↦ rw (h) (omega (arith, length-filter p xs))
  ]

  pub filter_whole :
      (p : A → Bool) (xs : List A) → length xs ≤ length (filter p xs) → All (λ x. p x ≡ true) xs
  filter_whole p [] e = tt
  filter_whole p (x ∷ xs) e = elim (Bool-cases (p x)) [
    | inl h ↦ (h, filter_whole p xs (ground (arith, e, h)))
    | inr h ↦ absurd (ground (arith, e, h, length-filter p xs))
  ]

  pub All-filter {κ} :
      (P : A → Type κ) (p : A → Bool) (xs : List A)
      → All P (filter p xs)
      → All (λ x. p x ≡ true → P x) xs
  All-filter P p [] h = tt
  All-filter P p (x ∷ xs) h = elim (Bool-cases (p x)) [
    | inl e ↦ let k = All_kept e h in (λ _. k.0, All-filter P p xs k.1)
    | inr e ↦ (λ f. absurd (cc (e, f)), All-filter P p xs (All_left e h))
  ]
    where
      All_kept :
          p x ≡ true
          → All P (if p x then x ∷ filter p xs else filter p xs)
          → P x × All P (filter p xs)
      All_kept e k = rw (e) at k

      All_left :
          p x ≡ false → All P (if p x then x ∷ filter p xs else filter p xs) → All P (filter p xs)
      All_left e k = rw (e) at k

pub All-mono {ℓ κ μ} :
    {A : Type ℓ} (P : A → Type κ) (Q : A → Type μ) (xs : List A)
    → ((x : A) → P x → Q x)
    → All P xs
    → All Q xs
All-mono P Q [] f h = tt
All-mono P Q (x ∷ xs) f h = (f x h.0, All-mono P Q xs f h.1)

pub append_none {ℓ} : {A : Type ℓ} (xs ys : List A) → xs ++ ys ≡ [] → (xs ≡ []) × (ys ≡ [])
append_none [] ys e = (refl, e)
append_none (x ∷ xs) ys e = absurd (cc)

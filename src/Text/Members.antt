-- ===== src/Text/Members.antt =====
-- What holds of every text of a list holds of each of its members.
use hydralisk.Prelude.{
  ◌≡◌, sym, subst, arith, String, true, List, [], ◌∷◌, str_eq, eq_iff, All, Bool-cases, inl, inr,
}
use hydralisk.Text.{is_in}

pub All-is_in :
    (P : String → Type 0) (s : String) (xs : List String) → All P xs → is_in s xs ≡ true → P s
All-is_in P s [] h e = absurd (cc)
All-is_in P s (x ∷ xs) h e = elim (Bool-cases (str_eq s x)) [
  | inl f ↦ subst P (sym ((eq_iff s x).0 f)) h.0
  | inr f ↦ All-is_in P s xs h.1 (ground (arith, e, f))
]

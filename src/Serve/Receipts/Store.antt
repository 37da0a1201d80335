-- ===== src/Serve/Receipts/Store.antt =====
-- What the store of hydralisk/serve/receipts.py keeps, and which names it touches.
use Prim.Native.Char.{code}
use hydralisk.Prelude.{
  ℕ, zero, suc, ◌≤◌, ◌≡◌, ◌⊎◌, inl, inr, refl, arith, String, Bool, true, some, List, [], ◌∷◌,
  str_eq, eq_iff, if◌then◌else◌, Bool-cases,
}
use hydralisk.Serve.Receipts.{
  RunReceipt, Directory, hex_end, after_prefix, run_prefix, is_run_ref, put_file, get_file, write,
  read,
}

get_file-put_file :
    (name other : String) (r : RunReceipt) (files : Directory)
    → get_file other (put_file name r files)
      ≡ (if str_eq name other then some r else get_file other files)
unfolding get_file put_file
get_file-put_file name other r [] = refl
get_file-put_file name other r ((n, q) ∷ rest) =
    ground
      (arith, eq_iff name other, eq_iff n name, eq_iff n other, get_file-put_file name other r rest)

-- A receipt that is written is read back under its run, in place of an older one of that run, and
-- every other run's receipt stays as it was.
pub read-write :
    (disk : Bool) (r : RunReceipt) (files files' : Directory) (ref : String)
    → write disk r files ≡ some files'
    → read ref files' ≡ (if str_eq r.run_ref ref then some r else read ref files)
unfolding write read
read-write disk r files files' ref e = elim (Bool-cases (str_eq r.run_ref ref)) [
  | inl h ↦ ground (arith, e, h, get_file-put_file r.run_ref ref r files, eq_iff r.run_ref ref)
  | inr h ↦ ground (arith, e, h, get_file-put_file r.run_ref ref r files)
]

-- A letter, a digit or a dash, or the line feed that `$` lets through.
abbrev pub IsSafe : ℕ → Type 0
IsSafe c = (97 ≤ c) × (c ≤ 122) ⊎ (48 ≤ c) × (c ≤ 57) ⊎ (c ≡ 45) ⊎ (c ≡ 10)

abbrev pub AllSafe : String → Type 0
AllSafe String.[] = Unit
AllSafe (String.◌∷◌ c s) = IsSafe (code c) × AllSafe s

hex_end-AllSafe : (n : ℕ) (s : String) → hex_end n s ≡ true → AllSafe s
unfolding hex_end
hex_end-AllSafe zero String.[] h = tt
hex_end-AllSafe zero (String.◌∷◌ c String.[]) h = ground (arith, h)
hex_end-AllSafe zero (String.◌∷◌ c (String.◌∷◌ d s)) h = absurd (cc)
hex_end-AllSafe (suc n) String.[] h = absurd (cc)
hex_end-AllSafe (suc n) (String.◌∷◌ c s) h = ground (arith, h, hex_end-AllSafe n s)

abbrev SafeCodes : List ℕ → Type 0
SafeCodes [] = Unit
SafeCodes (p ∷ ps) = IsSafe p × SafeCodes ps

after_prefix-AllSafe :
    (ps : List ℕ) (n : ℕ) (s : String) → SafeCodes ps → after_prefix ps n s ≡ true → AllSafe s
unfolding after_prefix
after_prefix-AllSafe [] n s v h = hex_end-AllSafe n s h
after_prefix-AllSafe (p ∷ ps) n String.[] v h = absurd (cc)
after_prefix-AllSafe (p ∷ ps) n (String.◌∷◌ c s) v h =
    ground (arith, h, v, after_prefix-AllSafe ps n s)

-- A reference that the store accepts names no path: it has no slash and no dot, but only small
-- letters, digits and dashes, and perhaps a line feed.
pub is_run_ref-AllSafe : (s : String) → is_run_ref s ≡ true → AllSafe s
unfolding is_run_ref
is_run_ref-AllSafe s h = after_prefix-AllSafe run_prefix 32 s (ground arith) h

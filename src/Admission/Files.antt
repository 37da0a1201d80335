-- ===== src/Admission/Files.antt =====
-- hydralisk/admission/deepseek_v4_fable.py: which files a probe may fetch.
-- `is_decimal` is Python's `\d`.
pub mod Allowed
use Prim.Native.Char.{code}
use hydralisk.Prelude.{
  ℕ, String, Bool, true, false, not, ◌&&◌, ◌||◌, List, [], ◌∷◌, ◌++◌, str_eq, ◌==◌, if◌then◌else◌,
  filter,
}
use hydralisk.Text.{is_in}

abbrev pub default_recorded_files : List String
default_recorded_files =
    "adapter_config.json" ∷ "generation_config.json" ∷ "merge_info.json" ∷ "config.json"
    ∷ "model.safetensors.index.json" ∷ "adapter_model.safetensors" ∷ []

-- Texts as the regular expression sees them: a digit, or a given character.
pub data Atom : Type 0 where
  digit : Atom
  char : ℕ → Atom

abbrev chars_of : String → List Atom
chars_of String.[] = []
chars_of (String.◌∷◌ c s) = char (code c) ∷ chars_of s

abbrev five_digits : List Atom
five_digits = digit ∷ digit ∷ digit ∷ digit ∷ digit ∷ []

-- `^model-\d{5}-of-\d{5}\.safetensors$`
abbrev merged_shard_pattern : List Atom
merged_shard_pattern =
    chars_of "model-" ++ five_digits ++ chars_of "-of-" ++ five_digits ++ chars_of ".safetensors"

module _ (is_decimal : ℕ → Bool) where
  abbrev is_atom : Atom → ℕ → Bool
  is_atom digit c = is_decimal c
  is_atom (char d) c = c == d

  -- `$` also matches before a line feed at the end.
  fits : List Atom → String → Bool
  fits [] String.[] = true
  fits [] (String.◌∷◌ c String.[]) = code c == 10
  fits [] (String.◌∷◌ c (String.◌∷◌ d s)) = false
  fits (a ∷ pattern) String.[] = false
  fits (a ∷ pattern) (String.◌∷◌ c s) = is_atom a (code c) && fits pattern s

  -- `MERGED_SHARD_RE.match`
  unfoldable pub is_merged_shard : String → Bool
  unfolding fits
  is_merged_shard name = fits merged_shard_pattern name

unfoldable pub without : String → List String → List String
without x [] = []
without x (y ∷ ys) = let rest = without x ys in if str_eq y x then rest else y ∷ rest

-- `tuple(dict.fromkeys(files))`
unfoldable pub unique : List String → List String
unfolding without
unique [] = []
unique (x ∷ xs) = x ∷ without x (unique xs)

-- The files, or the names that make `FableProbeError`.
pub data FileCheck : Type 0 where
  accepted : List String → FileCheck
  merged_shards : List String → FileCheck
  unsupported : List String → FileCheck

abbrev pub supported_or : List String → List String → FileCheck
supported_or names [] = accepted names
supported_or names (u ∷ unknown) = unsupported (u ∷ unknown)

abbrev pub unforbidden_or : Bool → FileCheck → List String → FileCheck
unforbidden_or allow next [] = next
unforbidden_or allow next (f ∷ forbidden) = if allow then next else merged_shards (f ∷ forbidden)

module _ (is_decimal : ℕ → Bool) (allow_merged_shards : Bool) where
  abbrev pub is_permitted : String → Bool
  is_permitted name =
      is_in name default_recorded_files || allow_merged_shards && is_merged_shard is_decimal name

  unfoldable pub validate_requested_files : List String → FileCheck
  validate_requested_files files =
      let normalized = unique files in
      unforbidden_or allow_merged_shards
        (supported_or normalized (filter (λ name. not (is_permitted name)) normalized))
        (filter (is_merged_shard is_decimal) normalized)

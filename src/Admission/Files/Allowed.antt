-- ===== src/Admission/Files/Allowed.antt =====
-- Which files the probe of hydralisk/admission/deepseek_v4_fable.py accepts.
use hydralisk.Prelude.{
  ℕ, ◌≡◌, ◌∙◌, sym, ap, refl, arith, subst, String, Bool, true, false, not, List, [], ◌∷◌, All, ◌↔◌,
  filter, filter_none, filter_empty,
}
use hydralisk.Text.{is_in}
use hydralisk.Text.Members.{All-is_in}
use hydralisk.Admission.Files.{
  default_recorded_files, is_merged_shard, unique, FileCheck, accepted, supported_or,
  unforbidden_or, is_permitted, validate_requested_files,
}

accepted_path : {xs ys : List String} → accepted xs ≡ accepted ys → xs ≡ ys
accepted_path e = cc

next_accepted :
    (allow : Bool) (next : FileCheck) (forbidden ns : List String)
    → unforbidden_or allow next forbidden ≡ accepted ns
    → next ≡ accepted ns
next_accepted allow next [] ns e = e
next_accepted true next (f ∷ forbidden) ns e = e
next_accepted false next (f ∷ forbidden) ns e = absurd (cc)

supported_accepted :
    (names unknown ns : List String)
    → supported_or names unknown ≡ accepted ns
    → (unknown ≡ []) × (ns ≡ names)
supported_accepted names [] ns e = (refl, sym (accepted_path e))
supported_accepted names (u ∷ unknown) ns e = absurd (cc)

unforbidden_next :
    (allow : Bool) (next : FileCheck) (forbidden : List String)
    → (allow ≡ false → forbidden ≡ [])
    → unforbidden_or allow next forbidden ≡ next
unforbidden_next true next [] h = refl
unforbidden_next true next (f ∷ forbidden) h = refl
unforbidden_next false next forbidden h = rw (h refl) refl

module _ (is_decimal : ℕ → Bool) (allow : Bool) where
  default_not_shard :
      (name : String)
      → is_in name default_recorded_files ≡ true
      → is_merged_shard is_decimal name ≡ false
  unfolding is_merged_shard
  default_not_shard name =
      All-is_in (λ s. is_merged_shard is_decimal s ≡ false) name default_recorded_files
        (refl, (refl, (refl, (refl, (refl, (refl, tt))))))

  abbrev pub Permitted : String → Type 0
  Permitted name = is_permitted is_decimal allow name ≡ true

  no_shard :
      (names : List String)
      → allow ≡ false
      → All Permitted names
      → All (λ n. is_merged_shard is_decimal n ≡ false) names
  no_shard [] e h = tt
  no_shard (n ∷ names) e h = (default_not_shard n (ground (arith, e, h.0)), no_shard names e h.1)

  known_names :
      (names : List String)
      → All Permitted names
      → All (λ n. not (is_permitted is_decimal allow n) ≡ false) names
  known_names [] h = tt
  known_names (n ∷ names) h = (ap not h.0, known_names names h.1)

  names_allowed :
      (names : List String)
      → All (λ n. not (is_permitted is_decimal allow n) ≡ false) names
      → All Permitted names
  names_allowed [] h = tt
  names_allowed (n ∷ names) h = (ground (arith, h.0), names_allowed names h.1)

  -- A probe is given the files it asks for, each once and in order, exactly if each of them is one
  -- of the recorded files or, where the flag for merged shards is set, a merged shard.
  pub validate_requested_files_iff :
      (files names : List String)
      → (validate_requested_files is_decimal allow files ≡ accepted names)
        ↔ ((names ≡ unique files) × All Permitted names)
  unfolding validate_requested_files
  validate_requested_files_iff files names = (to, back)
    where
      unknown : List String
      unknown = filter (λ n. not (is_permitted is_decimal allow n)) (unique files)

      to :
          validate_requested_files is_decimal allow files ≡ accepted names
          → (names ≡ unique files) × All Permitted names
      to e =
          let s =
            supported_accepted (unique files) unknown names (
              next_accepted allow _ (filter (is_merged_shard is_decimal) (unique files)) names e) in
          (
            s.1,
            subst (All Permitted) (sym s.1)
                (names_allowed (unique files) (filter_none _ (unique files) s.0)),
          )

      back :
          (names ≡ unique files) × All Permitted names
          → validate_requested_files is_decimal allow files ≡ accepted names
      back (e, h) =
          let p = subst (All Permitted) e h in
          unforbidden_next allow _ (filter (is_merged_shard is_decimal) (unique files))
            (λ f. filter_empty _ (unique files) (no_shard (unique files) f p))
          ∙ ap (supported_or (unique files)) (
              filter_empty (λ n. not (is_permitted is_decimal allow n)) (unique files)
                (known_names (unique files) p))
          ∙ ap accepted (sym e)

-- ===== src/Admission/Context/Reached.antt =====
-- The surfaces of the modules of a context map without blockers, in
-- hydralisk/admission/deepseek_v4_fable.py.
use hydralisk.Prelude.{
  ℕ, ◌≡◌, refl, subst, arith, String, Bool, true, false, ◌&&◌, Option, none, some, List, [], ◌∷◌,
  ◌++◌, str_eq, eq_iff, if◌then◌else◌, if_cases, filter, All, append_none, Holds, Holds-bind,
  Holds_some,
}
use hydralisk.Json.{Json, Fields, null, bool, int, float, str, arr, obj, get}
use hydralisk.Admission.Manifest.{LoraModule}
use hydralisk.Admission.Smoke.{is_complete, layers_of}
use hydralisk.Admission.Context.{
  family_of, context_mapping_blockers, Group, add_to_group, group_from, less_group, insert_group,
  sort_groups, ContextEntry, key_of, entry_of, entries_of, build_context_entries,
  blockers_of_entries, dimensions, shapes_a, shapes_b,
}

abbrev pub is_surface : Option Json → Bool
is_surface none = false
is_surface (some null) = false
is_surface (some v) = true

module _ (surfaces : Fields) where
  abbrev pub Reached : String → String → Type 0
  Reached f t = is_surface (get (key_of f t) surfaces) ≡ true

  abbrev ReachedGroup : Group → Type 0
  ReachedGroup g = Reached g.family g.target

  abbrev pub ReachedModule : LoraModule → Type 0
  ReachedModule m = Reached (family_of m) m.target

  no_blockers_reached :
      (f t : String) (o : Option Json) (layers : List ℕ)
      → context_mapping_blockers f t o layers ≡ []
      → is_surface o ≡ true
  unfolding context_mapping_blockers
  no_blockers_reached f t none layers e = absurd (cc)
  no_blockers_reached f t (some null) layers e = absurd (cc)
  no_blockers_reached f t (some (bool b)) layers e = refl
  no_blockers_reached f t (some (int z)) layers e = refl
  no_blockers_reached f t (some (float z)) layers e = refl
  no_blockers_reached f t (some (str s)) layers e = refl
  no_blockers_reached f t (some (arr vs)) layers e = refl
  no_blockers_reached f t (some (obj fs)) layers e = refl

  add_to_group-Reached :
      (m : LoraModule) (groups : List Group)
      → All ReachedGroup (add_to_group m groups)
      → ReachedModule m × All ReachedGroup groups
  unfolding add_to_group
  add_to_group-Reached m [] h = (h.0, tt)
  add_to_group-Reached m (g ∷ groups) h =
      if_cases (λ gs. All ReachedGroup gs → ReachedModule m × All ReachedGroup (g ∷ groups))
        (str_eq g.family (family_of m) && str_eq g.target m.target)
        (record g { modules = g.modules ++ m ∷ [] } ∷ groups) (g ∷ add_to_group m groups)
        (λ e k.
          let p = both_same g.family (family_of m) g.target m.target e in
          (
            subst (λ f. Reached f m.target) p.0 (subst (λ t. Reached g.family t) p.1 k.0),
            (k.0, k.1),
          ))
        (λ _ k. let r = add_to_group-Reached m groups k.1 in (r.0, (k.0, r.1))) h
    where
      both_same : (a b c d : String) → str_eq a b && str_eq c d ≡ true → (a ≡ b) × (c ≡ d)
      both_same a b c d e = ((eq_iff a b).0 (ground (arith, e)), (eq_iff c d).0 (ground (arith, e)))

  group_from-Reached :
      (pairs : List LoraModule) (groups : List Group)
      → All ReachedGroup (group_from pairs groups)
      → All ReachedGroup groups × All ReachedModule (filter is_complete pairs)
  unfolding group_from
  group_from-Reached [] groups h = (h, tt)
  group_from-Reached (m ∷ pairs) groups h = by_flag (group_from-Reached pairs) (is_complete m) h
    where
      by_flag :
          ((gs : List Group)
            → All ReachedGroup (group_from pairs gs)
            → All ReachedGroup gs × All ReachedModule (filter is_complete pairs))
          → (b : Bool)
          → All ReachedGroup (group_from pairs (if b then add_to_group m groups else groups))
          → All ReachedGroup groups
            × All ReachedModule
                (if b then m ∷ filter is_complete pairs else filter is_complete pairs)
      by_flag later true k =
          let r = later (add_to_group m groups) k in
          let a = add_to_group-Reached m groups r.0 in (a.1, (a.0, r.1))
      by_flag later false k = later groups k

  insert_group-Reached :
      (g : Group) (groups : List Group)
      → All ReachedGroup (insert_group g groups)
      → All ReachedGroup (g ∷ groups)
  unfolding insert_group
  insert_group-Reached g [] h = h
  insert_group-Reached g (k ∷ groups) h =
      if_cases (λ gs. All ReachedGroup gs → All ReachedGroup (g ∷ k ∷ groups)) (less_group k g)
        (k ∷ insert_group g groups) (g ∷ k ∷ groups)
        (λ _ j. let r = insert_group-Reached g groups j.1 in (r.0, (j.0, r.1))) (λ _ j. j) h

  sort_groups-Reached :
      (groups : List Group) → All ReachedGroup (sort_groups groups) → All ReachedGroup groups
  unfolding sort_groups
  sort_groups-Reached [] h = h
  sort_groups-Reached (g ∷ groups) h =
      let r = insert_group-Reached g (sort_groups groups) h in (r.0, sort_groups-Reached groups r.1)

  entry_of-Reached :
      (g : Group) → Holds (λ e. e.blockers ≡ [] → ReachedGroup g) (entry_of (some surfaces) g)
  unfolding entry_of
  entry_of-Reached g = Holds-bind P (dimensions 0 (shapes_a g.modules)) _ λ ranks _.
      Holds-bind P (dimensions 1 (shapes_a g.modules)) _ λ columns _.
        Holds-bind P (dimensions 0 (shapes_b g.modules)) _ λ rows _.
          no_blockers_reached g.family g.target (get (key_of g.family g.target) surfaces)
            (layers_of g.modules)
    where
      P : ContextEntry → Type 0
      P e = e.blockers ≡ [] → ReachedGroup g

  entries_of-Reached :
      (groups : List Group)
      → Holds
          (λ es. blockers_of_entries es ≡ [] → All ReachedGroup groups)
          (entries_of (some surfaces) groups)
  unfolding entries_of
  entries_of-Reached [] = λ e. tt
  entries_of-Reached (g ∷ groups) = Holds-bind P (entry_of (some surfaces) g) _ λ entry e.
      Holds-bind P (entries_of (some surfaces) groups) _ λ entries f empty.
        let b = append_none entry.blockers (blockers_of_entries entries) empty in
        (
          Holds_some (λ en. en.blockers ≡ [] → ReachedGroup g) (entry_of (some surfaces) g) entry
              (entry_of-Reached g) e b.0,
          Holds_some (λ es. blockers_of_entries es ≡ [] → All ReachedGroup groups)
              (entries_of (some surfaces) groups) entries (entries_of-Reached groups) f b.1,
        )
    where
      P : List ContextEntry → Type 0
      P es = blockers_of_entries es ≡ [] → ReachedGroup g × All ReachedGroup groups

  pub build_context_entries-Reached :
      (pairs : List LoraModule) (entries : List ContextEntry)
      → build_context_entries pairs (some surfaces) ≡ some entries
      → blockers_of_entries entries ≡ []
      → All ReachedModule (filter is_complete pairs)
  unfolding build_context_entries
  build_context_entries-Reached pairs entries e empty =
      (group_from-Reached pairs [] (
        sort_groups-Reached (group_from pairs []) (
          Holds_some
            (λ es.
              blockers_of_entries es ≡ [] → All ReachedGroup (sort_groups (group_from pairs [])))
            _ entries (entries_of-Reached (sort_groups (group_from pairs []))) e empty))).1

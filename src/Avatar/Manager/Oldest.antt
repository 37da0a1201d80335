-- ===== src/Avatar/Manager/Oldest.antt =====
-- Which session the eviction of hydralisk/avatar/session.py picks.
use hydralisk.Prelude.{
  ℕ, ◌≤◌, ◌≡◌, refl, ◌⊎◌, inl, inr, true, false, none, some, List, [], ◌∷◌, arith, leb, All,
  Bool-cases, if_cases, leb→le,
}
use hydralisk.Avatar.Manager.{
  Entry, peer_connected, insert_by_created, sort_by_created, first_without_peer,
}

abbrev pub Mem : {A : Type 0} → A → List A → Type 0
Mem a [] = ⊥
Mem a (x ∷ xs) = (a ≡ x) ⊎ Mem a xs

module _ {Frame : Type 0} where
  abbrev created : Entry Frame → ℕ
  created e = e.session.created

  abbrev IsSorted : List (Entry Frame) → Type 0
  IsSorted [] = Unit
  IsSorted (x ∷ xs) = All (λ y. created x ≤ created y) xs × IsSorted xs

  insert-All :
      (P : Entry Frame → Type 0) (e : Entry Frame) (xs : List (Entry Frame))
      → P e
      → All P xs
      → All P (insert_by_created e xs)
  unfolding insert_by_created
  insert-All P e [] p ps = (p, tt)
  insert-All P e (x ∷ xs) p ps =
      if_cases (All P) (leb (created e) (created x)) _ _ (λ _. (p, ps))
        (λ _. (ps.0, insert-All P e xs p ps.1))

  All-trans :
      (a b : ℕ) (xs : List (Entry Frame))
      → a ≤ b
      → All (λ y. b ≤ created y) xs
      → All (λ y. a ≤ created y) xs
  All-trans a b [] h v = tt
  All-trans a b (x ∷ xs) h v = (omega (arith, v.0), All-trans a b xs h v.1)

  insert-IsSorted :
      (e : Entry Frame) (xs : List (Entry Frame)) → IsSorted xs → IsSorted (insert_by_created e xs)
  unfolding insert_by_created
  insert-IsSorted e [] v = (tt, tt)
  insert-IsSorted e (x ∷ xs) v =
      if_cases IsSorted (leb (created e) (created x)) _ _
        (λ h. (
          (
            leb→le (created e) (created x) h,
            All-trans (created e) (created x) xs (leb→le (created e) (created x) h) v.0,
          ),
          v,
        ))
        (λ h. (
          insert-All (λ y. created x ≤ created y) e xs (ground (arith, h)) v.0,
          insert-IsSorted e xs v.1,
        ))

  sort-IsSorted : (xs : List (Entry Frame)) → IsSorted (sort_by_created xs)
  unfolding sort_by_created
  sort-IsSorted [] = tt
  sort-IsSorted (x ∷ xs) = insert-IsSorted x (sort_by_created xs) (sort-IsSorted xs)

  insert-Mem :
      (a e : Entry Frame) (xs : List (Entry Frame))
      → Mem a (insert_by_created e xs)
      → (a ≡ e) ⊎ Mem a xs
  unfolding insert_by_created
  insert-Mem a e [] = λ h. h
  insert-Mem a e (x ∷ xs) =
      if_cases (λ l. Mem a l → (a ≡ e) ⊎ Mem a (x ∷ xs)) (leb (created e) (created x)) _ _
        (λ _ h. h)
        (λ _ h. elim h [
          | inl p ↦ inr (inl p)
          | inr q ↦ elim (insert-Mem a e xs q) [ inl p ↦ inl p | inr r ↦ inr (inr r) ]
        ])

  sort-Mem : (a : Entry Frame) (xs : List (Entry Frame)) → Mem a (sort_by_created xs) → Mem a xs
  unfolding sort_by_created
  sort-Mem a [] h = h
  sort-Mem a (x ∷ xs) h = elim (insert-Mem a x (sort_by_created xs) h) [
    | inl p ↦ inl p
    | inr q ↦ inr (sort-Mem a xs q)
  ]

  insert-All_inv :
      (P : Entry Frame → Type 0) (e : Entry Frame) (xs : List (Entry Frame))
      → All P (insert_by_created e xs)
      → P e × All P xs
  unfolding insert_by_created
  insert-All_inv P e [] = λ h. h
  insert-All_inv P e (x ∷ xs) =
      if_cases (λ l. All P l → P e × All P (x ∷ xs)) (leb (created e) (created x)) _ _ (λ _ h. h)
        (λ _ h. let (p, ps) = insert-All_inv P e xs h.1 in (p, (h.0, ps)))

  sort-All_inv :
      (P : Entry Frame → Type 0) (xs : List (Entry Frame)) → All P (sort_by_created xs) → All P xs
  unfolding sort_by_created
  sort-All_inv P [] h = tt
  sort-All_inv P (x ∷ xs) h =
      let (p, ps) = insert-All_inv P x (sort_by_created xs) h in (p, sort-All_inv P xs ps)

  -- `e` is one of `xs` without a peer, and as old as any other such one.
  pub record IsOldest (e : Entry Frame) (xs : List (Entry Frame)) : Type 0 where
    pub one_of : Mem e xs
    pub no_peer : peer_connected e.pc ≡ false
    pub older : All (λ y. (peer_connected y.pc ≡ true) ⊎ (e.session.created ≤ y.session.created)) xs

  All-map :
      (P Q : Entry Frame → Type 0)
      → ((e : Entry Frame) → P e → Q e)
      → (xs : List (Entry Frame)) → All P xs
      → All Q xs
  All-map P Q f [] h = tt
  All-map P Q f (x ∷ xs) h = (f x h.0, All-map P Q f xs h.1)

  first_without_peer_sorted :
      (xs : List (Entry Frame))
      → IsSorted xs
      → ((first_without_peer xs ≡ none) × All (λ y. peer_connected y.pc ≡ true) xs)
        ⊎ ((e : Entry Frame) × (first_without_peer xs ≡ some e) × IsOldest e xs)
  unfolding first_without_peer
  first_without_peer_sorted [] v = inl (refl, tt)
  first_without_peer_sorted (x ∷ xs) v = elim (Bool-cases (peer_connected x.pc)) [
    | inl h ↦ elim (first_without_peer_sorted xs v.1) [
      | inl (e, all) ↦ inl (rw h e, (h, all))
      | inr (a, e, oldest) ↦ inr (
        a,
        rw h e,
        record {
          one_of = inr oldest.one_of;
          no_peer = oldest.no_peer;
          older = (inl h, oldest.older);
        },
      )
    ]
    | inr h ↦ inr (
      x,
      rw h refl,
      record {
        one_of = inl refl;
        no_peer = h;
        older = (inr (omega arith), All-map _ _ (λ y le. inr le) xs v.0);
      },
    )
  ]

  pub first_without_peer-IsOldest :
      (xs : List (Entry Frame))
      → ((first_without_peer (sort_by_created xs) ≡ none)
          × All (λ y. peer_connected y.pc ≡ true) xs)
        ⊎ ((e : Entry Frame) × (first_without_peer (sort_by_created xs) ≡ some e) × IsOldest e xs)
  first_without_peer-IsOldest xs =
      elim (first_without_peer_sorted (sort_by_created xs) (sort-IsSorted xs)) [
        | inl (e, all) ↦ inl (e, sort-All_inv _ xs all)
        | inr (a, e, oldest) ↦ inr (
          a,
          e,
          record {
            one_of = sort-Mem a xs oldest.one_of;
            no_peer = oldest.no_peer;
            older = sort-All_inv _ xs oldest.older;
          },
        )
      ]

-- ===== src/Serve/Gate/Held.antt =====
-- What hydralisk/serve/proxy.py's gate counts, over any history of requests.
use hydralisk.Prelude.{
  ℕ, zero, suc, ◌+◌, ◌-◌, ◌≤◌, ◌<◌, ◌≡◌, refl, ◌∙◌, ◌⊎◌, inl, inr, Bool, true, false, ◌||◌, Option,
  none, some, List, [], ◌∷◌, ◌++◌, arith, ◌==◌, if◌then◌else◌, length, Option-cases,
}
use hydralisk.Serve.Gate.{
  Lease, InflightGate, granted, saturated, waits, make_gate, acquire, raise_saturated, release,
  release_once, lease_at, mark_released, Use, acquires, releases, use_gate,
}

abbrev count : Bool → ℕ
count true = 0
count false = 1

-- The leases that are not released yet.
abbrev pub held : List Lease → ℕ
held [] = 0
held (l ∷ ls) = count l.released + held ls

abbrev pub AllBounded : Bool → List Lease → Type 0
AllBounded b [] = Unit
AllBounded b (l ∷ ls) = (l.bounded ≡ b) × AllBounded b ls

abbrev is_bounded : InflightGate → Bool
is_bounded g = elim g.permits [ none ↦ false | some n ↦ true ]

-- The permits that are left, and those in use, are the limit.
abbrev Shares : Option ℕ → Option ℕ → ℕ → Type 0
Shares limit none current = (limit ≡ none) ⊎ (limit ≡ some 0)
Shares limit (some n) current = (limit ≡ some (n + current)) × (0 < n + current)

pub record IsValid (g : InflightGate) : Type 0 where
  pub counted : g.current ≡ held g.leases
  pub shares : Shares g.limit g.permits g.current
  pub kinds : AllBounded (is_bounded g) g.leases

held-append :
    (xs : List Lease) (b : Bool)
    → held (xs ++ record { bounded = b; released = false } ∷ []) ≡ held xs + 1
held-append [] b = omega arith
held-append (x ∷ xs) b = omega (arith, held-append xs b)

AllBounded-append :
    (xs : List Lease) (b : Bool)
    → AllBounded b xs
    → AllBounded b (xs ++ record { bounded = b; released = false } ∷ [])
AllBounded-append [] b v = (refl, tt)
AllBounded-append (x ∷ xs) b v = (v.0, AllBounded-append xs b v.1)

held-mark_released :
    (xs : List Lease) (i : ℕ) (l : Lease)
    → lease_at xs i ≡ some l
    → l.released ≡ false
    → held (mark_released xs i) + 1 ≡ held xs
held-mark_released [] i l e h = absurd (cc)
held-mark_released (x ∷ xs) zero l e h = ground (arith, e, h)
held-mark_released (x ∷ xs) (suc i) l e h = omega (arith, held-mark_released xs i l e h)

AllBounded-mark_released :
    (xs : List Lease) (b : Bool) (i : ℕ) → AllBounded b xs → AllBounded b (mark_released xs i)
AllBounded-mark_released [] b i v = tt
AllBounded-mark_released (x ∷ xs) b zero v = v
AllBounded-mark_released (x ∷ xs) b (suc i) v = (v.0, AllBounded-mark_released xs b i v.1)

lease_at-AllBounded :
    (xs : List Lease) (b : Bool) (i : ℕ) (l : Lease)
    → AllBounded b xs
    → lease_at xs i ≡ some l
    → l.bounded ≡ b
lease_at-AllBounded [] b i l v e = absurd (cc)
lease_at-AllBounded (x ∷ xs) b zero l v e = ground (arith, e, v)
lease_at-AllBounded (x ∷ xs) b (suc i) l v e = lease_at-AllBounded xs b i l v.1 e

acquire-IsValid :
    (expired : Bool) (now : ℕ) (g : InflightGate) → IsValid g → IsValid (acquire expired now g).1
unfolding acquire raise_saturated
acquire-IsValid expired now g v = elim (Option-cases g.permits) [
  | inl e ↦ ground (arith, e, v, held-append g.leases false, AllBounded-append g.leases false)
  | inr (zero, e) ↦ ground (arith, e, v)
  | inr (suc n, e) ↦
      ground (arith, e, v, held-append g.leases true, AllBounded-append g.leases true)
]

release-IsValid : (i : ℕ) (g : InflightGate) → IsValid g → IsValid (release i g)
unfolding release release_once
release-IsValid i g v = elim (Option-cases (lease_at g.leases i)) [
  | inl e ↦ ground (arith, e, v)
  | inr (l, e) ↦ ground (
    arith,
    e,
    v,
    held-mark_released g.leases i l,
    AllBounded-mark_released g.leases (is_bounded g) i,
    lease_at-AllBounded g.leases (is_bounded g) i l,
  )
]

use_gate-IsValid : (uses : List Use) (g : InflightGate) → IsValid g → IsValid (use_gate uses g)
unfolding use_gate
use_gate-IsValid [] g v = v
use_gate-IsValid (acquires expired now ∷ uses) g v =
    use_gate-IsValid uses (acquire expired now g).1 (acquire-IsValid expired now g v)
use_gate-IsValid (releases i ∷ uses) g v =
    use_gate-IsValid uses (release i g) (release-IsValid i g v)

make_gate-IsValid : (limit : Option ℕ) (timeout : ℕ) → IsValid (make_gate limit timeout)
unfolding make_gate
make_gate-IsValid none timeout = record { counted = refl; shares = inl refl; kinds = tt }
make_gate-IsValid (some zero) timeout = record { counted = refl; shares = inr refl; kinds = tt }
make_gate-IsValid (some (suc n)) timeout = ground arith

use_gate-limit : (uses : List Use) (g : InflightGate) → (use_gate uses g).limit ≡ g.limit
unfolding use_gate
use_gate-limit [] g = refl
use_gate-limit (acquires expired now ∷ uses) g =
    use_gate-limit uses (acquire expired now g).1 ∙ kept
  where
    kept : (acquire expired now g).1.limit ≡ g.limit
    kept = unfold acquire raise_saturated in ground arith
use_gate-limit (releases i ∷ uses) g = use_gate-limit uses (release i g) ∙ kept
  where
    kept : (release i g).limit ≡ g.limit
    kept = unfold release release_once in ground arith

-- No limit is set, or the limit is zero, which the gate takes for none.
abbrev pub IsUnlimited : Option ℕ → Type 0
IsUnlimited limit = (limit ≡ none) ⊎ (limit ≡ some 0)

-- In any history of a new gate `current` is the number of leases that are handed out and not
-- released. Under a limit it never passes the limit, and the permits left are what the limit lacks.
pub use_gate-held :
    (uses : List Use) (limit : Option ℕ) (timeout : ℕ)
    → let g = use_gate uses (make_gate limit timeout) in
      (g.current ≡ held g.leases)
      × (IsUnlimited limit
          ⊎ ((n : ℕ) × (limit ≡ some n) × (g.current ≤ n) × (g.permits ≡ some (n - g.current))))
use_gate-held uses limit timeout =
    let v = use_gate-IsValid uses (make_gate limit timeout) (make_gate-IsValid limit timeout) in
    (v.counted, within (Option-cases (use_gate uses (make_gate limit timeout)).permits) v)
  where
    g : InflightGate
    g = use_gate uses (make_gate limit timeout)

    same : g.limit ≡ limit
    same = use_gate-limit uses (make_gate limit timeout) ∙ (unfold make_gate in refl)

    within :
        (g.permits ≡ none) ⊎ ((n : ℕ) × (g.permits ≡ some n))
        → IsValid g
        → IsUnlimited limit
          ⊎ ((n : ℕ) × (limit ≡ some n) × (g.current ≤ n) × (g.permits ≡ some (n - g.current)))
    within (inl e) v = inl (ground (arith, e, same, v.shares))
    within (inr (n, e)) v =
        inr (n + g.current, ground (arith, e, same, v.shares), omega arith, ground (arith, e))

-- A gate admits a request exactly where it has no limit or fewer leases than that are held. At the
-- limit a request waits, until its queue timeout is over, and is then refused; with no queue timeout
-- it is refused at once. A refusal is counted, and leaves the leases and the permits alone.
pub acquire-admits :
    (expired : Bool) (now : ℕ) (g : InflightGate)
    → IsValid g
    → let r = acquire expired now g in
      ((IsUnlimited g.limit ⊎ ((n : ℕ) × (g.limit ≡ some n) × (held g.leases < n)))
        × (r.0 ≡ granted (length g.leases))
        × (held r.1.leases ≡ held g.leases + 1)
        × (r.1.busy_rejections_total ≡ g.busy_rejections_total))
      ⊎ ((g.limit ≡ some (held g.leases))
          × (0 < held g.leases)
          × (r.0 ≡ (if g.queue_timeout == 0 || expired then saturated else waits))
          × (r.1.leases ≡ g.leases)
          × (r.1.permits ≡ g.permits)
          × (r.1.busy_rejections_total ≡ (
              if g.queue_timeout == 0 || expired
              then g.busy_rejections_total + 1
              else g.busy_rejections_total)))
unfolding acquire raise_saturated
acquire-admits expired now g v = elim (Option-cases g.permits) [
  | inl e ↦ inl (ground (arith, e, v, held-append g.leases false))
  | inr (zero, e) ↦ inr (ground (arith, e, v))
  | inr (suc n, e) ↦ inl (
    inr (suc n + g.current, ground (arith, e, v), ground (arith, e, v)),
    ground (arith, e),
    ground (arith, e, held-append g.leases true),
    ground (arith, e),
  )
]

lease_at-mark_released :
    (xs : List Lease) (i : ℕ) (l : Lease)
    → lease_at xs i ≡ some l
    → lease_at (mark_released xs i) i ≡ some (record l { released = true })
lease_at-mark_released [] i l e = absurd (cc)
lease_at-mark_released (x ∷ xs) zero l e = ground (arith, e)
lease_at-mark_released (x ∷ xs) (suc i) l e = lease_at-mark_released xs i l e

-- A lease is given back once: releasing it again changes nothing.
pub release_idempotent : (i : ℕ) (g : InflightGate) → release i (release i g) ≡ release i g
unfolding release release_once
release_idempotent i g = elim (Option-cases (lease_at g.leases i)) [
  | inl e ↦ ground (arith, e)
  | inr (l, e) ↦ ground (arith, e, lease_at-mark_released g.leases i l)
]

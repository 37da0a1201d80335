-- ===== src/Serve/Gate/Tests.antt =====
-- Examples for hydralisk/serve/proxy.py: the gate.
use hydralisk.Prelude.{ℕ, ◌-◌, ◌≤◌, ◌≡◌, ◌⊎◌, refl, arith, true, false, none, some, List, [], ◌∷◌}
use hydralisk.Serve.Gate.{InflightGate, make_gate, use_gate, Use, acquires, releases}
use hydralisk.Serve.Gate.Held.{held, IsValid, IsUnlimited, use_gate-held}

-- Two requests are admitted and a third is refused; one lease is given back, twice.
abbrev some_uses : List Use
some_uses =
    acquires false 1
    ∷ acquires false 2
    ∷ acquires false 3
    ∷ releases 0
    ∷ releases 0
    ∷ acquires false 4
    ∷ []

use_gate-held_example :
    let g = use_gate some_uses (make_gate (some 2) 0) in
    (g.current ≡ held g.leases)
    × (IsUnlimited (some 2)
        ⊎ ((n : ℕ) × (some 2 ≡ some n) × (g.current ≤ n) × (g.permits ≡ some (n - g.current))))
use_gate-held_example = use_gate-held some_uses (some 2) 0

abbrev busy : InflightGate
busy = record {
  limit = some 1;
  queue_timeout = 0;
  permits = some 0;
  current = 1;
  busy_rejections_total = 4;
  last_busy_at = none;
  leases = record { bounded = true; released = false } ∷ [];
}

busy-IsValid : IsValid busy
busy-IsValid = record { counted = refl; shares = (refl, omega arith); kinds = (refl, tt) }

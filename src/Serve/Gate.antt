-- ===== src/Serve/Gate.antt =====
-- hydralisk/serve/proxy.py: `_InflightGate` and `_InflightLease`, the limit on requests in flight.
-- `asyncio.Semaphore` is its number of permits; the order of its waiters is left out. A call of
-- `acquire` that has to wait is asked again, with whether its queue timeout has run out. A lease is
-- named by its place in the list of those handed out. Times are milliseconds.
pub mod Held
pub mod Tests
use hydralisk.Prelude.{
  ℕ, zero, suc, ◌+◌, ◌-◌, Bool, true, false, not, ◌||◌, Option, none, some, List, [], ◌∷◌, ◌++◌,
  ltb, ◌==◌, if◌then◌else◌, length,
}

-- `_release_once` is `_release_bounded` or `_release_unbounded`.
pub record Lease : Type 0 where
  pub bounded : Bool
  pub released : Bool

pub record InflightGate : Type 0 where
  pub limit : Option ℕ
  pub queue_timeout : ℕ
  pub permits : Option ℕ
  pub current : ℕ
  pub busy_rejections_total : ℕ
  pub last_busy_at : Option ℕ
  pub leases : List Lease

-- `asyncio.Semaphore(limit) if limit else None`
abbrev pub semaphore : Option ℕ → Option ℕ
semaphore none = none
semaphore (some n) = if n == 0 then none else some n

unfoldable pub make_gate : Option ℕ → ℕ → InflightGate
make_gate limit queue_timeout = record {
  limit = limit;
  queue_timeout = queue_timeout;
  permits = semaphore limit;
  current = 0;
  busy_rejections_total = 0;
  last_busy_at = none;
  leases = [];
}

pub data Admission : Type 0 where
  granted : ℕ → Admission
  saturated : Admission
  waits : Admission

abbrev pub hand_out : Bool → InflightGate → Admission × InflightGate
hand_out bounded g = (
  granted (length g.leases),
  record g {
    current = g.current + 1;
    leases = g.leases ++ record { bounded = bounded; released = false } ∷ [];
  },
)

unfoldable pub raise_saturated : ℕ → InflightGate → Admission × InflightGate
raise_saturated now g = (
  saturated,
  record g { busy_rejections_total = g.busy_rejections_total + 1; last_busy_at = some now },
)

abbrev pub acquire_permit : Bool → ℕ → Option ℕ → InflightGate → Admission × InflightGate
acquire_permit expired now none g = hand_out false g
acquire_permit expired now (some zero) g =
    if g.queue_timeout == 0 || expired then raise_saturated now g else (waits, g)
acquire_permit expired now (some (suc n)) g = hand_out true (record g { permits = some n })

unfoldable pub acquire : Bool → ℕ → InflightGate → Admission × InflightGate
acquire expired now g = acquire_permit expired now g.permits g

abbrev pub give_back : Option ℕ → Option ℕ
give_back none = none
give_back (some n) = some (n + 1)

-- `_release_bounded` and `_release_unbounded`
unfoldable pub release_once : Bool → InflightGate → InflightGate
release_once bounded g = record g {
  current = g.current - 1;
  permits = if bounded then give_back g.permits else g.permits;
}

abbrev pub lease_at : List Lease → ℕ → Option Lease
lease_at [] i = none
lease_at (l ∷ ls) zero = some l
lease_at (l ∷ ls) (suc i) = lease_at ls i

abbrev pub mark_released : List Lease → ℕ → List Lease
mark_released [] i = []
mark_released (l ∷ ls) zero = record l { released = true } ∷ ls
mark_released (l ∷ ls) (suc i) = l ∷ mark_released ls i

abbrev pub release_lease : Option Lease → ℕ → InflightGate → InflightGate
release_lease none i g = g
release_lease (some l) i g =
    if l.released
    then g
    else release_once l.bounded (record g { leases = mark_released g.leases i })

-- `_InflightLease.release`
unfoldable pub release : ℕ → InflightGate → InflightGate
release i g = release_lease (lease_at g.leases i) i g

-- What requests do to the gate, as data.
pub data Use : Type 0 where
  acquires : Bool → ℕ → Use
  releases : ℕ → Use

unfoldable pub use_gate : List Use → InflightGate → InflightGate
use_gate [] g = g
use_gate (acquires expired now ∷ rest) g = use_gate rest (acquire expired now g).1
use_gate (releases i ∷ rest) g = use_gate rest (release i g)

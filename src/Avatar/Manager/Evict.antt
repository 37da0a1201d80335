-- ===== src/Avatar/Manager/Evict.antt =====
-- What an eviction of hydralisk/avatar/session.py does, and that it makes room for one session.
use mathlib.Core.Path.{subst}
use hydralisk.Prelude.{
  ℕ, ◌+◌, ◌≤◌, ◌<◌, ◌≡◌, ◌≢◌, refl, sym, ap, ◌∙◌, ◌⊎◌, inl, inr, String, true, false, Option, none,
  some, List, [], ◌∷◌, arith, ltb, str_eq, eq_iff, if◌then◌else◌, if_cases, ltb→lt, ltb→le,
  Bool-cases, All,
}
use hydralisk.Avatar.Scheduler.{FrameScheduler}
use hydralisk.Avatar.Session
use hydralisk.Avatar.Session.{Session}
use hydralisk.Avatar.Manager.{
  Entry, SessionManager, PeerConnection, active, active_sessions, alter, get, insert, create, evict,
  evict_one_stale, peer_connected,
}
use hydralisk.Avatar.Manager.Oldest.{Mem, IsOldest, first_without_peer-IsOldest}
use hydralisk.Avatar.Manager.Dict.{IsDict}
use hydralisk.Avatar.Manager.Limit.{busy, stop-IsStopped}

module _ {Frame : Type 0} where
  active-Mem :
      (e : Entry Frame) (xs : List (Entry Frame))
      → Mem e (active xs)
      → Mem e xs × (e.session.stopped ≡ false)
  active-Mem e [] = λ h. absurd h
  active-Mem e (x ∷ xs) =
      if_cases (λ l. Mem e l → Mem e (x ∷ xs) × (e.session.stopped ≡ false)) x.session.stopped _ _
        (λ s h. let (m, a) = active-Mem e xs h in (inr m, a))
        (λ s h. elim h [
          | inl p ↦ (inl p, ap (λ (y : Entry Frame). y.session.stopped) p ∙ s)
          | inr q ↦ let (m, a) = active-Mem e xs q in (inr m, a)
        ])

  Mem-All :
      (P : Entry Frame → Type 0) (e : Entry Frame) (xs : List (Entry Frame))
      → All P xs
      → Mem e xs
      → P e
  Mem-All P e [] v h = absurd h
  Mem-All P e (x ∷ xs) v (inl p) = subst P (sym p) v.0
  Mem-All P e (x ∷ xs) v (inr q) = Mem-All P e xs v.1 q

  -- `alter` finds the entry that a dictionary holds under its reference.
  alter-Mem :
      (f : Session Frame → Session Frame) (e : Entry Frame) (xs : List (Entry Frame))
      → IsDict xs
      → Mem e xs
      → e.session.stopped ≡ false
      → (f e.session).stopped ≡ true
      → (busy (alter e.session_ref f xs) + 1 ≡ busy xs)
        × (get e.session_ref (alter e.session_ref f xs) ≡ some (record e { session = f e.session }))
  unfolding alter get
  alter-Mem f e [] v h runs ends = absurd h
  alter-Mem f e (x ∷ xs) v (inl p) runs ends =
      ground
        (arith, p, eq_iff x.session_ref e.session_ref, ap (λ (y : Entry Frame). y.session_ref) p)
  alter-Mem f e (x ∷ xs) v (inr q) runs ends =
      let other : e.session_ref ≢ x.session_ref =
        Mem-All (λ (y : Entry Frame). y.session_ref ≢ x.session_ref) e xs v.0 q in
      ground (arith, alter-Mem f e xs v.1 q runs ends, other, eq_iff x.session_ref e.session_ref)

  alter-get :
      (ref other : String) (f : Session Frame → Session Frame) (xs : List (Entry Frame))
      → other ≢ ref
      → get other (alter ref f xs) ≡ get other xs
  unfolding alter get
  alter-get ref other f [] h = refl
  alter-get ref other f (x ∷ xs) h =
      ground
        (arith, alter-get ref other f xs h, eq_iff x.session_ref ref, eq_iff x.session_ref other)

  get-insert :
      (e : Entry Frame) (xs : List (Entry Frame)) → get e.session_ref (insert e xs) ≡ some e
  unfolding insert get
  get-insert e [] = ground (arith, eq_iff e.session_ref e.session_ref)
  get-insert e (x ∷ xs) = ground (
    arith,
    get-insert e xs,
    eq_iff x.session_ref e.session_ref,
    eq_iff e.session_ref e.session_ref,
  )

  abbrev pub evicted : ℕ → Entry Frame → Entry Frame
  evicted now e = record e { session = Session.stop "evicted_stale_no_peer" now e.session }

  alter_entry :
      (now : ℕ) (e : Entry Frame) (xs : List (Entry Frame))
      → IsDict xs
      → Mem e (active xs)
      → let ys = alter e.session_ref (Session.stop "evicted_stale_no_peer" now) xs in
        (busy ys + 1 ≡ busy xs)
        × ((ref : String)
            → get ref ys ≡ (if str_eq ref e.session_ref then some (evicted now e) else get ref xs))
  alter_entry now e xs dict one_of = (found.0, at)
    where
      ys : List (Entry Frame)
      ys = alter e.session_ref (Session.stop "evicted_stale_no_peer" now) xs

      member : Mem e xs × (e.session.stopped ≡ false)
      member = active-Mem e xs one_of

      found : (busy ys + 1 ≡ busy xs) × (get e.session_ref ys ≡ some (evicted now e))
      found =
          alter-Mem (Session.stop "evicted_stale_no_peer" now) e xs dict member.0 member.1
            (stop-IsStopped "evicted_stale_no_peer" now e.session)

      at :
          (ref : String)
          → get ref ys ≡ (if str_eq ref e.session_ref then some (evicted now e) else get ref xs)
      at ref = elim (Bool-cases (str_eq ref e.session_ref)) [
        | inl h ↦ ground (arith, h, found.1, eq_iff ref e.session_ref)
        | inr h ↦ ground (
          arith,
          h,
          alter-get e.session_ref ref (Session.stop "evicted_stale_no_peer" now) xs,
          eq_iff ref e.session_ref,
        )
      ]

  -- `r` is `m` as it was, or with one session of it stopped.
  abbrev pub Evicts : ℕ → SessionManager Frame → Option String × SessionManager Frame → Type 0
  Evicts now m r =
      ((r ≡ (none, m))
        × ((busy m.sessions < m.max_sessions)
            ⊎ All (λ (y : Entry Frame). peer_connected y.pc ≡ true) (active_sessions m)))
      ⊎ ((e : Entry Frame) × IsOldest e (active_sessions m)
          × (r.0 ≡ some e.session_ref)
          × (m.max_sessions ≤ busy m.sessions)
          × (busy r.1.sessions + 1 ≡ busy m.sessions)
          × (r.1.max_sessions ≡ m.max_sessions)
          × ((ref : String)
              → get ref r.1.sessions
                ≡ (if str_eq ref e.session_ref then some (evicted now e) else get ref m.sessions)))

  -- With room left an eviction does nothing. Otherwise it either does nothing, where a viewer is
  -- connected to every active session, or stops one: an active session without a viewer, no younger
  -- than any other such session. That one is stopped and stays under its reference, the other
  -- references lead to the sessions they led to, and one session less is active.
  pub evict_one_stale-oldest :
      (now : ℕ) (m : SessionManager Frame)
      → IsDict m.sessions
      → Evicts now m (evict_one_stale now m)
  unfolding evict_one_stale
  evict_one_stale-oldest now m dict =
      if_cases (Evicts now m) (ltb (busy m.sessions) m.max_sessions) _ _
        (λ h. inl (refl, inl (ltb→lt (busy m.sessions) m.max_sessions h)))
        (λ h. elim (first_without_peer-IsOldest (active_sessions m)) [
          | inl (e, all) ↦ subst (λ o. Evicts now m (evict now o m)) (sym e) (inl (refl, inr all))
          | inr (a, e, oldest) ↦
              let (fewer, at) = alter_entry now a m.sessions dict oldest.one_of in
              subst (λ o. Evicts now m (evict now o m)) (sym e)
                (inr (a, oldest, refl, ltb→le (busy m.sessions) m.max_sessions h, fewer, refl, at))
        ])

  create_room :
      (new : String) (pc : Option PeerConnection) (fps timeout : ℕ) (t : FrameScheduler) (now : ℕ)
      (m : SessionManager Frame)
      → busy m.sessions < m.max_sessions
      → (m' : SessionManager Frame) × (create new pc fps timeout t now m ≡ some m')
        × (get new m'.sessions
            ≡ some
                (record { session_ref = new; pc = pc; session = Session.start fps timeout t now }))
  unfolding create
  create_room new pc fps timeout t now m room =
      let e : Entry Frame = record {
        session_ref = new;
        pc = pc;
        session = Session.start fps timeout t now;
      } in
      (record m { sessions = insert e m.sessions }, ground (arith, room), get-insert e m.sessions)

  -- An eviction that stops a session makes room: the next `create` is given a session.
  pub create-evict_one_stale :
      (now : ℕ) (m : SessionManager Frame) (ref new : String) (pc : Option PeerConnection)
      (fps timeout : ℕ) (t : FrameScheduler)
      → IsDict m.sessions
      → busy m.sessions ≤ m.max_sessions
      → (evict_one_stale now m).0 ≡ some ref
      → (m' : SessionManager Frame) × (create new pc fps timeout t now (evict_one_stale now m).1
          ≡ some m')
        × (get new m'.sessions
            ≡ some
                (record { session_ref = new; pc = pc; session = Session.start fps timeout t now }))
  create-evict_one_stale now m ref new pc fps timeout t dict within stopped_one =
      create_room new pc fps timeout t now (evict_one_stale now m).1
        (elim (evict_one_stale-oldest now m dict) [
          | inl (same, why) ↦ absurd (ground (arith, same, stopped_one))
          | inr (e, oldest, which, full, fewer, same_max, at) ↦
              omega (arith, fewer, same_max, within)
        ])

-- ===== src/Avatar/Manager/Limit.antt =====
-- The session limit of hydralisk/avatar/session.py, over any history of the manager.
use mathlib.Core.Path.{subst}
use hydralisk.Prelude.{
  ℕ, suc, ◌+◌, ◌≤◌, ◌≡◌, refl, sym, ap, ◌∙◌, inl, inr, String, true, Option, none, some, List, [],
  ◌∷◌, arith, ltb, str_eq, if◌then◌else◌, if_cases, some_path, length, Option-cases,
}
use hydralisk.Avatar.Protocol.{ControlMessage}
use hydralisk.Avatar.Scheduler.{FrameScheduler}
use hydralisk.Avatar.Session
use hydralisk.Avatar.Session.{
  Session, Call, control, begins, begin_loop, round, stops, perform, handle_control, control_speak,
  control_speak_end, control_interrupt, control_listening, finish_tick, end_drained, render_failed,
  rendered, after_tick, reap, report_failure, loop_round, tick_async,
}
use hydralisk.Avatar.Manager.{
  Entry, SessionManager, PeerConnection, active, active_sessions, insert, alter, create, evict,
  evict_one_stale, stop, stop_entries, stop_all, first_without_peer, sort_by_created,
}

module _ {Frame : Type 0} where
  handle_control-stopped :
      (now : ℕ) (msg : ControlMessage) (s : Session Frame)
      → (handle_control now msg s).1.stopped ≡ s.stopped
  unfolding handle_control control_speak control_speak_end control_interrupt control_listening
  handle_control-stopped now msg s = ground arith

  abbrev pub IsStopped : Session Frame → Type 0
  IsStopped s = s.stopped ≡ true

  pub stop-IsStopped :
      (reason : String) (now : ℕ) (s : Session Frame) → IsStopped (Session.stop reason now s)
  unfolding Session.stop
  stop-IsStopped reason now s = ground arith

  perform-IsStopped :
      (c : Call Frame) (s s' : Session Frame) → perform c s ≡ some s' → IsStopped s → IsStopped s'
  unfolding loop_round
  perform-IsStopped (control now msg) s s' e h =
      subst IsStopped (some_path e) (handle_control-stopped now msg s ∙ h)
  perform-IsStopped (stops reason now) s s' e h =
      subst IsStopped (some_path e) (stop-IsStopped reason now s)
  perform-IsStopped (begins now) s s' e h = subst IsStopped (some_path e) h
  perform-IsStopped (round render peer now) s s' e h =
      let same : s ≡ s' = ground (arith, e, h) in subst IsStopped same h

-- What happens to a manager, as data. The call of a session that raises is left out.
pub data Action (Frame : Type 0) : Type 0 where
  creates : String → Option PeerConnection → ℕ → ℕ → FrameScheduler → ℕ → Action Frame
  evicts : ℕ → Action Frame
  stops_one : String → String → ℕ → Action Frame
  stops_all : String → ℕ → Action Frame
  calls : String → Call Frame → Action Frame
  connects : String → Option PeerConnection → Action Frame

abbrev pub or_else : {A : Type 0} → Option A → A → A
or_else none a = a
or_else (some b) a = b

module _ {Frame : Type 0} where
  abbrev pub performed : Call Frame → Session Frame → Session Frame
  performed c s = or_else (perform c s) s

  abbrev pub connect : String → Option PeerConnection → List (Entry Frame) → List (Entry Frame)
  connect ref pc [] = []
  connect ref pc (x ∷ xs) =
      if str_eq x.session_ref ref then record x { pc = pc } ∷ xs else x ∷ connect ref pc xs

  unfoldable pub act : Action Frame → SessionManager Frame → SessionManager Frame
  act (creates ref pc fps timeout scheduler now) m =
      or_else (create ref pc fps timeout scheduler now m) m
  act (evicts now) m = (evict_one_stale now m).1
  act (stops_one ref reason now) m = (stop ref reason now m).1
  act (stops_all reason now) m = stop_all reason now m
  act (calls ref c) m = record m { sessions = alter ref (performed c) m.sessions }
  act (connects ref pc) m = record m { sessions = connect ref pc m.sessions }

  unfoldable pub acts : List (Action Frame) → SessionManager Frame → SessionManager Frame
  acts [] m = m
  acts (a ∷ rest) m = acts rest (act a m)

  -- The number of active sessions.
  abbrev pub busy : List (Entry Frame) → ℕ
  busy xs = length (active xs)

  insert-busy : (e : Entry Frame) (xs : List (Entry Frame)) → busy (insert e xs) ≤ busy xs + 1
  unfolding insert
  insert-busy e [] = ground arith
  insert-busy e (x ∷ xs) = ground (arith, insert-busy e xs)

  pub alter-busy :
      (ref : String) (f : Session Frame → Session Frame) (xs : List (Entry Frame))
      → ((s : Session Frame) → s.stopped ≡ true → (f s).stopped ≡ true)
      → busy (alter ref f xs) ≤ busy xs
  unfolding alter
  alter-busy ref f [] h = ground arith
  alter-busy ref f (x ∷ xs) h = ground (arith, alter-busy ref f xs h, h x.session)

  connect-busy :
      (ref : String) (pc : Option PeerConnection) (xs : List (Entry Frame))
      → busy (connect ref pc xs) ≡ busy xs
  connect-busy ref pc [] = refl
  connect-busy ref pc (x ∷ xs) = ground (arith, connect-busy ref pc xs)

  stop_entries-busy :
      (reason : String) (now : ℕ) (xs : List (Entry Frame)) → busy (stop_entries reason now xs) ≡ 0
  unfolding stop_entries
  stop_entries-busy reason now [] = refl
  stop_entries-busy reason now (x ∷ xs) =
      ground (arith, stop_entries-busy reason now xs, stop-IsStopped reason now x.session)

  performed-stopped :
      (c : Call Frame) (s : Session Frame) → s.stopped ≡ true → (performed c s).stopped ≡ true
  performed-stopped c s h = elim (Option-cases (perform c s)) [
    | inl e ↦ subst (λ o. (or_else o s).stopped ≡ true) (sym e) h
    | inr (s', e) ↦ subst (λ o. (or_else o s).stopped ≡ true) (sym e) (perform-IsStopped c s s' e h)
  ]

  abbrev IsWithin : SessionManager Frame → Type 0
  IsWithin m = busy m.sessions ≤ m.max_sessions

  create-IsWithin :
      (ref : String) (pc : Option PeerConnection) (fps timeout : ℕ) (t : FrameScheduler) (now : ℕ)
      (m : SessionManager Frame)
      → IsWithin m
      → IsWithin (or_else (create ref pc fps timeout t now m) m)
  unfolding create
  create-IsWithin ref pc fps timeout t now m v =
      let e : Entry Frame = record {
        session_ref = ref;
        pc = pc;
        session = Session.start fps timeout t now;
      } in
      ground (arith, v, insert-busy e m.sessions)

  evict-IsWithin :
      (now : ℕ) (e : Option (Entry Frame)) (m : SessionManager Frame)
      → IsWithin m
      → IsWithin (evict now e m).1
  evict-IsWithin now none m v = v
  evict-IsWithin now (some e) m v = omega (
    arith,
    v,
    alter-busy e.session_ref (Session.stop "evicted_stale_no_peer" now) m.sessions
        (λ s _. stop-IsStopped "evicted_stale_no_peer" now s),
  )

  act-IsWithin : (a : Action Frame) (m : SessionManager Frame) → IsWithin m → IsWithin (act a m)
  unfolding act evict_one_stale stop stop_all
  act-IsWithin (creates ref pc fps timeout t now) m v = create-IsWithin ref pc fps timeout t now m v
  act-IsWithin (evicts now) m v =
      if_cases (λ (r : Option String × SessionManager Frame). IsWithin r.1)
        (ltb (length (active_sessions m)) m.max_sessions) _ _ (λ _. v)
        (λ _. evict-IsWithin now (first_without_peer (sort_by_created (active_sessions m))) m v)
  act-IsWithin (stops_one ref reason now) m v = omega (
    arith,
    v,
    alter-busy ref (Session.stop reason now) m.sessions (λ s _. stop-IsStopped reason now s),
  )
  act-IsWithin (stops_all reason now) m v = omega (arith, stop_entries-busy reason now m.sessions)
  act-IsWithin (calls ref c) m v =
      omega (arith, v, alter-busy ref (performed c) m.sessions (performed-stopped c))
  act-IsWithin (connects ref pc) m v = omega (arith, v, connect-busy ref pc m.sessions)

  act-max : (a : Action Frame) (m : SessionManager Frame) → (act a m).max_sessions ≡ m.max_sessions
  unfolding act create evict_one_stale stop stop_all
  act-max a m = ground arith

  -- Whatever is asked of the manager, and whatever its sessions do, no more than `max_sessions` of its
  -- sessions are active, if that holds at first.
  pub acts-busy :
      (todo : List (Action Frame)) (m : SessionManager Frame)
      → busy m.sessions ≤ m.max_sessions
      → busy (acts todo m).sessions ≤ m.max_sessions
  unfolding acts
  acts-busy [] m v = v
  acts-busy (a ∷ todo) m v =
      omega (arith, acts-busy todo (act a m) (act-IsWithin a m v), act-max a m)

  -- `stop_all` leaves no session active and keeps every session in its place.
  pub stop_all-busy :
      (reason : String) (now : ℕ) (m : SessionManager Frame)
      → (busy (stop_all reason now m).sessions ≡ 0)
        × (length (stop_all reason now m).sessions ≡ length m.sessions)
  unfolding stop_all stop_entries
  stop_all-busy reason now m = (stop_entries-busy reason now m.sessions, same m.sessions)
    where
      same : (xs : List (Entry Frame)) → length (stop_entries reason now xs) ≡ length xs
      same [] = refl
      same (x ∷ xs) = ap suc (same xs)

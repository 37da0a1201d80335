-- ===== src/Avatar/Manager/Dict.antt =====
-- The dictionary of the manager of hydralisk/avatar/session.py: each reference leads to one session.
use mathlib.Core.Path.{subst}
use hydralisk.Prelude.{
  ℕ, ◌≢◌, String, Option, none, some, List, [], ◌∷◌, arith, ltb, leb, str_eq, eq_iff, if_cases,
  length, All,
}
use hydralisk.Avatar.Session
use hydralisk.Avatar.Session.{Session}
use hydralisk.Avatar.Manager.{
  Entry, SessionManager, PeerConnection, active_sessions, insert, alter, create, evict,
  evict_one_stale, stop, stop_all, stop_entries, first_without_peer, sort_by_created,
}
use hydralisk.Avatar.Manager.Limit.{
  Action, creates, evicts, stops_one, stops_all, calls, connects, connect, act, acts, or_else,
  performed,
}

module _ {Frame : Type 0} where
  -- A dictionary has a reference once.
  abbrev pub IsDict : List (Entry Frame) → Type 0
  IsDict [] = Unit
  IsDict (x ∷ xs) = All (λ (y : Entry Frame). y.session_ref ≢ x.session_ref) xs × IsDict xs

  abbrev Fresh : String → List (Entry Frame) → Type 0
  Fresh ref = All (λ (y : Entry Frame). y.session_ref ≢ ref)

  insert-Fresh :
      (ref : String) (e : Entry Frame) (xs : List (Entry Frame))
      → e.session_ref ≢ ref
      → Fresh ref xs
      → Fresh ref (insert e xs)
  unfolding insert
  insert-Fresh ref e [] h v = (h, tt)
  insert-Fresh ref e (x ∷ xs) h v =
      if_cases (Fresh ref) (str_eq x.session_ref e.session_ref) _ _ (λ _. (h, v.1))
        (λ _. (v.0, insert-Fresh ref e xs h v.1))

  insert-IsDict : (e : Entry Frame) (xs : List (Entry Frame)) → IsDict xs → IsDict (insert e xs)
  unfolding insert
  insert-IsDict e [] v = (tt, tt)
  insert-IsDict e (x ∷ xs) v =
      if_cases IsDict (str_eq x.session_ref e.session_ref) _ _
        (λ h. (
          subst (λ r. Fresh r xs) (ground (arith, h, eq_iff x.session_ref e.session_ref)) v.0,
          v.1,
        ))
        (λ h. (
          insert-Fresh x.session_ref e xs (ground (arith, h, eq_iff x.session_ref e.session_ref))
              v.0,
          insert-IsDict e xs v.1,
        ))

  alter-Fresh :
      (ref other : String) (f : Session Frame → Session Frame) (xs : List (Entry Frame))
      → Fresh ref xs
      → Fresh ref (alter other f xs)
  unfolding alter
  alter-Fresh ref other f [] v = tt
  alter-Fresh ref other f (x ∷ xs) v =
      if_cases (Fresh ref) (str_eq x.session_ref other) _ _ (λ _. v)
        (λ _. (v.0, alter-Fresh ref other f xs v.1))

  alter-IsDict :
      (other : String) (f : Session Frame → Session Frame) (xs : List (Entry Frame))
      → IsDict xs
      → IsDict (alter other f xs)
  unfolding alter
  alter-IsDict other f [] v = tt
  alter-IsDict other f (x ∷ xs) v =
      if_cases IsDict (str_eq x.session_ref other) _ _ (λ _. v)
        (λ _. (alter-Fresh x.session_ref other f xs v.0, alter-IsDict other f xs v.1))

  connect-Fresh :
      (ref other : String) (pc : Option PeerConnection) (xs : List (Entry Frame))
      → Fresh ref xs
      → Fresh ref (connect other pc xs)
  connect-Fresh ref other pc [] v = tt
  connect-Fresh ref other pc (x ∷ xs) v =
      if_cases (Fresh ref) (str_eq x.session_ref other) _ _ (λ _. v)
        (λ _. (v.0, connect-Fresh ref other pc xs v.1))

  connect-IsDict :
      (other : String) (pc : Option PeerConnection) (xs : List (Entry Frame))
      → IsDict xs
      → IsDict (connect other pc xs)
  connect-IsDict other pc [] v = tt
  connect-IsDict other pc (x ∷ xs) v =
      if_cases IsDict (str_eq x.session_ref other) _ _ (λ _. v)
        (λ _. (connect-Fresh x.session_ref other pc xs v.0, connect-IsDict other pc xs v.1))

  stop_entries-Fresh :
      (ref reason : String) (now : ℕ) (xs : List (Entry Frame))
      → Fresh ref xs
      → Fresh ref (stop_entries reason now xs)
  unfolding stop_entries
  stop_entries-Fresh ref reason now [] v = tt
  stop_entries-Fresh ref reason now (x ∷ xs) v = (v.0, stop_entries-Fresh ref reason now xs v.1)

  stop_entries-IsDict :
      (reason : String) (now : ℕ) (xs : List (Entry Frame))
      → IsDict xs
      → IsDict (stop_entries reason now xs)
  unfolding stop_entries
  stop_entries-IsDict reason now [] v = tt
  stop_entries-IsDict reason now (x ∷ xs) v =
      (stop_entries-Fresh x.session_ref reason now xs v.0, stop_entries-IsDict reason now xs v.1)

  evict-IsDict :
      (now : ℕ) (e : Option (Entry Frame)) (m : SessionManager Frame)
      → IsDict m.sessions
      → IsDict (evict now e m).1.sessions
  evict-IsDict now none m v = v
  evict-IsDict now (some e) m v =
      alter-IsDict e.session_ref (Session.stop "evicted_stale_no_peer" now) m.sessions v

  act-IsDict :
      (a : Action Frame) (m : SessionManager Frame) → IsDict m.sessions → IsDict (act a m).sessions
  unfolding act create evict_one_stale stop stop_all
  act-IsDict (creates ref pc fps timeout t now) m v =
      if_cases (λ (o : Option (SessionManager Frame)). IsDict (or_else o m).sessions)
        (leb m.max_sessions (length (active_sessions m))) _ _ (λ _. v)
        (λ _. insert-IsDict _ m.sessions v)
  act-IsDict (evicts now) m v =
      if_cases (λ (r : Option String × SessionManager Frame). IsDict r.1.sessions)
        (ltb (length (active_sessions m)) m.max_sessions) _ _ (λ _. v)
        (λ _. evict-IsDict now (first_without_peer (sort_by_created (active_sessions m))) m v)
  act-IsDict (stops_one ref reason now) m v =
      alter-IsDict ref (Session.stop reason now) m.sessions v
  act-IsDict (stops_all reason now) m v = stop_entries-IsDict reason now m.sessions v
  act-IsDict (calls ref c) m v = alter-IsDict ref (performed c) m.sessions v
  act-IsDict (connects ref pc) m v = connect-IsDict ref pc m.sessions v

  -- Each reference leads to one session, whatever the manager does.
  pub acts-IsDict :
      (todo : List (Action Frame)) (m : SessionManager Frame)
      → IsDict m.sessions
      → IsDict (acts todo m).sessions
  unfolding acts
  acts-IsDict [] m v = v
  acts-IsDict (a ∷ todo) m v = acts-IsDict todo (act a m) (act-IsDict a m v)

-- ===== src/Avatar/Manager.antt =====
-- hydralisk/avatar/session.py: `SessionManager`, the sessions of the service and their number.
-- The dictionary of sessions is a list in the order of insertion. A new session's reference, its
-- scheduler and its peer connection are arguments of `create`: `new_session_ref` draws a random one.
pub mod Oldest
pub mod Limit
pub mod Dict
pub mod Evict
pub mod Tests
use hydralisk.Prelude.{
  ℕ, zero, suc, ◌+◌, String, Bool, true, false, not, ◌&&◌, ◌||◌, Option, none, some, List, [], ◌∷◌,
  ltb, leb, str_eq, if◌then◌else◌, length,
}
use hydralisk.Avatar.Scheduler.{FrameScheduler}
use hydralisk.Avatar.Session
use hydralisk.Avatar.Receipts.{Summary}
use hydralisk.Avatar.Session.{Session, Call, perform}

-- What aiortc says of a peer connection.
pub record PeerConnection : Type 0 where
  pub connection_state : Option String
  pub ice_connection_state : Option String

abbrev pub is_text : String → Option String → Bool
is_text t none = false
is_text t (some u) = str_eq t u

unfoldable pub peer_connected : Option PeerConnection → Bool
peer_connected none = false
peer_connected (some pc) =
    if is_text "connected" pc.connection_state
    then true
    else is_text "connected" pc.ice_connection_state || is_text "completed" pc.ice_connection_state

-- A session, under its reference and with the peer connection of its egress.
pub record Entry (Frame : Type 0) : Type 0 where
  pub session_ref : String
  pub pc : Option PeerConnection
  pub session : Session Frame

pub record SessionManager (Frame : Type 0) : Type 0 where
  pub max_sessions : ℕ
  pub sessions : List (Entry Frame)

module _ {Frame : Type 0} where
  abbrev pub active : List (Entry Frame) → List (Entry Frame)
  active [] = []
  active (e ∷ es) = if e.session.stopped then active es else e ∷ active es

  abbrev pub active_sessions : SessionManager Frame → List (Entry Frame)
  active_sessions m = active m.sessions

  -- `self.sessions[entry.session_ref] = entry`
  unfoldable pub insert : Entry Frame → List (Entry Frame) → List (Entry Frame)
  insert e [] = e ∷ []
  insert e (x ∷ xs) = if str_eq x.session_ref e.session_ref then e ∷ xs else x ∷ insert e xs

  -- `self.sessions.get(session_ref)`
  unfoldable pub get : String → List (Entry Frame) → Option (Entry Frame)
  get ref [] = none
  get ref (x ∷ xs) = if str_eq x.session_ref ref then some x else get ref xs

  -- What a change of the object that `get` gives does to the dictionary.
  unfoldable pub alter :
      String → (Session Frame → Session Frame) → List (Entry Frame) → List (Entry Frame)
  alter ref f [] = []
  alter ref f (x ∷ xs) =
      if str_eq x.session_ref ref
      then record x { session = f x.session } ∷ xs
      else x ∷ alter ref f xs

  -- `none` is `SessionLimitError`.
  unfoldable pub create :
      String
      → Option PeerConnection
      → ℕ
      → ℕ
      → FrameScheduler
      → ℕ
      → SessionManager Frame
      → Option (SessionManager Frame)
  create ref pc fps timeout scheduler now m =
      if leb m.max_sessions (length (active_sessions m))
      then none
      else some (record m {
        sessions =
            insert
              (record {
                session_ref = ref;
                pc = pc;
                session = Session.start fps timeout scheduler now;
              })
              m.sessions;
      })

  -- `sorted(…, key=lambda item: item.created_monotonic)` keeps the order of equal keys.
  unfoldable pub insert_by_created : Entry Frame → List (Entry Frame) → List (Entry Frame)
  insert_by_created e [] = e ∷ []
  insert_by_created e (x ∷ xs) =
      if leb e.session.created x.session.created then e ∷ x ∷ xs else x ∷ insert_by_created e xs

  unfoldable pub sort_by_created : List (Entry Frame) → List (Entry Frame)
  sort_by_created [] = []
  sort_by_created (x ∷ xs) = insert_by_created x (sort_by_created xs)

  unfoldable pub first_without_peer : List (Entry Frame) → Option (Entry Frame)
  first_without_peer [] = none
  first_without_peer (x ∷ xs) = if peer_connected x.pc then first_without_peer xs else some x

  abbrev pub evict :
      ℕ → Option (Entry Frame) → SessionManager Frame → Option String × SessionManager Frame
  evict now none m = (none, m)
  evict now (some e) m = (
    some e.session_ref,
    record m {
      sessions = alter e.session_ref (Session.stop "evicted_stale_no_peer" now) m.sessions;
    },
  )

  unfoldable pub evict_one_stale : ℕ → SessionManager Frame → Option String × SessionManager Frame
  evict_one_stale now m =
      if ltb (length (active_sessions m)) m.max_sessions
      then (none, m)
      else evict now (first_without_peer (sort_by_created (active_sessions m))) m

  abbrev pub summary_at : Option (Entry Frame) → Option Summary
  summary_at none = none
  summary_at (some e) = e.session.last_summary

  -- The summary that the call returns, and the manager after.
  unfoldable pub stop :
      String → String → ℕ → SessionManager Frame → Option Summary × SessionManager Frame
  stop ref reason now m =
      let after = alter ref (Session.stop reason now) m.sessions in
      (summary_at (get ref after), record m { sessions = after })

  unfoldable pub stop_entries : String → ℕ → List (Entry Frame) → List (Entry Frame)
  stop_entries reason now [] = []
  stop_entries reason now (x ∷ xs) =
      record x { session = Session.stop reason now x.session } ∷ stop_entries reason now xs

  unfoldable pub stop_all : String → ℕ → SessionManager Frame → SessionManager Frame
  stop_all reason now m = record m { sessions = stop_entries reason now m.sessions }

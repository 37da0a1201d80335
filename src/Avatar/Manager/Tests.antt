-- ===== src/Avatar/Manager/Tests.antt =====
-- Examples for hydralisk/avatar/session.py: `SessionManager`.
use hydralisk.Prelude.{
  ℕ, ◌≤◌, ◌≡◌, ◌≢◌, refl, ap, String, false, Option, none, some, List, [], ◌∷◌, arith, str_eq,
  eq_iff,
}
use hydralisk.Avatar.State.{idle}
use hydralisk.Avatar.Clips.{state_clip_cycle}
use hydralisk.Avatar.Scheduler.{FrameScheduler}
use hydralisk.Avatar.Session
use hydralisk.Avatar.Session.{Session}
use hydralisk.Avatar.Manager.{
  Entry, SessionManager, PeerConnection, peer_connected, evict_one_stale, create, get,
  sort_by_created, insert_by_created, first_without_peer,
}
use hydralisk.Avatar.Manager.Dict.{IsDict}
use hydralisk.Avatar.Manager.Limit.{Action, creates, evicts, stops_all, busy, acts, acts-busy}
use hydralisk.Avatar.Manager.Evict.{Evicts, evict_one_stale-oldest, create-evict_one_stale}

abbrev scheduler : FrameScheduler
scheduler = record {
  catalog = record { frames_per_clip = 192; state_cycles = state_clip_cycle };
  fps = 25;
  sample_rate = 100;
  audio_chunks_per_frame = 2;
  chunk_samples = 2;
  crossfade_frames = 3;
  jitter_buffer_chunks = 8;
  assembler = record { chunk_samples = 2; chunks = []; pending = [] };
  frame_number = 0;
  frames_rendered = 0;
  speaking_frames = 0;
  active_state = idle;
  cursor = 0;
  crossfade_remaining = 0;
  crossfade_state = none;
  crossfade_cursor = 0;
  jitter_gate_open = false;
}

abbrev watched : Option PeerConnection
watched =
    some (record { connection_state = some "connecting"; ice_connection_state = some "completed" })

abbrev entry : String → Option PeerConnection → ℕ → Entry ℕ
entry ref pc now = record {
  session_ref = ref;
  pc = pc;
  session = Session.start 25 60000 scheduler now;
}

-- The oldest session is watched, and two are not.
abbrev full : SessionManager ℕ
full = record {
  max_sessions = 3;
  sessions = entry "young" none 30 ∷ entry "watched" watched 10 ∷ entry "old" none 20 ∷ [];
}

differ : (s t : String) → str_eq s t ≡ false → s ≢ t
differ s t h e =
    let same : str_eq s t ≡ str_eq t t = ap (λ u. str_eq u t) e in
    absurd (ground (arith, h, same, eq_iff t t))

full-IsDict : IsDict full.sessions
full-IsDict = (
  (differ "watched" "young" refl, (differ "old" "young" refl, tt)),
  ((differ "old" "watched" refl, tt), (tt, tt)),
)

full-busy : busy full.sessions ≤ 3
unfolding Session.start
full-busy = omega arith

evict_full : (evict_one_stale 90 full).0 ≡ some "old"
unfolding evict_one_stale sort_by_created insert_by_created first_without_peer peer_connected
    Session.start
evict_full = refl

evict_one_stale-oldest_example : Evicts 90 full (evict_one_stale 90 full)
evict_one_stale-oldest_example = evict_one_stale-oldest 90 full full-IsDict

create-evict_one_stale_example :
    (m' : SessionManager ℕ) × (create "new" none 25 60000 scheduler 90 (evict_one_stale 90 full).1
      ≡ some m')
    × (get "new" m'.sessions ≡ some (entry "new" none 90))
create-evict_one_stale_example =
    create-evict_one_stale 90 full "old" "new" none 25 60000 scheduler full-IsDict full-busy
      evict_full

abbrev a_day : List (Action ℕ)
a_day =
    creates "a" none 25 60000 scheduler 100
    ∷ evicts 110
    ∷ creates "a" none 25 60000 scheduler 120
    ∷ stops_all "shutdown" 200
    ∷ []

acts-busy_example : busy (acts a_day full).sessions ≤ 3
acts-busy_example = acts-busy a_day full full-busy

-- ===== src/Avatar/Receipts.antt =====
-- hydralisk/avatar/receipts.py: the rows of a session's receipt file.
-- A row is what depends on the session's course; its references, timestamps and settings are left out.
use hydralisk.Prelude.{ℕ, ◌+◌, ◌/◌, String}

-- `session_summary`
pub record Summary : Type 0 where
  pub millis : ℕ
  pub minutes : ℕ
  pub frames_rendered : ℕ
  pub speaking_frames : ℕ
  pub interrupts : ℕ
  pub utterances : ℕ
  pub stop_reason : String

-- The rows of a session's receipt file: an event has its name and the number that it carries.
pub data Receipt : Type 0 where
  started : Receipt
  event : String → ℕ → Receipt
  summary : Summary → Receipt

-- `_billable_minutes`: the minutes begun.
unfoldable pub billable_minutes : ℕ → ℕ
billable_minutes millis = (millis + 59999) / 60000

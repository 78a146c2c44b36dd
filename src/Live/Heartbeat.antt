-- ===== src/Live/Heartbeat.antt =====
-- live/heartbeat.py: the trail that a session leaves in its directory. Times are UTC.
pub mod Sessions
use trading_workstation.Prelude.{
  ℕ, Bool, true, false, Option, none, some, leb, ℤ, sub_ℕ, if◌then◌else◌,
}

-- A file of the trail: its time once it is read and parsed.
pub data Trail : Type 0 where
  missing unreadable : Trail
  written_at : ℕ → Trail

-- heartbeat.json and graceful_shutdown.json
pub record RuntimeDir : Type 0 where
  pub heartbeat : Trail
  pub shutdown : Trail

-- `written` tells whether the write succeeded: an OSError is swallowed. A write that fails may leave
-- the file as it was, or empty.
pub data Write : Type 0 where
  succeeds fails_before fails_within : Write

abbrev pub after_write : Write → ℕ → Trail → Trail
after_write succeeds now file = written_at now
after_write fails_before now file = file
after_write fails_within now file = unreadable

unfoldable pub write_heartbeat : Write → ℕ → RuntimeDir → RuntimeDir
write_heartbeat outcome now dir = record dir { heartbeat = after_write outcome now dir.heartbeat }

unfoldable pub write_graceful_shutdown_marker : Write → ℕ → RuntimeDir → RuntimeDir
write_graceful_shutdown_marker outcome now dir = record dir {
  shutdown = after_write outcome now dir.shutdown;
}

abbrev pub read_heartbeat_age_seconds : RuntimeDir → ℕ → Option ℤ
read_heartbeat_age_seconds dir now = elim dir.heartbeat [
  | missing ↦ none
  | unreadable ↦ none
  | written_at t ↦ some (sub_ℕ now t)
]

pub data Classification : Type 0 where
  no_previous_session graceful_shutdown abnormal_termination : Classification

pub record PreviousSessionReport : Type 0 where
  pub classification : Classification
  pub last_heartbeat_at : Option ℕ
  pub graceful_shutdown_at : Option ℕ

abbrev pub read_marker : Trail → Option ℕ
read_marker (written_at t) = some t
read_marker _ = none

abbrev pub is_graceful : ℕ → Option ℕ → Bool
is_graceful last none = false
is_graceful last (some t) = leb last t

-- The report of a heartbeat that was read.
abbrev pub judged : ℕ → Option ℕ → PreviousSessionReport
judged last marker = record {
  classification = if is_graceful last marker then graceful_shutdown else abnormal_termination;
  last_heartbeat_at = some last;
  graceful_shutdown_at = marker;
}

unfoldable pub classify_previous_session : RuntimeDir → PreviousSessionReport
classify_previous_session dir = elim dir.heartbeat [
  | missing ↦ record {
    classification = no_previous_session;
    last_heartbeat_at = none;
    graceful_shutdown_at = none;
  }
  | unreadable ↦ record {
    classification = abnormal_termination;
    last_heartbeat_at = none;
    graceful_shutdown_at = none;
  }
  | written_at last ↦ judged last (read_marker dir.shutdown)
]

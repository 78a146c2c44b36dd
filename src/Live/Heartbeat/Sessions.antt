-- ===== src/Live/Heartbeat/Sessions.antt =====
-- live/heartbeat.py: what `classify_previous_session` says of a session from its trail.
use mathlib.Core.Path.{subst}
use trading_workstation.Prelude.{ℕ, ◌≤◌, ◌<◌, ◌≡◌, refl, sym, List, [], ◌∷◌, All, arith}
use trading_workstation.Live.Heartbeat.{
  Trail, written_at, RuntimeDir, Write, succeeds, fails_before, fails_within, write_heartbeat,
  write_graceful_shutdown_marker, classify_previous_session, graceful_shutdown,
  abnormal_termination,
}

-- The writes of the heartbeats at these times, in order, each with its outcome.
unfoldable pub beats : List (Write × ℕ) → RuntimeDir → RuntimeDir
beats [] dir = dir
beats ((outcome, now) ∷ later) dir = beats later (write_heartbeat outcome now dir)

-- The file does not date from `t` or later.
abbrev pub IsBefore : ℕ → Trail → Type 0
IsBefore t (written_at u) = u < t
IsBefore t _ = Unit

-- The file dates from between two times.
abbrev IsWithin : ℕ → ℕ → Trail → Type 0
IsWithin first last (written_at u) = (first ≤ u) × (u ≤ last)
IsWithin first last _ = ⊥

-- A write between two times that, if it fails, leaves the file alone.
abbrev pub IsRegular : ℕ → ℕ → Write × ℕ → Type 0
IsRegular first last (fails_within, now) = ⊥
IsRegular first last (_, now) = (first ≤ now) × (now ≤ last)

beat-IsWithin :
    (first last : ℕ) (b : Write × ℕ) (dir : RuntimeDir)
    → IsRegular first last b
    → IsWithin first last dir.heartbeat
    → IsWithin first last (write_heartbeat b.0 b.1 dir).heartbeat
unfolding write_heartbeat
beat-IsWithin first last (succeeds, now) dir regular h = regular
beat-IsWithin first last (fails_before, now) dir regular h = h
beat-IsWithin first last (fails_within, now) dir regular h = absurd regular

beats-IsWithin :
    (first last : ℕ) (later : List (Write × ℕ)) (dir : RuntimeDir)
    → All (IsRegular first last) later
    → IsWithin first last dir.heartbeat
    → IsWithin first last (beats later dir).heartbeat
unfolding beats
beats-IsWithin first last [] dir regular h = h
beats-IsWithin first last (b ∷ later) dir regular h =
    beats-IsWithin first last later _ regular.1 (beat-IsWithin first last b dir regular.0 h)

beats-shutdown :
    (later : List (Write × ℕ)) (dir : RuntimeDir) → (beats later dir).shutdown ≡ dir.shutdown
unfolding beats write_heartbeat
beats-shutdown [] dir = refl
beats-shutdown (b ∷ later) dir = beats-shutdown later (write_heartbeat b.0 b.1 dir)

classify_abnormal :
    (first last : ℕ) (heartbeat shutdown : Trail)
    → IsWithin first last heartbeat
    → IsBefore first shutdown
    → (classify_previous_session
        (record { heartbeat = heartbeat; shutdown = shutdown })).classification
      ≡ abnormal_termination
unfolding classify_previous_session
classify_abnormal first last heartbeat shutdown h s = ground arith

classify_graceful :
    (first last : ℕ) (heartbeat : Trail)
    → IsWithin first last heartbeat
    → (classify_previous_session
        (record { heartbeat = heartbeat; shutdown = written_at last })).classification
      ≡ graceful_shutdown
unfolding classify_previous_session
classify_graceful first last heartbeat h = ground arith

-- A session that ends without its marker is found abnormal, even if an earlier session left one, and
-- a session that writes its marker is found graceful: if no marker dates from the first heartbeat or
-- later, the first heartbeat was written, no later one is half written, and all are between the
-- first one and the marker.
pub classify_beats :
    (first last : ℕ) (later : List (Write × ℕ)) (dir : RuntimeDir)
    → IsBefore first dir.shutdown
    → first ≤ last
    → All (IsRegular first last) later
    → let left = beats ((succeeds, first) ∷ later) dir in
      ((classify_previous_session left).classification ≡ abnormal_termination)
      × ((classify_previous_session
            (write_graceful_shutdown_marker succeeds last left)).classification
          ≡ graceful_shutdown)
unfolding write_graceful_shutdown_marker beats write_heartbeat
classify_beats first last later dir old order regular =
    let left = beats ((succeeds, first) ∷ later) dir in
    let within =
      beats-IsWithin first last later (write_heartbeat succeeds first dir) regular
        (omega arith, order) in
    (
      classify_abnormal first last left.heartbeat left.shutdown within (
          subst (IsBefore first) (sym (beats-shutdown later (write_heartbeat succeeds first dir)))
            old),
      classify_graceful first last left.heartbeat within,
    )

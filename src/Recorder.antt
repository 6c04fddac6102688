-- ===== src/Recorder.antt =====
-- recorder.go: the status recorder, over the results that the wrapped writer gives.
pub mod First
mod Tests
use webhttp.Prelude.{ℕ, Bool, true, false, ◌||◌, not, List, [], ◌∷◌, ◌==◌, ltb, if◌then◌else◌}

-- what a flush of the wrapped writer returns; a failure is any error but http.ErrNotSupported
pub data Flushed : Type 0 where
  flushed flush_failed not_supported : Flushed

-- a call on the recorder, with the result of the wrapped writer that it depends on
pub data Op : Type 0 where
  write_header : ℕ → Op
  write : Op
  flush : Flushed → Op
  -- whether the hijack succeeds
  hijack : Bool → Op
  -- the bytes that the copy wrote
  read_from : ℕ → Op

pub record StatusRecorder : Type 0 where
  pub status : ℕ
  pub wrote_header : Bool
  pub hijacked_bare : Bool

unfoldable pub new_status_recorder : StatusRecorder
new_status_recorder = record { status = 200; wrote_header = false; hijacked_bare = false }

abbrev commit : StatusRecorder → StatusRecorder
commit s = record s { wrote_header = true }

unfoldable pub step : Op → StatusRecorder → StatusRecorder
step (write_header code) s = if not s.wrote_header then record (commit s) { status = code } else s
step write s = commit s
step (flush not_supported) s = s
step (flush _) s = commit s
step (hijack true) s = record (commit s) { hijacked_bare = not s.wrote_header }
step (hijack false) s = s
step (read_from n) s = if ltb 0 n then commit s else s

unfoldable pub run : List Op → StatusRecorder → StatusRecorder
unfolding step
run [] s = s
run (op ∷ ops) s = run ops (step op s)

unfoldable pub switched_protocol : StatusRecorder → Bool
switched_protocol s = s.status == 101 || s.hijacked_bare

-- ===== src/Jobslib/Job.antt =====
-- jobslib/job.go: a job and its state.
use jobmaster.Base.{ℕ, List, Text, codes, ℤ}
use jobmaster.FilePath.{FilePath}

-- `JobState uint8` with its four constants.
pub data JobState : Type 0 where
  unspecified running terminated_by_api completed : JobState

-- `JobState.String`.
unfoldable pub state_str : JobState → Text
state_str unspecified = codes "Unspecified"
state_str running = codes "Running"
state_str terminated_by_api = codes "TerminatedByAPI"
state_str completed = codes "Completed"

-- The value of the constant, by `iota`.
unfoldable pub state_code : JobState → ℕ
state_code unspecified = 0
state_code running = 1
state_code terminated_by_api = 2
state_code completed = 3

pub record Job : Type 0 where
  pub id : Text
  pub mesg : Text
  pub client_name : Text
  pub pid : ℤ
  pub state : JobState
  pub exit_code : ℤ
  pub signal_str : Text
  pub command : Text
  pub cmd_args : List Text
  pub started_unix_milli : ℕ
  pub ended_unix_milli : ℕ
  pub output_file_path : FilePath

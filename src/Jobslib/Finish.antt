-- ===== src/Jobslib/Finish.antt =====
-- jobslib/jobslib.go, the goroutine of `Start` that waits for the process and updates the job.
use jobmaster.Base.{
  Option, zero, none, some, [], ◌++◌, Text, codes, inl, inr, ℤ, pos, negsuc, lookup, trim_space,
}
use jobmaster.Result.{panic}
use jobmaster.Os.{Env, Io, ◌>>=◌, return, clock, attempt, lift}
use jobmaster.Jobslib.Job.{Job, terminated_by_api, completed}
use jobmaster.Jobslib.Cgroups.JobDirs.{remove_job_cgroup}
use jobmaster.Jobslib.Store.{JobsLib, set_job}

-- What `cmd.Wait` comes to: success, with the exit code; an ExitError, with the code and the name of
-- the signal in its status; or another error, with its text.
pub data WaitResult : Type 0 where
  exited : ℤ → WaitResult
  exit_error : ℤ → Text → WaitResult
  wait_failed : Text → WaitResult

-- `exitcode`, which stays 0 where no code is known.
unfoldable pub wait_code : WaitResult → ℤ
wait_code (exited c) = c
wait_code (exit_error c s) = c
wait_code (wait_failed s) = pos 0

-- `sigStr`; the code -1, that is `negsuc 0`, says that a signal ended the process.
unfoldable pub wait_signal : WaitResult → Text
wait_signal (exited c) = []
wait_signal (exit_error (negsuc zero) s) = s
wait_signal (exit_error c s) = []
wait_signal (wait_failed s) = []

-- `pmsg`. `cmd.ProcessState` is nil until `Wait` has returned, and prints as "<nil>".
unfoldable pub wait_message : WaitResult → Text
wait_message (wait_failed s) = codes "<nil>" ++ codes ", " ++ s
wait_message r = codes "<nil>"

-- The update under the lock. A job that `Stop` has ended keeps its state and its time.
unfoldable pub finished_job : Env → WaitResult → Text → Job → Io Job
finished_job env r pmsg job =
    let job' = record job {
      exit_code = wait_code r;
      signal_str = wait_signal r;
      mesg = trim_space (job.mesg ++ codes " " ++ pmsg);
    } in
    elim job.state as (λ _. Io Job) [
      | terminated_by_api ↦ return job'
      | _ ↦ (do
        ended ← clock env
        return (record job' { state = completed; ended_unix_milli = ended }))
    ]

module _ (env : Env) where
  -- `removeJobCgroup`, whose error becomes a part of the message.
  unfoldable pub finish_cgroup : Text → Text → Text → Io Text
  finish_cgroup id client pmsg = do
    removed ← attempt (remove_job_cgroup env id client)
    elim removed [
      | inr _ ↦ return pmsg
      | inl e ↦ return (pmsg ++ codes ", error removing job cgroup: " ++ env.show_error e)
    ]

  -- The critical section; the goroutine holds the job by its pointer, and the entry is always there.
  unfoldable pub finish_entry : JobsLib → Text → WaitResult → Text → Option Job → Io JobsLib
  finish_entry lib id r pmsg none = lift (panic "invalid memory address or nil pointer dereference")
  finish_entry lib id r pmsg (some job) = do
    job' ← finished_job env r pmsg job
    return (set_job id job' lib)

  unfoldable pub finish_job : JobsLib → Text → Text → WaitResult → Io JobsLib
  finish_job lib id client r = do
    pmsg ← finish_cgroup id client (wait_message r)
    finish_entry lib id r pmsg (lookup id lib.jobs)

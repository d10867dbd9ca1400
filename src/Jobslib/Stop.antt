-- ===== src/Jobslib/Stop.antt =====
-- jobslib/jobslib.go, `Stop`: the part before the write lock, and the critical section.
pub mod Loop
pub mod Foreign
pub mod Own
use jobmaster.Base.{
  Option, ℕ, zero, suc, Bool, not, ◌&&◌, none, some, ◌++◌, Text, codes, text_eq, ℤ, negsuc, lookup,
  trim_space, if◌then◌else◌,
}
use jobmaster.Result.{msg, wrap, panic, hang}
use jobmaster.Os.{
  Env, Io, find_process, signal_zero, sleep, ◌>>=◌, ◌>>◌, return, fail, on_err, call, ask,
  check_live, clock, lift,
}
use jobmaster.Jobslib.Job.{Job, JobState, terminated_by_api, completed}
use jobmaster.Jobslib.Cgroups.{verify_client_cgroup}
use jobmaster.Jobslib.Cgroups.JobDirs.{terminate_job, remove_job_cgroup}
use jobmaster.Jobslib.Store.{
  JobsLib, set_job, common_sanity, find_job_by_job_id, deep_copy_job_from_pointer,
}

unfoldable pub is_ended : JobState → Bool
is_ended terminated_by_api = Bool.true
is_ended completed = Bool.true
is_ended _ = Bool.false

-- The fields that `Stop` writes, with the time that it reads for them.
unfoldable pub stopped_job : ℕ → Job → Job
stopped_job ended job = record job {
  state = terminated_by_api;
  ended_unix_milli = ended;
  mesg = trim_space (job.mesg ++ codes " Stop/Termination requested by API");
  exit_code = negsuc 0;
  signal_str = codes "SIGKILL";
}

module _ (env : Env) where
  -- The loop that waits for the process to go away: signal 0 reports an error once it is gone.
  unfoldable pub wait_gone : ℕ → ℤ → Io (Unit {0})
  wait_gone zero pid = lift hang
  wait_gone (suc fuel) pid = do
    perr ← ask env (signal_zero pid)
    elim perr as (λ _. Io (Unit {0})) [
      | some _ ↦ return tt
      | none ↦ (do ask env sleep; wait_gone fuel pid)
    ]

  -- Up to the write lock; the result is `retval`, a copy of the job as it is at this moment.
  unfoldable pub stop_find : JobsLib → Text → Text → Bool → Io Job
  stop_find lib client id override = do
    on_err (wrap "cannot Stop, sanity check failed: %w") (common_sanity env client id override)
    on_err (wrap "cannot Stop, error verifying cgroup dir for %q: %w")
        (verify_client_cgroup env client)
    job ← on_err (wrap "cannot Stop, %w") (find_job_by_job_id env lib id)
    on_err (wrap "cannot Stop, %w") (check_live env)
    on_err (wrap "Failed copying job from pointer for jobID %q: %w")
        (deep_copy_job_from_pointer env (some job))

  -- The writes to the job and to the copy, each with a time of its own.
  unfoldable pub mark_stopped : JobsLib → Job → Job → Text → Io (JobsLib × Job)
  mark_stopped lib job copy id = do
    ended ← clock env
    ended' ← clock env
    return (set_job id (stopped_job ended job) lib, stopped_job ended' copy)

  -- The rest of the critical section for a job that has not ended.
  unfoldable pub kill_job : ℕ → JobsLib → Job → Job → Text → Text → Io (JobsLib × Job)
  kill_job fuel lib job copy client id = do
    terminate_job env id client
    call env (find_process job.pid)
    wait_gone fuel job.pid
    on_err (wrap "cannot Stop, cgroup func error: %w") (remove_job_cgroup env id client)
    mark_stopped lib job copy id

  unfoldable pub stop_entry :
      ℕ → JobsLib → Job → Text → Text → Bool → Option Job → Io (JobsLib × Job)
  stop_entry fuel lib copy client id override none =
      lift (panic "invalid memory address or nil pointer dereference")
  stop_entry fuel lib copy client id override (some job) =
      if not (text_eq job.client_name client) && not override
      then fail (msg "cannot Stop, job with ID %q does not belong to client %q")
      else if is_ended job.state
      then return (lib, copy)
      else kill_job fuel lib job copy client id

  -- Under the write lock. The pointer found before is read again; jobs are never taken out.
  unfoldable pub stop_commit : ℕ → JobsLib → Job → Text → Text → Bool → Io (JobsLib × Job)
  stop_commit fuel lib copy client id override =
      stop_entry fuel lib copy client id override (lookup id lib.jobs)

  -- `Stop` with nothing in between the two parts.
  unfoldable pub stop_job : ℕ → JobsLib → Text → Text → Bool → Io (JobsLib × Job)
  stop_job fuel lib client id override = do
    copy ← stop_find lib client id override
    stop_commit fuel lib copy client id override

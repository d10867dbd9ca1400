-- ===== src/Jobslib/Cgroups/JobDirs.antt =====
-- jobslib/cgroups.go: the cgroup directory of a job, from its creation to its removal.
pub mod Laws
use jobmaster.Base.{[], List, Option, none, some, Text, codes, is_nil, if◌then◌else◌, inl, inr}
use jobmaster.Result.{not_exist, msg, wrap, os}
use jobmaster.FilePath.{FilePath}
use jobmaster.Os.{
  Env, Io, mkdir, rmdir, write_file, ◌>>=◌, ◌>>◌, return, fail, on_err, ask, call, stat_path,
}
use jobmaster.Jobslib.Cgroups.{
  job_path, kill_file, io_max_file, memory_max_file, oom_group_file, cpu_max_file, io_limits,
  memory_max_limit_bytes, memory_oom_group, cpu_max_limit_microsecs,
}

module _ (env : Env) where
  -- The limits of a new job directory, in the order of the source.
  unfoldable pub write_limits : FilePath → Text → Io (Unit {0})
  write_limits dir device = do
    on_err (wrap "error writing to IO limit file %q for jobID %s and client %s: %w")
        (call env (write_file (io_max_file dir) (io_limits device)))
    on_err (wrap "error writing to memory max limit file %q for jobID %s and client %s: %w")
        (call env (write_file (memory_max_file dir) memory_max_limit_bytes))
    on_err (wrap "error writing to memory OOM group file %q for jobID %s and client %s: %w")
        (call env (write_file (oom_group_file dir) memory_oom_group))
    on_err (wrap "error writing to CPU max limit file %q for jobID %s and client %s: %w")
        (call env (write_file (cpu_max_file dir) cpu_max_limit_microsecs))

  unfoldable pub create_job_cgroup : Text → Text → Text → Io FilePath
  unfolding write_limits
  create_job_cgroup job client device =
      if is_nil job
      then fail (msg "jobID for job cgroup creation is empty")
      else if is_nil client
      then fail (msg "clientName for job cgroup creation is empty for jobID %s")
      else if is_nil device
      then fail (
          msg
            "device string devMajorMinor for job cgroup creation is empty for jobID %s and client %s")
      else (do
        on_err (wrap "failed to create job cgroup for jobID %s and client %s: %w")
            (call env (mkdir (job_path client job)))
        write_limits (job_path client job) device
        return (job_path client job))

  unfoldable pub terminate_job : Text → Text → Io (Unit {0})
  terminate_job job client =
      if is_nil job
      then fail (msg "jobID for job termination is empty")
      else if is_nil client
      then fail (msg "clientName for job termination is empty for jobID %s")
      else (do
        written ← ask env (write_file (kill_file (job_path client job)) (codes "1"))
        elim written [
          | none ↦ return tt
          | some not_exist ↦ return tt
          | some e ↦ fail (wrap "stat error for %s when terminating job %s: %w" (os e))
        ])

  unfoldable pub remove_job_cgroup : Text → Text → Io (Unit {0})
  unfolding terminate_job
  remove_job_cgroup job client = do
    terminate_job job client
    info ← stat_path env (job_path client job)
    elim info [
      | inl not_exist ↦ return tt
      | inl e ↦ fail (wrap "stat error for %s when terminating job %s: %w" (os e))
      | inr i ↦
          on_err (wrap "failed to remove job cgroup dir %q: %w")
            (call env (rmdir (job_path client job)))
    ]

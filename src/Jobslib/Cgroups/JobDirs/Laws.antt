-- ===== src/Jobslib/Cgroups/JobDirs/Laws.antt =====
-- Which calls create, kill and remove a job's cgroup directory (jobslib/cgroups.go).
use jobmaster.Base.{◌≡◌, ◌↔◌, ◌⊎◌, inl, inr, ◌≢◌, [], ◌∷◌, ◌++◌, arith, none, some, Text, codes}
use jobmaster.Result.{ok, not_exist}
use jobmaster.FilePath.{FilePath}
use jobmaster.Os.{Env, FileInfo, Log, mkdir, rmdir, stat, write_file}
use jobmaster.Jobslib.Cgroups.{
  job_path, kill_file, io_max_file, memory_max_file, oom_group_file, cpu_max_file, io_limits,
  memory_max_limit_bytes, memory_oom_group, cpu_max_limit_microsecs,
}
use jobmaster.Jobslib.Cgroups.JobDirs.{create_job_cgroup, terminate_job, remove_job_cgroup}

-- The calls that set the limits of a directory, the newest first.
abbrev pub limit_calls : FilePath → Text → Log
limit_calls dir device =
    write_file (cpu_max_file dir) cpu_max_limit_microsecs
    ∷ write_file (oom_group_file dir) memory_oom_group
    ∷ write_file (memory_max_file dir) memory_max_limit_bytes
    ∷ write_file (io_max_file dir) (io_limits device)
    ∷ []

-- All the calls of a log succeed, each in the log that it is made in.
abbrev pub Succeed : Env → Log → Log → Type 0
Succeed env log [] = Unit
Succeed env log (c ∷ calls) = (env.os_err (calls ++ log) c ≡ none) × Succeed env log calls

module _ (env : Env) (job client device : Text) (log : Log) where
  -- A job directory is returned exactly when the three arguments are not empty and the directory was
  -- made and all four limits were written, in this order.
  pub create_job_cgroup-eq-ok :
      (p : FilePath) (log' : Log)
      → (create_job_cgroup env job client device log ≡ (ok p, log')) ↔ (
          (job ≢ [])
          × (client ≢ [])
          × (device ≢ [])
          × (p ≡ job_path client job)
          × (log' ≡ limit_calls p device ++ mkdir p ∷ log)
          × Succeed env log (limit_calls p device ++ mkdir p ∷ []))
  unfolding create_job_cgroup
  create_job_cgroup-eq-ok p log' = ground arith

module _ (env : Env) (job client : Text) (log : Log) where
  -- The only call is the write to the job's kill file; a kill file that is not there is no error.
  pub terminate_job-eq-ok :
      (log' : Log)
      → (terminate_job env job client log ≡ (ok tt, log')) ↔ (
          (job ≢ [])
          × (client ≢ [])
          × (log' ≡ write_file (kill_file (job_path client job)) (codes "1") ∷ log)
          × ((env.os_err log (write_file (kill_file (job_path client job)) (codes "1")) ≡ none)
              ⊎ (env.os_err log (write_file (kill_file (job_path client job)) (codes "1"))
                  ≡ some not_exist)))
  unfolding terminate_job
  terminate_job-eq-ok log' = ground arith

  -- The removal writes the kill file first and looks for the directory next. It succeeds when the
  -- directory is gone already, or when it removes it; the calls made are these.
  pub remove_job_cgroup-eq-ok :
      (log' : Log)
      → let dir = job_path client job in
        let kill = write_file (kill_file dir) (codes "1") in
        (remove_job_cgroup env job client log ≡ (ok tt, log')) ↔ (
          (job ≢ [])
          × (client ≢ [])
          × ((env.os_err log kill ≡ none) ⊎ (env.os_err log kill ≡ some not_exist))
          × (((env.stat_of (kill ∷ log) dir ≡ inl not_exist) × (log' ≡ stat dir ∷ kill ∷ log))
              ⊎ ((i : FileInfo) × (env.stat_of (kill ∷ log) dir ≡ inr i)
                  × (env.os_err (stat dir ∷ kill ∷ log) (rmdir dir) ≡ none)
                  × (log' ≡ rmdir dir ∷ stat dir ∷ kill ∷ log))))
  unfolding remove_job_cgroup
  remove_job_cgroup-eq-ok log' = ground arith

-- ===== src/Jobslib/Start.antt =====
-- jobslib/jobslib.go, `Start`: a process in a cgroup of its own, and its job in the maps.
pub mod Laws
use jobmaster.Base.{
  ℕ, Option, none, some, List, [], ◌++◌, Text, codes, is_nil, inl, inr, ◌⊎◌, if◌then◌else◌, ℤ, pos,
  to_int32,
}
use jobmaster.Result.{Error, msg, wrap, os, joined}
use jobmaster.FilePath.{FilePath, clean, join}
use jobmaster.Os.{
  Env, Io, open_dir, create_file, close_file, remove, ◌>>=◌, ◌>>◌, return, fail, on_err, call, ask,
  check_live, new_id, start, clock, closing,
}
use jobmaster.Jobslib.Job.{Job, running}
use jobmaster.Jobslib.Cgroups.{verify_client_cgroup}
use jobmaster.Jobslib.Cgroups.JobDirs.{create_job_cgroup}
use jobmaster.Jobslib.Store.{JobsLib, add_job}

-- filepath.Join(j.outputDir, jobID + ".log").
unfoldable pub output_path : Text → Text → FilePath
output_path dir id = join (clean dir) (id ++ codes ".log")

unfoldable pub new_job : Text → Text → ℕ → Text → List Text → FilePath → ℕ → Job
new_job id client pid command args output started = record {
  id = id;
  mesg = [];
  client_name = client;
  pid = to_int32 (pos pid);
  state = running;
  exit_code = pos 0;
  signal_str = [];
  command = command;
  cmd_args = args;
  started_unix_milli = started;
  ended_unix_milli = 0;
  output_file_path = output;
}

module _ (env : Env) where
  unfoldable pub generate_ksuid_as_string : Io Text
  generate_ksuid_as_string = on_err (wrap "failed generating KSUID: %w") (new_id env)

  -- From `cmd.Start` on; the output file is open.
  unfoldable pub launch :
      JobsLib → Text → Text → List Text → Text → FilePath → FilePath → Io (JobsLib × Text)
  launch lib client command args id cgroup output = do
    started ← clock env
    spawned ← start env cgroup output command args
    elim spawned [
      | inl e ↦ (do
        ask env (close_file output)
        removed ← ask env (remove output)
        elim removed [
          | none ↦ fail (wrap "cannot Start, command startup failed: %w" e)
          | some _ ↦ fail (
              wrap
                "cannot Start, command startup failed due to %w and removing the output file also errored with %w"
                e)
        ])
      | inr pid ↦
          closing (close_file output)
            (return (add_job (new_job id client pid command args output started) lib, id))
    ]

  -- From the handle to the cgroup directory on; `defer` closes the handle.
  unfoldable pub start_in_cgroup :
      JobsLib → Text → Text → List Text → Text → FilePath → Io (JobsLib × Text)
  start_in_cgroup lib client command args id cgroup = do
    on_err (wrap "cannot Start, failed to get fd handle to job cgroup dir %q: %w")
        (call env (open_dir cgroup))
    closing (close_file cgroup) (do
      let output = output_path lib.output_dir id
      on_err (wrap "cannot Start, failed to create job output log file %q: %w")
          (call env (create_file output))
      launch lib client command args id cgroup output)

  -- `Start` behind its two checks of the arguments.
  unfoldable pub start_checked : JobsLib → Text → Text → List Text → Io (JobsLib × Text)
  start_checked lib client command args = do
    on_err (wrap "cannot Start, error verifying cgroup dir for %q: %w")
        (verify_client_cgroup env client)
    check_live env
    id ← on_err (wrap "cannot Start, failed generating job ID: %w") generate_ksuid_as_string
    cgroup ←
        on_err (wrap "cannot Start, failed to create job cgroup: %w")
          (create_job_cgroup env id client lib.io_dev_major_minor)
    start_in_cgroup lib client command args id cgroup

  unfoldable pub start_job : JobsLib → Text → Text → List Text → Io (JobsLib × Text)
  start_job lib client command args =
      if is_nil client
      then fail (msg "cannot Start, clientName is empty")
      else if is_nil command
      then fail (msg "cannot Start, command is empty")
      else start_checked lib client command args

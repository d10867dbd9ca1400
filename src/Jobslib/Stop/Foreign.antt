-- ===== src/Jobslib/Stop/Foreign.antt =====
-- `Stop` on the job of another client, with the client check overridden (jobslib/jobslib.go). The
-- cgroup is looked for under the caller's name, not under the name of the job's client.
use jobmaster.Base.{
  ℕ, ◌≡◌, ◌≢◌, true, false, ◌∷◌, arith, none, some, Text, codes, lookup, is_nil-eq-false,
}
use jobmaster.Result.{hang, not_exist}
use jobmaster.FilePath.Laws.{IsName, join-name}
use jobmaster.Os.{Env, Log, Call, signal_zero, write_file, find_process}
use jobmaster.Jobslib.Job.{Job}
use jobmaster.Jobslib.Cgroups.{parent_path, client_path, job_path, kill_file}
use jobmaster.Jobslib.Cgroups.JobDirs.{terminate_job}
use jobmaster.Jobslib.Store.{JobsLib}
use jobmaster.Jobslib.Stop.{is_ended, kill_job, stop_entry, stop_commit}
use jobmaster.Jobslib.Stop.Loop.{Avoids, wait_gone-hang}

-- The call that kills the processes in the cgroup of a client's job.
abbrev pub kill_call : Text → Text → Call
kill_call client id = write_file (kill_file (job_path client id)) (codes "1")

kill-IsName : IsName (codes "cgroup.kill")
kill-IsName = ground arith

kill_file-job_path :
    (a id : Text)
    → IsName a
    → IsName id
    → kill_file (job_path a id)
      ≡ record parent_path { parts = codes "cgroup.kill" ∷ id ∷ a ∷ parent_path.parts }
unfolding kill_file job_path client_path
kill_file-job_path a id ha hi =
    rw (join-name parent_path a ha)
      (rw (join-name _ id hi) (join-name _ (codes "cgroup.kill") kill-IsName))

-- The kill files of two clients are different files.
pub kill_call-injective :
    (a b id : Text) → IsName a → IsName b → IsName id → kill_call a id ≡ kill_call b id → a ≡ b
kill_call-injective a b id ha hb hi e =
    cc (kill_file-job_path a id ha hi, kill_file-job_path b id hb hi)

module _ (env : Env) (fuel : ℕ) (lib : JobsLib) (job copy : Job) (client id : Text)
    (log : Log) where
  -- An administrator stops a running job of another client. If the job's process lives as long as nobody
  -- kills the job's own cgroup, then `Stop` never returns, however long it waits: it asks for the kill in
  -- a cgroup of the administrator's name, which is not there, and then waits under the library's lock.
  pub stop_commit_foreign_hangs :
      lookup id lib.jobs ≡ some job
      → is_ended job.state ≡ false
      → IsName client
      → IsName job.client_name
      → IsName id
      → client ≢ job.client_name
      → ((l : Log) → env.os_err l (kill_call client id) ≡ some not_exist)
      → ((l : Log) → env.os_err l (find_process job.pid) ≡ none)
      → ((l : Log)
          → Avoids (kill_call job.client_name id) l
          → env.os_err l (signal_zero job.pid) ≡ none)
      → Avoids (kill_call job.client_name id) log
      → (stop_commit env fuel lib copy client id true log).0 ≡ hang
  unfolding stop_commit stop_entry kill_job terminate_job
  stop_commit_foreign_hangs found live nc nj ni other missing there lives avoids =
      let k = kill_call job.client_name id in
      let differs : kill_call client id ≢ k =
        λ e. other (kill_call-injective client job.client_name id nc nj ni e) in
      let log1 = find_process job.pid ∷ kill_call client id ∷ log in
      let waits =
        wait_gone-hang env k fuel job.pid log1 (λ e. cc) (λ e. cc) lives
          ((λ e. cc), (differs, avoids)) in
      rw found (
        ground (
          arith,
          is_nil-eq-false client nc.0,
          is_nil-eq-false id ni.0,
          missing log,
          there (kill_call client id ∷ log),
          waits,
        ))

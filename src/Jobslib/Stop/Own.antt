-- ===== src/Jobslib/Stop/Own.antt =====
-- `Stop` on a job that the caller may stop, where the kill reaches the process (jobslib/jobslib.go).
use jobmaster.Base.{
  ℕ, ◌<◌, ◌≡◌, refl, inl, inr, ◌≢◌, Bool, true, false, Bool-cases, [], ◌∷◌, arith, Option, none,
  some, Text, text_eq_iff, lookup, lookup-insert_self, is_nil-eq-false,
}
use jobmaster.Result.{ok, OsErr}
use jobmaster.Os.{Env, Log, now, signal_zero, find_process}
use jobmaster.Jobslib.Job.{Job}
use jobmaster.Jobslib.Cgroups.JobDirs.{terminate_job, remove_job_cgroup}
use jobmaster.Jobslib.Store.{JobsLib, set_job}
use jobmaster.Jobslib.Query.Laws.{MayUse}
use jobmaster.Jobslib.Stop.{is_ended, stopped_job, mark_stopped, kill_job, stop_entry, stop_commit}
use jobmaster.Jobslib.Stop.Loop.{rounds, wait_gone_ends}
use jobmaster.Jobslib.Stop.Foreign.{kill_call}
use jobmaster.Jobslib.History.Evolution.{kill_job-eq-ok}

module _ (env : Env) (fuel n : ℕ) (lib : JobsLib) (job copy : Job) (client id : Text)
    (override : Bool) (log : Log) where
  kill_job-returns :
      (e : OsErr)
      → client ≢ []
      → id ≢ []
      → env.os_err log (kill_call client id) ≡ none
      → env.os_err (kill_call client id ∷ log) (find_process job.pid) ≡ none
      → env.os_err
          (rounds n job.pid (find_process job.pid ∷ kill_call client id ∷ log))
          (signal_zero job.pid)
        ≡ some e
      → n < fuel
      → ((l : Log) → (l' : Log) × (remove_job_cgroup env id client l ≡ (ok tt, l')))
      → (log' : Log) × (ended : ℕ) × (ended' : ℕ) × (kill_job env fuel lib job copy client id log
          ≡ (ok (set_job id (stopped_job ended job) lib, stopped_job ended' copy), log'))
  unfolding kill_job terminate_job mark_stopped
  kill_job-returns e nc ni killed there gone more removes =
      let (k, l1, _, waited, _) =
        wait_gone_ends env n fuel job.pid (find_process job.pid ∷ kill_call client id ∷ log) e gone
          more in
      let (l2, removed) = removes l1 in
      (
        now ∷ now ∷ l2,
        env.unix_milli l2,
        env.unix_milli (now ∷ l2),
        ground (arith, is_nil-eq-false client nc, is_nil-eq-false id ni, waited, removed),
      )

  -- A running job is stopped by a client that may use it if the kill file of the caller's cgroup for that
  -- job can be written, the process is gone after n polls, the fuel is more than n, and the cgroup can
  -- be removed: `Stop` returns, and the job and the copy both read as ended by the API, with exit code -1
  -- and signal SIGKILL.
  pub stop_commit-returns :
      (e : OsErr)
      → lookup id lib.jobs ≡ some job
      → is_ended job.state ≡ false
      → MayUse client override job
      → client ≢ []
      → id ≢ []
      → env.os_err log (kill_call client id) ≡ none
      → env.os_err (kill_call client id ∷ log) (find_process job.pid) ≡ none
      → env.os_err
          (rounds n job.pid (find_process job.pid ∷ kill_call client id ∷ log))
          (signal_zero job.pid)
        ≡ some e
      → n < fuel
      → ((l : Log) → (l' : Log) × (remove_job_cgroup env id client l ≡ (ok tt, l')))
      → (log' : Log) × (ended : ℕ) × (ended' : ℕ) × (stop_commit env fuel lib copy client id
            override log
          ≡ (ok (set_job id (stopped_job ended job) lib, stopped_job ended' copy), log'))
  unfolding stop_commit stop_entry
  stop_commit-returns e found live may nc ni killed there gone more removes =
      let (log', ended, ended', returned) =
        kill_job-returns e nc ni killed there gone more removes in
      (log', ended, ended', rw found (ground (arith, text_eq_iff job.client_name client)))

-- What the library holds of the job after a stop that returned.
stop_entry-leaves :
    (env : Env) (fuel : ℕ) (lib lib' : JobsLib) (copy job job' : Job) (client id : Text)
    (override : Bool) (log log' : Log)
    → lookup id lib.jobs ≡ some job
    → stop_entry env fuel lib copy client id override (some job) log ≡ (ok (lib', job'), log')
    → (job1 : Job) × (lookup id lib'.jobs ≡ some job1)
      × (is_ended job1.state ≡ true)
      × MayUse client override job1
unfolding stop_entry is_ended stopped_job set_job
stop_entry-leaves env fuel lib lib' copy job job' client id override log log' found e =
    let may : MayUse client override job = ground (arith, text_eq_iff job.client_name client) in
    elim (Bool-cases (is_ended job.state)) [
      | inl over ↦ (job, ground arith, over, may)
      | inr live ↦
          let (ended, same) =
            kill_job-eq-ok env lib id client fuel job copy job' lib' log log' (ground arith) in
          (
            stopped_job ended job,
            rw same (lookup-insert_self id (stopped_job ended job) lib.jobs),
            refl,
            may,
          )
    ]

-- A stop that returned leaves the job ended, and the caller may use it.
pub stop_commit-leaves :
    (env : Env) (fuel : ℕ) (lib lib' : JobsLib) (copy job' : Job) (client id : Text)
    (override : Bool) (log log' : Log)
    → stop_commit env fuel lib copy client id override log ≡ (ok (lib', job'), log')
    → (job1 : Job) × (lookup id lib'.jobs ≡ some job1)
      × (is_ended job1.state ≡ true)
      × MayUse client override job1
unfolding stop_commit
stop_commit-leaves env fuel lib lib' copy job' client id override log log' h =
    go (lookup id lib.jobs) refl h
  where
    go :
        (o : Option Job)
        → lookup id lib.jobs ≡ o
        → stop_entry env fuel lib copy client id override o log ≡ (ok (lib', job'), log')
        → (job1 : Job) × (lookup id lib'.jobs ≡ some job1)
          × (is_ended job1.state ≡ true)
          × MayUse client override job1
    go none found e = absurd (unfold stop_entry in cc)
    go (some job) found e =
        stop_entry-leaves env fuel lib lib' copy job job' client id override log log' found e

stop_entry-ended :
    (env : Env) (fuel : ℕ) (lib : JobsLib) (copy job : Job) (client id : Text) (override : Bool)
    (log : Log)
    → is_ended job.state ≡ true
    → MayUse client override job
    → stop_entry env fuel lib copy client id override (some job) log ≡ (ok (lib, copy), log)
unfolding stop_entry
stop_entry-ended env fuel lib copy job client id override log over may =
    ground (arith, text_eq_iff job.client_name client)

-- A second stop after one that returned gives the copy that it was handed, makes no call and changes
-- nothing, whatever the world does in between.
pub stop_commit_twice :
    (env env2 : Env) (fuel fuel2 : ℕ) (lib lib' : JobsLib) (copy copy2 job' : Job)
    (client id : Text) (override : Bool) (log log' log2 : Log)
    → stop_commit env fuel lib copy client id override log ≡ (ok (lib', job'), log')
    → stop_commit env2 fuel2 lib' copy2 client id override log2 ≡ (ok (lib', copy2), log2)
unfolding stop_commit
stop_commit_twice env env2 fuel fuel2 lib lib' copy copy2 job' client id override log log' log2 h =
    let (job1, there, over, may) =
      stop_commit-leaves env fuel lib lib' copy job' client id override log log' h in
    rw there (stop_entry-ended env2 fuel2 lib' copy2 job1 client id override log2 over may)

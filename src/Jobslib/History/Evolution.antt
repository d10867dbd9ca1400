-- ===== src/Jobslib/History/Evolution.antt =====
-- How the jobs of the library may change from one moment to the next.
use jobmaster.Base.{
  ℕ, ◌≡◌, refl, sym, ap, subst, ◌⊎◌, inl, inr, ◌≢◌, Bool, true, false, Bool-cases, arith, Option,
  none, some, Text, text_eq, text_eq_iff, lookup, lookup-insert,
}
use jobmaster.Result.{Result, ok, wrap}
use jobmaster.Os.{Env, Log, call, on_err, find_process, bound-eq-ok}
use jobmaster.Jobslib.Job.{Job, running, completed}
use jobmaster.Jobslib.Cgroups.JobDirs.{terminate_job, remove_job_cgroup}
use jobmaster.Jobslib.Store.{JobsLib, set_job, add_job}
use jobmaster.Jobslib.Start.{new_job}
use jobmaster.Jobslib.Start.Laws.{start_job-eq-ok}
use jobmaster.Jobslib.Finish.{
  WaitResult, finish_job, finish_entry, wait_message, finished_job, finish_cgroup,
}
use jobmaster.Jobslib.Stop.{
  is_ended, stopped_job, wait_gone, kill_job, mark_stopped, stop_entry, stop_commit,
}
use jobmaster.Jobslib.History.{IsPending, Step, started, finished, stopped, Reach, here, next}

-- A later version of a job: who it is and what it runs stay, and once ended it stays ended in the
-- same way and at the same time.
pub record Evolves (job job' : Job) : Type 0 where
  pub same_id : job'.id ≡ job.id
  pub same_client : job'.client_name ≡ job.client_name
  pub same_pid : job'.pid ≡ job.pid
  pub same_command : job'.command ≡ job.command
  pub same_args : job'.cmd_args ≡ job.cmd_args
  pub same_output : job'.output_file_path ≡ job.output_file_path
  pub same_start : job'.started_unix_milli ≡ job.started_unix_milli
  pub ended_once :
      ((job'.state ≡ job.state) × (job'.ended_unix_milli ≡ job.ended_unix_milli))
      ⊎ ((is_ended job.state ≡ false) × (is_ended job'.state ≡ true))

pub Evolves-refl : (job : Job) → Evolves job job
Evolves-refl job = ground arith

pub Evolves-trans : {a b c : Job} → Evolves a b → Evolves b c → Evolves a c
Evolves-trans p q = ground arith

-- The change that a critical section makes: a new running job, one job written anew, or nothing.
pub data Change (lib : JobsLib) : JobsLib → Type 0 where
  nothing : Change lib lib
  added :
      (job : Job)
      → lookup job.id lib.jobs ≡ none
      → job.state ≡ running
      → Change lib (add_job job lib)
  rewritten :
      (id : Text) (job job' : Job)
      → lookup id lib.jobs ≡ some job
      → Evolves job job'
      → Change lib (set_job id job' lib)

finished_job-Evolves :
    (env : Env) (r : WaitResult) (pmsg : Text) (job job' : Job) (log log' : Log)
    → job.state ≢ completed
    → finished_job env r pmsg job log ≡ (ok job', log')
    → Evolves job job'
unfolding finished_job is_ended
finished_job-Evolves env r pmsg job job' log log' h e = ground arith

stopped_job-Evolves :
    (ended : ℕ) (job : Job) → is_ended job.state ≡ false → Evolves job (stopped_job ended job)
unfolding stopped_job is_ended
stopped_job-Evolves ended job h = ground arith

module _ (env : Env) (lib : JobsLib) (id client : Text) where
  finish_entry-Change :
      (lib' : JobsLib) (r : WaitResult) (pmsg : Text) (o : Option Job) (log log' : Log)
      → lookup id lib.jobs ≡ o
      → IsPending lib id
      → finish_entry env lib id r pmsg o log ≡ (ok lib', log')
      → Change lib lib'
  unfolding finish_entry
  finish_entry-Change lib' r pmsg none log log' found pending e = absurd (cc)
  finish_entry-Change lib' r pmsg (some job) log log' found pending e =
      let (job', l1, e1, h) = bound-eq-ok (finished_job env r pmsg job log) _ e in
      let same : set_job id job' lib ≡ lib' = ground arith in
      subst (Change lib) same (
        rewritten id job job' found
          (finished_job-Evolves env r pmsg job job' log l1 (pending job found) e1))

  pub finish_job-Change :
      (lib' : JobsLib) (r : WaitResult) (log log' : Log)
      → IsPending lib id
      → finish_job env lib id client r log ≡ (ok lib', log')
      → Change lib lib'
  unfolding finish_job
  finish_job-Change lib' r log log' pending e =
      let (pmsg, l1, e1, h) = bound-eq-ok (finish_cgroup env id client (wait_message r) log) _ e in
      finish_entry-Change lib' r pmsg (lookup id lib.jobs) l1 log' refl pending h

  pub kill_job-eq-ok :
      (fuel : ℕ) (job copy job' : Job) (lib' : JobsLib) (log log' : Log)
      → kill_job env fuel lib job copy client id log ≡ (ok (lib', job'), log')
      → (ended : ℕ) × (lib' ≡ set_job id (stopped_job ended job) lib)
  unfolding kill_job mark_stopped
  kill_job-eq-ok fuel job copy job' lib' log log' e =
      let (_, l1, e1, h1) = bound-eq-ok (terminate_job env id client log) _ e in
      let (_, l2, e2, h2) = bound-eq-ok (call env (find_process job.pid) l1) _ h1 in
      let (_, l3, e3, h3) = bound-eq-ok (wait_gone env fuel job.pid l2) _ h2 in
      let (_, l4, e4, h4) =
        bound-eq-ok
          (on_err (wrap "cannot Stop, cgroup func error: %w") (remove_job_cgroup env id client) l3)
          _ h3 in
      (
        env.unix_milli l4,
        sym (ap (λ (r : Result (JobsLib × Job) × Log). elim r.0 [ ok p ↦ p.0 | _ ↦ lib ]) h4),
      )

  stop_entry-Change :
      (fuel : ℕ) (copy job' : Job) (override : Bool) (o : Option Job) (lib' : JobsLib)
      (log log' : Log)
      → lookup id lib.jobs ≡ o
      → stop_entry env fuel lib copy client id override o log ≡ (ok (lib', job'), log')
      → Change lib lib'
  unfolding stop_entry
  stop_entry-Change fuel copy job' override none lib' log log' found e = absurd (cc)
  stop_entry-Change fuel copy job' override (some job) lib' log log' found e =
      elim (Bool-cases (is_ended job.state)) [
        | inl over ↦ subst (Change lib) (ground arith) nothing
        | inr live ↦
            let (ended, same) = kill_job-eq-ok fuel job copy job' lib' log log' (ground arith) in
            subst (Change lib) (sym same)
              (rewritten id job (stopped_job ended job) found (stopped_job-Evolves ended job live))
      ]

  pub stop_commit-Change :
      (fuel : ℕ) (copy job' : Job) (override : Bool) (lib' : JobsLib) (log log' : Log)
      → stop_commit env fuel lib copy client id override log ≡ (ok (lib', job'), log')
      → Change lib lib'
  unfolding stop_commit
  stop_commit-Change fuel copy job' override lib' log log' e =
      stop_entry-Change fuel copy job' override (lookup id lib.jobs) lib' log log' refl e

-- Every step is such a change.
pub Step-Change : {env : Env} {lib lib' : JobsLib} → Step env lib lib' → Change lib lib'
unfolding new_job
Step-Change {env} {lib} (started client command args id log log' e fresh) =
    let new = start_job-eq-ok env lib client command args log _ id log' e in
    subst (Change lib) (sym new.2) (added _ fresh refl)
Step-Change {env} {lib} (finished id client r log log' pending e) =
    finish_job-Change env lib id client _ r log log' pending e
Step-Change {env} {lib} (stopped fuel copy job client id override log log' e) =
    stop_commit-Change env lib id client fuel copy job override _ log log' e

Change-Evolves :
    {lib lib' : JobsLib} (id : Text) (job : Job)
    → Change lib lib'
    → lookup id lib.jobs ≡ some job
    → (job' : Job) × (lookup id lib'.jobs ≡ some job') × Evolves job job'
unfolding add_job set_job
Change-Evolves id job nothing e = (job, e, Evolves-refl job)
Change-Evolves {lib} id job (added new fresh runs) e =
    (job, rw lookup-insert (ground (arith, text_eq_iff new.id id)), Evolves-refl job)
Change-Evolves {lib} id job (rewritten j old new found p) e = elim (Bool-cases (text_eq j id)) [
  | inl same ↦ (new, rw lookup-insert (rw same refl), ground (arith, text_eq_iff j id))
  | inr other ↦ (job, rw lookup-insert (rw other e), Evolves-refl job)
]

-- A job is never lost. Through any interleaving of starts, ends of processes and stops it keeps its ID,
-- its client, its process, its command, its output file and its start; once it has ended, its state and the
-- time of its end stay as they are.
pub Reach-Evolves :
    {env : Env} {lib lib' : JobsLib} (id : Text) (job : Job)
    → Reach env lib lib'
    → lookup id lib.jobs ≡ some job
    → (job' : Job) × (lookup id lib'.jobs ≡ some job') × Evolves job job'
Reach-Evolves id job here e = (job, e, Evolves-refl job)
Reach-Evolves id job (next r s) e =
    let (job1, e1, p) = Reach-Evolves id job r e in
    let (job2, e2, q) = Change-Evolves id job1 (Step-Change s) e1 in (job2, e2, Evolves-trans p q)

-- ===== src/Jobslib/History/View.antt =====
-- The view of the library that its specification has (jobslib/jobslib.go).
use jobmaster.Base.{
  fun_ext, ◌≢◌, ◌≡◌, refl, ◌⊎◌, ℕ, true, false, arith, Option, none, some, Text, text_eq_iff,
  lookup, lookup-insert,
}
use jobmaster.Result.{ok}
use jobmaster.Os.{Env, Log}
use jobmaster.Jobslib.Job.{Job, JobState, unspecified, running, terminated_by_api, completed}
use jobmaster.Jobslib.Store.{JobsLib, set_job, add_job}
use jobmaster.Jobslib.Finish.{WaitResult, finished_job}
use jobmaster.Jobslib.Stop.{is_ended, stopped_job}
use jobmaster.Jobslib.History.Spec.{Phase, active, killed, over, Entry, Abstract, update}

abbrev pub phase_of : JobState → ℕ → Phase
phase_of terminated_by_api time = killed time
phase_of completed time = over time
phase_of unspecified time = active
phase_of running time = active

abbrev pub entry : Job → Entry
entry job = record { owner = job.client_name; phase = phase_of job.state job.ended_unix_milli }

abbrev pub entry_at : Option Job → Option Entry
entry_at none = none
entry_at (some job) = some (entry job)

-- The abstract view.
abbrev pub view : JobsLib → Abstract
view lib id = entry_at (lookup id lib.jobs)

pub view-set_job :
    (lib : JobsLib) (id : Text) (job : Job)
    → view (set_job id job lib) ≡ update id (entry job) (view lib)
unfolding set_job
view-set_job lib id job = fun_ext (λ id'. ground (arith, lookup-insert id id' job lib.jobs))

pub view-add_job :
    (lib : JobsLib) (job : Job) → view (add_job job lib) ≡ update job.id (entry job) (view lib)
unfolding add_job
view-add_job lib job = fun_ext (λ id'. ground (arith, lookup-insert job.id id' job lib.jobs))

pub update_same : (id : Text) (e : Entry) (s : Abstract) → s id ≡ some e → update id e s ≡ s
update_same id e s found = fun_ext (λ id'. ground (arith, text_eq_iff id id'))

-- An owner in a phase.
abbrev pub at : Text → Phase → Entry
at owner phase = record { owner = owner; phase = phase }

pub finished_job-phases :
    (env : Env) (r : WaitResult) (pmsg : Text) (job job' : Job) (log log' : Log)
    → job.state ≢ completed
    → finished_job env r pmsg job log ≡ (ok job', log')
    → ((entry job ≡ at job.client_name active)
        × (entry job' ≡ at job.client_name (over job'.ended_unix_milli)))
      ⊎ ((entry job ≡ at job.client_name (killed job.ended_unix_milli)) × (entry job' ≡ entry job))
unfolding finished_job
finished_job-phases env r pmsg job job' log log' pending e = ground arith

pub stopped_job-entry :
    (ended : ℕ) (job : Job) → entry (stopped_job ended job) ≡ at job.client_name (killed ended)
unfolding stopped_job
stopped_job-entry ended job = refl

pub ended-phases :
    (job : Job)
    → is_ended job.state ≡ true
    → (entry job ≡ at job.client_name (over job.ended_unix_milli))
      ⊎ (entry job ≡ at job.client_name (killed job.ended_unix_milli))
unfolding is_ended
ended-phases job h = ground arith

pub live-active : (job : Job) → is_ended job.state ≡ false → entry job ≡ at job.client_name active
unfolding is_ended
live-active job h = ground arith

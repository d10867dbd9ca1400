-- ===== src/Jobslib/History/Refinement.antt =====
-- The library refines its abstract specification (jobslib/jobslib.go).
use jobmaster.Base.{
  ◌≢◌, ◌≡◌, refl, sym, ap, subst, ◌∙◌, inl, inr, ℕ, Bool, true, false, Bool-cases, arith, List, [],
  ◌∷◌, Option, none, some, Text, text_eq_iff, lookup,
}
use jobmaster.Result.{ok}
use jobmaster.Os.{Env, Log, bound-eq-ok}
use jobmaster.Jobslib.Job.{Job, completed}
use jobmaster.Jobslib.Store.{JobsLib, set_job}
use jobmaster.Jobslib.Start.{start_job, new_job}
use jobmaster.Jobslib.Start.Laws.{start_job-eq-ok}
use jobmaster.Jobslib.Finish.{
  WaitResult, finish_job, finish_entry, finished_job, finish_cgroup, wait_message,
}
use jobmaster.Jobslib.Stop.{is_ended, stopped_job, kill_job, stop_entry, stop_commit}
use jobmaster.Jobslib.History.{IsPending, Step, started, finished, stopped, Reach, here, next}
use jobmaster.Jobslib.History.Evolution.{kill_job-eq-ok}
use jobmaster.Jobslib.History.Spec.{
  update, Action, submit, complete, stop, May, Spec, submits, completes, completes_killed, stops,
  stops_killed, stops_over, SpecRun, stays, goes,
}
use jobmaster.Jobslib.History.View.{
  view, entry, entry_at, view-set_job, view-add_job, update_same, finished_job-phases,
  stopped_job-entry, ended-phases, live-active,
}

module _ (env : Env) (lib : JobsLib) where
  start_job-Spec :
      (lib' : JobsLib) (client command : Text) (args : List Text) (id : Text) (log log' : Log)
      → start_job env lib client command args log ≡ (ok (lib', id), log')
      → lookup id lib.jobs ≡ none
      → Spec (view lib) (submit id client) (view lib')
  unfolding new_job
  start_job-Spec lib' client command args id log log' e fresh =
      let new = start_job-eq-ok env lib client command args log _ id log' e in
      subst (Spec (view lib) (submit id client)) (sym (ap view new.2 ∙ view-add_job lib _))
        (submits id client (ap entry_at fresh))

module _ (env : Env) (lib : JobsLib) (id : Text) where
  finished_job-Spec :
      (r : WaitResult) (pmsg : Text) (job job' : Job) (log log' : Log)
      → lookup id lib.jobs ≡ some job
      → job.state ≢ completed
      → finished_job env r pmsg job log ≡ (ok job', log')
      → Spec (view lib) (complete id) (view (set_job id job' lib))
  finished_job-Spec r pmsg job job' log log' found pending e =
      elim (finished_job-phases env r pmsg job job' log log' pending e) [
        | inl (before, after) ↦
            subst (Spec (view lib) (complete id))
              (sym (view-set_job lib id job' ∙ ap (λ e. update id e (view lib)) after))
              (completes id job.client_name job'.ended_unix_milli
                (ap entry_at found ∙ ap some before))
        | inr (before, after) ↦
            subst (Spec (view lib) (complete id))
              (sym (
                view-set_job lib id job'
                ∙ update_same id (entry job') (view lib) (ap entry_at found ∙ ap some (sym after))))
              (completes_killed id job.client_name job.ended_unix_milli
                (ap entry_at found ∙ ap some before))
      ]

  finish_entry-Spec :
      (r : WaitResult) (pmsg : Text) (o : Option Job) (lib' : JobsLib) (log log' : Log)
      → lookup id lib.jobs ≡ o
      → IsPending lib id
      → finish_entry env lib id r pmsg o log ≡ (ok lib', log')
      → Spec (view lib) (complete id) (view lib')
  unfolding finish_entry
  finish_entry-Spec r pmsg none lib' log log' found pending e = absurd (cc)
  finish_entry-Spec r pmsg (some job) lib' log log' found pending e =
      let (job', l1, e1, h) = bound-eq-ok (finished_job env r pmsg job log) _ e in
      let same : set_job id job' lib ≡ lib' = ground arith in
      subst (λ l. Spec (view lib) (complete id) (view l)) same
        (finished_job-Spec r pmsg job job' log l1 found (pending job found) e1)

  finish_job-Spec :
      (client : Text) (lib' : JobsLib) (r : WaitResult) (log log' : Log)
      → IsPending lib id
      → finish_job env lib id client r log ≡ (ok lib', log')
      → Spec (view lib) (complete id) (view lib')
  unfolding finish_job
  finish_job-Spec client lib' r log log' pending e =
      let (pmsg, l1, e1, h) = bound-eq-ok (finish_cgroup env id client (wait_message r) log) _ e in
      finish_entry-Spec r pmsg (lookup id lib.jobs) lib' l1 log' refl pending h

  kill_job-Spec :
      (client : Text) (fuel : ℕ) (copy job job' : Job) (override : Bool) (lib' : JobsLib)
      (log log' : Log)
      → lookup id lib.jobs ≡ some job
      → May client override job.client_name
      → is_ended job.state ≡ false
      → kill_job env fuel lib job copy client id log ≡ (ok (lib', job'), log')
      → Spec (view lib) (stop id client override) (view lib')
  kill_job-Spec client fuel copy job job' override lib' log log' found may live e =
      let (ended, same) = kill_job-eq-ok env lib id client fuel job copy job' lib' log log' e in
      subst (Spec (view lib) (stop id client override))
        (sym (
          ap view same
          ∙ view-set_job lib id (stopped_job ended job)
          ∙ ap (λ e. update id e (view lib)) (stopped_job-entry ended job)))
        (stops id job.client_name client override ended
          (ap entry_at found ∙ ap some (live-active job live)) may)

  over-Spec :
      (client : Text) (job : Job) (override : Bool)
      → lookup id lib.jobs ≡ some job
      → May client override job.client_name
      → is_ended job.state ≡ true
      → Spec (view lib) (stop id client override) (view lib)
  over-Spec client job override found may ended = elim (ended-phases job ended) [
    | inl e ↦ stops_over id job.client_name client override _ (ap entry_at found ∙ ap some e) may
    | inr e ↦ stops_killed id job.client_name client override _ (ap entry_at found ∙ ap some e) may
  ]

  stop_entry-Spec :
      (client : Text) (fuel : ℕ) (copy job' : Job) (override : Bool) (o : Option Job)
      (lib' : JobsLib) (log log' : Log)
      → lookup id lib.jobs ≡ o
      → stop_entry env fuel lib copy client id override o log ≡ (ok (lib', job'), log')
      → Spec (view lib) (stop id client override) (view lib')
  unfolding stop_entry
  stop_entry-Spec client fuel copy job' override none lib' log log' found e = absurd (cc)
  stop_entry-Spec client fuel copy job' override (some job) lib' log log' found e =
      let may : May client override job.client_name =
        ground (arith, text_eq_iff job.client_name client) in
      elim (Bool-cases (is_ended job.state)) [
        | inl ended ↦
            let same : lib ≡ lib' = ground arith in
            subst (λ l. Spec (view lib) (stop id client override) (view l)) same
              (over-Spec client job override found may ended)
        | inr live ↦
            kill_job-Spec client fuel copy job job' override lib' log log' found may live
              (ground arith)
      ]

  stop_commit-Spec :
      (client : Text) (fuel : ℕ) (copy job' : Job) (override : Bool) (lib' : JobsLib)
      (log log' : Log)
      → stop_commit env fuel lib copy client id override log ≡ (ok (lib', job'), log')
      → Spec (view lib) (stop id client override) (view lib')
  unfolding stop_commit
  stop_commit-Spec client fuel copy job' override lib' log log' e =
      stop_entry-Spec client fuel copy job' override (lookup id lib.jobs) lib' log log' refl e

module _ {env : Env} where
  -- What is asked of the library in a step, and in a history.
  abbrev pub action : {lib lib' : JobsLib} → Step env lib lib' → Action
  action (started client command args id log log' e fresh) = submit id client
  action (finished id client r log log' pending e) = complete id
  action (stopped fuel copy job client id override log log' e) = stop id client override

  abbrev pub actions : {lib lib' : JobsLib} → Reach env lib lib' → List Action
  actions here = []
  actions (next r s) = action s ∷ actions r

  Step-Spec : {lib lib' : JobsLib} (s : Step env lib lib') → Spec (view lib) (action s) (view lib')
  Step-Spec {lib} {lib'} (started client command args id log log' e fresh) =
      start_job-Spec env lib lib' client command args id log log' e fresh
  Step-Spec {lib} {lib'} (finished id client r log log' pending e) =
      finish_job-Spec env lib id client lib' r log log' pending e
  Step-Spec {lib} {lib'} (stopped fuel copy job client id override log log' e) =
      stop_commit-Spec env lib id client fuel copy job override lib' log log' e

  -- Any interleaving of starts, ends of processes and stops of the library is a run of the abstract
  -- library on the same actions, from the view of the first state to that of the last.
  pub Reach-SpecRun :
      {lib lib' : JobsLib} (r : Reach env lib lib') → SpecRun (view lib) (actions r) (view lib')
  Reach-SpecRun here = stays
  Reach-SpecRun (next r s) = goes (action s) (Reach-SpecRun r) (Step-Spec s)

-- ===== src/Jobslib/History/Stops.antt =====
-- Who has had a job stopped (jobslib/jobslib.go).
use jobmaster.Base.{
  ◌≡◌, ap, ◌∙◌, ◌⊎◌, inl, inr, Bool, List, [], ◌∷◌, arith, ℕ, none, some, Text, text_eq,
  text_eq_iff, subst, Bool-cases, lookup,
}
use jobmaster.Os.{Env}
use jobmaster.Jobslib.Job.{Job, terminated_by_api}
use jobmaster.Jobslib.Store.{JobsLib}
use jobmaster.Jobslib.History.{Reach}
use jobmaster.Jobslib.History.Spec.{
  killed, Abstract, Action, stop, May, Spec, submits, completes, completes_killed, stops,
  stops_killed, stops_over, SpecRun, stays, goes,
}
use jobmaster.Jobslib.History.View.{view, entry_at, at}
use jobmaster.Jobslib.History.Refinement.{actions, Reach-SpecRun}

-- A stop of that job by someone who may stop what the owner has.
abbrev pub IsPermitted : Text → Text → Action → Type 0
IsPermitted id owner a =
    (caller : Text) × (override : Bool) × (a ≡ stop id caller override) × May caller override owner

abbrev pub Asked : Text → Text → List Action → Type 0
Asked id owner [] = ⊥
Asked id owner (a ∷ acts) = IsPermitted id owner a ⊎ Asked id owner acts

Spec-killed :
    (s s' : Abstract) (a : Action) (id owner : Text) (time : ℕ)
    → Spec s a s'
    → s' id ≡ some (at owner (killed time))
    → (s id ≡ some (at owner (killed time))) ⊎ IsPermitted id owner a
Spec-killed s s' a id owner time (submits j o fresh) h = inl (ground arith)
Spec-killed s s' a id owner time (completes j o t found) h = inl (ground arith)
Spec-killed s s' a id owner time (completes_killed j o t found) h = inl h
Spec-killed s s' a id owner time (stops j o caller override t found may) h =
    elim (Bool-cases (text_eq j id)) [
      | inl same ↦
          let e : j ≡ id = ground (arith, text_eq_iff j id) in
          let owns : o ≡ owner = ground arith in
          inr (
            caller,
            override,
            ap (λ k. stop k caller override) e,
            subst (May caller override) owns may,
          )
      | inr other ↦ inl (ground arith)
    ]
Spec-killed s s' a id owner time (stops_killed j o caller override t found may) h = inl h
Spec-killed s s' a id owner time (stops_over j o caller override t found may) h = inl h

SpecRun-killed :
    (s s' : Abstract) (acts : List Action) (id owner : Text) (time : ℕ)
    → SpecRun s acts s'
    → s id ≡ none
    → s' id ≡ some (at owner (killed time))
    → Asked id owner acts
SpecRun-killed s s' acts id owner time stays fresh h = absurd (cc)
SpecRun-killed s s' acts id owner time (goes {s1 = s1} a run step) fresh h =
    elim (Spec-killed s1 s' a id owner time step h) [
      | inl before ↦ inr (SpecRun-killed s s1 _ id owner time run fresh before)
      | inr here ↦ inl here
    ]

module _ {env : Env} {lib lib' : JobsLib} where
  -- In a history that begins without the job, a job is in the state of one terminated by the API only if
  -- one of the actions was a stop of it, by its owner or with the override.
  pub Reach-Asked :
      (id : Text) (job : Job) (r : Reach env lib lib')
      → lookup id lib.jobs ≡ none
      → lookup id lib'.jobs ≡ some job
      → job.state ≡ terminated_by_api
      → Asked id job.client_name (actions r)
  Reach-Asked id job r fresh found e =
      SpecRun-killed (view lib) (view lib') (actions r) id job.client_name job.ended_unix_milli
        (Reach-SpecRun r) (ap entry_at fresh) (ap entry_at found ∙ ground arith)

-- ===== src/Jobslib/Query/Laws.antt =====
-- Whose jobs a client may read (jobslib/jobslib.go, `Status` and `StreamOutputSetup`).
use jobmaster.Base.{
  ◌≡◌, ◌↔◌, ◌⊎◌, ◌≢◌, Bool, true, [], ◌∷◌, arith, none, some, Text, text_eq_iff, lookup,
}
use jobmaster.Result.{ok}
use jobmaster.Os.{Env, Log, check_ctx}
use jobmaster.Jobslib.Job.{Job}
use jobmaster.Jobslib.Store.{
  JobsLib, copy_job, common_sanity, find_job_by_job_id, deep_copy_job_from_pointer,
  find_and_copy_job_by_id,
}
use jobmaster.Jobslib.Query.{status, stream_output_setup}

-- The context is not done at the first three checks.
abbrev pub LiveThrice : Env → Log → Type 0
LiveThrice env log =
    (env.ctx_err log ≡ none)
    × (env.ctx_err (check_ctx ∷ log) ≡ none)
    × (env.ctx_err (check_ctx ∷ check_ctx ∷ log) ≡ none)

-- The client may use the job: it is the one that started it, or the check is overridden.
abbrev pub MayUse : Text → Bool → Job → Type 0
MayUse client override job = (job.client_name ≡ client) ⊎ (override ≡ true)

module _ (env : Env) (lib : JobsLib) (client id : Text) (override : Bool) (log log' : Log)
    (job : Job) where
  -- A status is returned exactly when the context lives through the three checks, the ID is not empty and is that of a
  -- job of the library which the client may use (its own name not empty, or overridden); it is the job
  -- as it stands in the map.
  pub status-eq-ok : (status env lib client id override log ≡ (ok job, log')) ↔ (
      (lookup id lib.jobs ≡ some job)
      × (id ≢ [])
      × ((client ≢ []) ⊎ (override ≡ true))
      × MayUse client override job
      × LiveThrice env log
      × (log' ≡ check_ctx ∷ check_ctx ∷ check_ctx ∷ log))
  unfolding status common_sanity find_and_copy_job_by_id find_job_by_job_id
      deep_copy_job_from_pointer copy_job
  status-eq-ok = ground (arith, text_eq_iff job.client_name client)

  -- The set-up of a stream succeeds exactly when the context lives through four checks and the other
  -- conditions of a status hold; what it returns is the job as it stands in the map.
  pub stream_output_setup-eq-ok :
      (stream_output_setup env lib client id override log ≡ (ok job, log')) ↔ (
        (lookup id lib.jobs ≡ some job)
        × (id ≢ [])
        × ((client ≢ []) ⊎ (override ≡ true))
        × MayUse client override job
        × LiveThrice env log
        × (env.ctx_err (check_ctx ∷ check_ctx ∷ check_ctx ∷ log) ≡ none)
        × (log' ≡ check_ctx ∷ check_ctx ∷ check_ctx ∷ check_ctx ∷ log))
  unfolding stream_output_setup common_sanity find_and_copy_job_by_id find_job_by_job_id
      deep_copy_job_from_pointer copy_job
  stream_output_setup-eq-ok = ground (arith, text_eq_iff job.client_name client)

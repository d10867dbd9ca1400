-- ===== src/Jobslib/Query.antt =====
-- jobslib/jobslib.go: the two operations that read a job, `Status` and `StreamOutputSetup`.
pub mod Laws
use jobmaster.Base.{Bool, not, ◌&&◌, Text, text_eq, if◌then◌else◌}
use jobmaster.Result.{msg, wrap}
use jobmaster.Os.{Env, Io, ◌>>=◌, ◌>>◌, return, fail, on_err, check_live}
use jobmaster.Jobslib.Job.{Job}
use jobmaster.Jobslib.Store.{JobsLib, common_sanity, find_and_copy_job_by_id}

module _ (env : Env) where
  unfoldable pub status : JobsLib → Text → Text → Bool → Io Job
  status lib client id override = do
    on_err (wrap "cannot get Status, sanity check failed: %w")
        (common_sanity env client id override)
    job ← on_err (wrap "cannot get Status, %w") (find_and_copy_job_by_id env lib id)
    if not (text_eq job.client_name client) && not override
        then fail (msg "cannot get Status, job with ID %q does not belong to client %q")
        else return job

  unfoldable pub stream_output_setup : JobsLib → Text → Text → Bool → Io Job
  stream_output_setup lib client id override = do
    on_err (wrap "cannot StreamOutputSetup, sanity check failed: %w")
        (common_sanity env client id override)
    job ← on_err (wrap "cannot StreamOutputSetup, %w") (find_and_copy_job_by_id env lib id)
    if not (text_eq job.client_name client) && not override
        then fail (msg "cannot StreamOutputSetup, job with ID %q does not belong to client %q")
        else (do on_err (wrap "cannot StreamOutputSetup, %w") (check_live env); return job)

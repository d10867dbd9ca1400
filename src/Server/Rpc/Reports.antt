-- ===== src/Server/Rpc/Reports.antt =====
-- What a response tells of a job (api/server/server_impl.go, `JobResponse` of api/proto).
use jobmaster.Base.{◌≡◌, refl, ℕ, to_int32}
use jobmaster.Jobslib.Job.{
  Job, JobState, unspecified, running, terminated_by_api, completed, state_code,
}
use jobmaster.Server.Rpc.{JobIdRequest, JobResponse, job_response}

-- The number of a state in the protocol.
pub data HasCode : JobState → ℕ → Type 0 where
  code_unspecified : HasCode unspecified 0
  code_running : HasCode running 1
  code_terminated_by_api : HasCode terminated_by_api 2
  code_completed : HasCode completed 3

-- The response holds the request and the job, field by field.
abbrev pub Reports : JobIdRequest → Job → JobResponse → Type 0
Reports req job r =
    (r.job_id_response ≡ req)
    × (r.job_msg ≡ job.mesg)
    × (r.client ≡ job.client_name)
    × (r.pid ≡ job.pid)
    × HasCode job.state r.state
    × (r.exit_code ≡ to_int32 job.exit_code)
    × (r.signal_str ≡ job.signal_str)
    × (r.command ≡ job.command)
    × (r.args ≡ job.cmd_args)
    × (r.started ≡ job.started_unix_milli)
    × (r.ended ≡ job.ended_unix_milli)

state_code-HasCode : (s : JobState) → HasCode s (state_code s)
unfolding state_code
state_code-HasCode unspecified = code_unspecified
state_code-HasCode running = code_running
state_code-HasCode terminated_by_api = code_terminated_by_api
state_code-HasCode completed = code_completed

pub job_response-Reports : (req : JobIdRequest) (job : Job) → Reports req job (job_response req job)
unfolding job_response
job_response-Reports req job =
    (refl, refl, refl, refl, state_code-HasCode job.state, refl, refl, refl, refl, refl, refl)

-- ===== src/Server/Rpc.antt =====
-- api/server/server_impl.go: the handlers of the four RPCs.
pub mod Access
pub mod Inversion
pub mod Reports
pub mod Streaming
use jobmaster.Base.{
  ℕ, Bool, ◌||◌, List, Option, none, some, Text, [], codes, text_eq, CaseMap, ℤ, to_int32,
  if◌then◌else◌,
}
use jobmaster.Result.{status, permission_denied, aborted, internal, not_found, ctx}
use jobmaster.Os.{
  Env, Io, open_file, close_file, ◌>>=◌, ◌>>◌, return, fail, lift, on_err, call, closing, ctx_error,
}
use jobmaster.Authz.{admin, role_eq, role_str_to_role}
use jobmaster.Jobslib.Job.{Job, JobState, state_str, state_code}
use jobmaster.Jobslib.Store.{JobsLib}
use jobmaster.Jobslib.Start.{start_job}
use jobmaster.Jobslib.Stop.{stop_job}
use jobmaster.Jobslib.Query as Query
use jobmaster.Jobslib.Query.{stream_output_setup}
use jobmaster.Jobslib.WaitForFile.{wait_for_file}
use jobmaster.Server.Identity.{Context, client_info_from_context}
use jobmaster.Server.Stream.{drain, follow}

-- `JobIDRequest` by its one field, which may be missing; then the getters yield the empty ID.
abbrev pub JobIdRequest : Type 0
JobIdRequest = Option Text

unfoldable pub get_job_id : JobIdRequest → Text
get_job_id none = []
get_job_id (some id) = id

pub record JobCreateRequest : Type 0 where
  pub command : Text
  pub args : List Text

-- The two times stand in milliseconds.
pub record JobResponse : Type 0 where
  pub job_id_response : JobIdRequest
  pub job_msg : Text
  pub client : Text
  pub pid : ℤ
  pub state : ℕ
  pub exit_code : ℤ
  pub signal_str : Text
  pub command : Text
  pub args : List Text
  pub started : ℕ
  pub ended : ℕ

unfoldable pub job_response : JobIdRequest → Job → JobResponse
job_response req job = record {
  job_id_response = req;
  job_msg = job.mesg;
  client = job.client_name;
  pid = job.pid;
  state = state_code job.state;
  exit_code = to_int32 job.exit_code;
  signal_str = job.signal_str;
  command = job.command;
  args = job.cmd_args;
  started = job.started_unix_milli;
  ended = job.ended_unix_milli;
}

-- The test of the state's text by which the stream chooses its loop.
unfoldable pub reads_ended : JobState → Bool
reads_ended s =
    text_eq (state_str s) (codes "TerminatedByAPI") || text_eq (state_str s) (codes "Completed")

module _ ⦃m : CaseMap⦄ where
  unfoldable pub admin_role : Text → Bool
  admin_role role = role_eq (role_str_to_role role) admin

module _ ⦃m : CaseMap⦄ (env : Env) where
  -- The beginning of each handler. Where the context is done, the message looks at it again.
  unfoldable pub caller : Context → Io (Text × Text)
  caller c = do
    info ← on_err (status permission_denied) (lift (client_info_from_context c))
    done ← ctx_error env
    elim done [ none ↦ return info | some e ↦ fail (status aborted (ctx e)) ]

  unfoldable pub start_rpc : JobsLib → Context → JobCreateRequest → Io (JobsLib × Text)
  start_rpc lib c req = do
    (client, role) ← caller c
    on_err (status internal) (start_job env lib client req.command req.args)

  -- `fuel` is that of the loop in `Stop`.
  unfoldable pub stop_rpc : ℕ → JobsLib → Context → JobIdRequest → Io (JobsLib × JobResponse)
  stop_rpc fuel lib c req = do
    (client, role) ← caller c
    (lib', job) ←
        on_err (status internal) (stop_job env fuel lib client (get_job_id req) (admin_role role))
    return (lib', job_response req job)

  unfoldable pub status_rpc : JobsLib → Context → JobIdRequest → Io JobResponse
  status_rpc lib c req = do
    (client, role) ← caller c
    job ← on_err (status internal) (Query.status env lib client (get_job_id req) (admin_role role))
    return (job_response req job)

  -- From the job's output file on; it is closed on every way out once it is open.
  unfoldable pub stream_file : ℕ → ℕ → Job → Io (Unit {0})
  stream_file fuel inner job = do
    let p = job.output_file_path
    on_err (status not_found) (wait_for_file env p)
    on_err (status internal) (call env (open_file p))
    closing (close_file p)
        (if reads_ended job.state then drain env fuel p 0 else follow env fuel inner p 0 none)

  unfoldable pub stream_output : ℕ → ℕ → JobsLib → Context → JobIdRequest → Io (Unit {0})
  stream_output fuel inner lib c req = do
    (client, role) ← caller c
    job ←
        on_err (status internal)
          (stream_output_setup env lib client (get_job_id req) (admin_role role))
    stream_file fuel inner job

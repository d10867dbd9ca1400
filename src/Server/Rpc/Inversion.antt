-- ===== src/Server/Rpc/Inversion.antt =====
-- What a handler has done where it returned, given the client that it reads from its context
-- (api/server/server_impl.go).
use jobmaster.Base.{◌≡◌, ◌⊎◌, ◌≢◌, ℕ, Bool, [], arith, some, Text, CaseMap, lookup}
use jobmaster.Result.{Result, ok}
use jobmaster.Os.{Env, Log, bound-eq-ok, renamed-eq-ok}
use jobmaster.Authz.{Role, admin, role_str}
use jobmaster.Authz.Laws.{role_eq_iff, role_str_to_role-role_str}
use jobmaster.Jobslib.Job.{Job}
use jobmaster.Jobslib.Store.{JobsLib, add_job}
use jobmaster.Jobslib.Query as Query
use jobmaster.Jobslib.Query.Laws.{MayUse, status-eq-ok}
use jobmaster.Jobslib.Start.{start_job, new_job, output_path}
use jobmaster.Jobslib.Start.Laws.{start_job-eq-ok}
use jobmaster.Jobslib.Stop.{is_ended, stop_find, stop_job}
use jobmaster.Jobslib.Stop.Own.{stop_commit-leaves}
use jobmaster.Server.Identity.{Context, client_info_from_context}
use jobmaster.Server.Rpc.{
  JobIdRequest, get_job_id, JobResponse, job_response, JobCreateRequest, caller, admin_role,
  start_rpc, stop_rpc, status_rpc,
}

-- The job with that ID belongs to the client, or the client is an administrator.
abbrev pub Owns : Text → Role → Job → Type 0
Owns name role job = (job.client_name ≡ name) ⊎ (role ≡ admin)

-- The library with one more job of that client, which runs.
abbrev pub Adds : JobsLib → Text → JobCreateRequest → JobsLib → Text → Type 0
Adds lib name req lib' id =
    (pid : ℕ) × (started : ℕ) × (lib'
      ≡ add_job (new_job id name pid req.command req.args (output_path lib.output_dir id) started)
          lib)
    × (req.command ≢ [])
    × (id ≢ [])

module _ ⦃m : CaseMap⦄ (env : Env) where
  pub caller-eq-ok :
      (c : Context) (name : Text) (role : Role) (info : Text × Text) (log log' : Log)
      → client_info_from_context c ≡ ok (name, role_str role)
      → caller env c log ≡ (ok info, log')
      → info ≡ (name, role_str role)
  unfolding caller
  caller-eq-ok c name role info log log' e h = ground arith

  pub MayUse-Owns :
      (name : Text) (role : Role) (job : Job)
      → MayUse name (admin_role (role_str role)) job
      → Owns name role job
  unfolding admin_role
  MayUse-Owns name role job h =
      ground (arith, role_str_to_role-role_str role, role_eq_iff role admin)

  status_of_info :
      (lib : JobsLib) (req : JobIdRequest) (name : Text) (role : Role) (info : Text × Text)
      (job : Job) (log log' : Log)
      → info ≡ (name, role_str role)
      → Query.status env lib info.0 (get_job_id req) (admin_role info.1) log ≡ (ok job, log')
      → (lookup (get_job_id req) lib.jobs ≡ some job) × Owns name role job
  status_of_info lib req name role info job log log' same h =
      let h' : Query.status env lib name (get_job_id req) (admin_role (role_str role)) log
          ≡ (ok job, log') =
        cc in
      let (found, _, _, may, _, _) =
        (status-eq-ok env lib name (get_job_id req) (admin_role (role_str role)) log log' job).0
          h' in
      (found, MayUse-Owns name role job may)

  pub status_rpc_of_info :
      (lib : JobsLib) (c : Context) (req : JobIdRequest) (name : Text) (role : Role)
      (r : JobResponse) (log log' : Log)
      → client_info_from_context c ≡ ok (name, role_str role)
      → status_rpc env lib c req log ≡ (ok r, log')
      → (job : Job) × (lookup (get_job_id req) lib.jobs ≡ some job)
        × Owns name role job
        × (r ≡ job_response req job)
  unfolding status_rpc
  status_rpc_of_info lib c req name role r log log' e h =
      let (info, l1, e1, h1) = bound-eq-ok (caller env c log) _ h in
      let (job, l2, e2, h2) = bound-eq-ok _ _ h1 in
      let same = caller-eq-ok c name role info log l1 e e1 in
      let (found, may) =
        status_of_info lib req name role info job l1 l2 same (renamed-eq-ok _ _ e2) in
      (job, found, may, ground arith)

  pub start_rpc_of_info :
      (lib lib' : JobsLib) (c : Context) (req : JobCreateRequest) (name : Text) (role : Role)
      (id : Text) (log log' : Log)
      → client_info_from_context c ≡ ok (name, role_str role)
      → start_rpc env lib c req log ≡ (ok (lib', id), log')
      → Adds lib name req lib' id
  unfolding start_rpc
  start_rpc_of_info lib lib' c req name role id log log' e h =
      let (info, l1, e1, h1) = bound-eq-ok (caller env c log) _ h in
      let same = caller-eq-ok c name role info log l1 e e1 in
      let started : start_job env lib info.0 req.command req.args l1 ≡ (ok (lib', id), log') =
        renamed-eq-ok _ _ h1 in
      let (pid, _, added, _, _, _, named, some_id, _) =
        start_job-eq-ok env lib name req.command req.args l1 lib' id log' (rw same at started) in
      (pid, _, added, named, some_id)

  stop_job-Owns :
      (fuel : ℕ) (lib lib' : JobsLib) (id name : Text) (role : Role) (job' : Job) (log log' : Log)
      → stop_job env fuel lib name id (admin_role (role_str role)) log ≡ (ok (lib', job'), log')
      → (job : Job) × (lookup id lib'.jobs ≡ some job)
        × (is_ended job.state ≡ Bool.true)
        × Owns name role job
  unfolding stop_job
  stop_job-Owns fuel lib lib' id name role job' log log' h =
      let (copy, l1, e1, h1) =
        bound-eq-ok (stop_find env lib name id (admin_role (role_str role)) log) _ h in
      let (job, found, over, may) =
        stop_commit-leaves env fuel lib lib' copy job' name id (admin_role (role_str role)) l1 log'
          h1 in
      (job, found, over, MayUse-Owns name role job may)

  stop_of_info :
      (fuel : ℕ) (lib lib' : JobsLib) (req : JobIdRequest) (name : Text) (role : Role)
      (r : JobResponse) (info : Text × Text) (out : JobsLib × Job) (log log2 log' : Log)
      → info ≡ (name, role_str role)
      → stop_job env fuel lib info.0 (get_job_id req) (admin_role info.1) log ≡ (ok out, log2)
      → (◌≡◌ {A = Result (JobsLib × JobResponse) × Log}
          (ok (out.0, job_response req out.1), log2)
          (ok (lib', r), log'))
      → (job : Job) × (lookup (get_job_id req) lib'.jobs ≡ some job)
        × (is_ended job.state ≡ Bool.true)
        × Owns name role job
  stop_of_info fuel lib lib' req name role r info out log log2 log' same h final =
      let stopped : stop_job env fuel lib name (get_job_id req) (admin_role (role_str role)) log
          ≡ (ok (lib', out.1), log2) =
        cc in
      stop_job-Owns fuel lib lib' (get_job_id req) name role out.1 log log2 stopped

  pub stop_rpc_of_info :
      (fuel : ℕ) (lib lib' : JobsLib) (c : Context) (req : JobIdRequest) (name : Text) (role : Role)
      (r : JobResponse) (log log' : Log)
      → client_info_from_context c ≡ ok (name, role_str role)
      → stop_rpc env fuel lib c req log ≡ (ok (lib', r), log')
      → (job : Job) × (lookup (get_job_id req) lib'.jobs ≡ some job)
        × (is_ended job.state ≡ Bool.true)
        × Owns name role job
  unfolding stop_rpc
  stop_rpc_of_info fuel lib lib' c req name role r log log' e h =
      let (info, l1, e1, h1) = bound-eq-ok (caller env c log) _ h in
      let same = caller-eq-ok c name role info log l1 e e1 in
      let (out, l2, e2, h2) = bound-eq-ok _ _ h1 in
      stop_of_info fuel lib lib' req name role r info out l1 l2 log' same (renamed-eq-ok _ _ e2) h2

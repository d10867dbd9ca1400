-- ===== src/Server/Rpc/Access.antt =====
-- What a client obtains from the RPCs behind the interceptors (api/server/server_impl.go).
use jobmaster.Base.{
  ◌≡◌, sym, ◌∙◌, inl, inr, ℕ, Bool, List, ◌∷◌, Option, some, Text, CaseMap, lookup,
}
use jobmaster.Result.{ok}
use jobmaster.Os.{Env, Log, check_ctx}
use jobmaster.Authz.{Role}
use jobmaster.Authn.{Certificate}
use jobmaster.Jobslib.Job.{Job}
use jobmaster.Jobslib.Store.{JobsLib}
use jobmaster.Jobslib.Stop.{is_ended}
use jobmaster.Server.Identity.{Context, tls, validate_client_unary_interceptor}
use jobmaster.Server.Identity.Laws.{Chain}
use jobmaster.Server.Identity.RoundTrip.{KeepsSpaces}
use jobmaster.Server.Identity.Admission.{validate_client_unary_interceptor_lem}
use jobmaster.Server.Rpc.{JobIdRequest, get_job_id, JobResponse, stop_rpc, status_rpc}
use jobmaster.Server.Rpc.Reports.{Reports, job_response-Reports}
use jobmaster.Server.Rpc.Inversion.{Owns, status_rpc_of_info, stop_rpc_of_info}

module _ ⦃m : CaseMap⦄ (env : Env) (keeps : KeepsSpaces m) (lib : JobsLib) (c : Context)
    (log log' : Log) where
  -- Behind the interceptor, and for a case mapping that keeps white space, a status is returned only to
  -- a client whose certificates show a name and a role, and only of a job of the library under the
  -- requested ID that was started by that name, unless the role is that of an administrator; the
  -- response holds each field of the job as it stands (`Reports`), the state by its number, 1 for a
  -- running job, 2 for one that was terminated and 3 for a completed one.
  pub status_rpc-Owns :
      (req : JobIdRequest) (r : JobResponse)
      → validate_client_unary_interceptor env c req (status_rpc env lib) log ≡ (ok r, log')
      → (certs : List (Option Certificate)) × (name : Text) × (role : Role) × (job : Job) × (c.peer
          ≡ some (tls certs))
        × Chain certs name role
        × (lookup (get_job_id req) lib.jobs ≡ some job)
        × Owns name role job
        × Reports req job r
  status_rpc-Owns req r h =
      elim (validate_client_unary_interceptor_lem keeps env c req (status_rpc env lib) log) [
        | inr (e, failed) ↦ absurd (cc)
        | inl (c', adm, run) ↦
            let (job, found, owns, same) =
              status_rpc_of_info env lib c' req adm.name adm.role r (check_ctx ∷ log) log' adm.info
                (sym run ∙ h) in
            (
              adm.certs,
              adm.name,
              adm.role,
              job,
              adm.by_tls,
              adm.chain,
              found,
              owns,
              rw same (job_response-Reports req job),
            )
      ]

  -- Behind the interceptor, and for a case mapping that keeps white space, a stop returns, for whatever
  -- fuel, only to a client whose certificates show a name and a role; the library then has a job with
  -- the requested ID that has ended and was started by that name, unless the role is an administrator's.
  pub stop_rpc-Owns :
      (fuel : ℕ) (req : JobIdRequest) (lib' : JobsLib) (r : JobResponse)
      → validate_client_unary_interceptor env c req (stop_rpc env fuel lib) log
        ≡ (ok (lib', r), log')
      → (certs : List (Option Certificate)) × (name : Text) × (role : Role) × (job : Job) × (c.peer
          ≡ some (tls certs))
        × Chain certs name role
        × (lookup (get_job_id req) lib'.jobs ≡ some job)
        × (is_ended job.state ≡ Bool.true)
        × Owns name role job
  stop_rpc-Owns fuel req lib' r h =
      elim (validate_client_unary_interceptor_lem keeps env c req (stop_rpc env fuel lib) log) [
        | inr (e, failed) ↦ absurd (cc)
        | inl (c', adm, run) ↦
            let (job, found, over, owns) =
              stop_rpc_of_info env fuel lib lib' c' req adm.name adm.role r (check_ctx ∷ log) log'
                adm.info (sym run ∙ h) in
            (adm.certs, adm.name, adm.role, job, adm.by_tls, adm.chain, found, over, owns)
      ]

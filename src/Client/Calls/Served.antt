-- ===== src/Client/Calls/Served.antt =====
-- The calls of the client over the handlers of the server: api/client/client_impl.go meets
-- api/server/server_impl.go. Requests and replies arrive as they are sent.
use jobmaster.Base.{
  ◌≡◌, ap, ◌∙◌, ℕ, List, [], ◌∷◌, ◌++◌, Option, some, Text, codes, CaseMap, lookup,
}
use jobmaster.Result.{ok}
use jobmaster.Os.{Env, Log, print, bound-eq-ok}
use jobmaster.Authz.{Role}
use jobmaster.Authn.{Certificate}
use jobmaster.Jobslib.Job.{Job}
use jobmaster.Jobslib.Store.{JobsLib}
use jobmaster.Server.Identity.{Context, tls, validate_client_unary_interceptor}
use jobmaster.Server.Identity.Laws.{Chain}
use jobmaster.Server.Identity.RoundTrip.{KeepsSpaces}
use jobmaster.Server.Rpc.{JobResponse, status_rpc}
use jobmaster.Server.Rpc.Reports.{HasCode}
use jobmaster.Client.Calls.Line.{job_line, response_line_lem}
use jobmaster.Server.Rpc.Inversion.{Owns}
use jobmaster.Server.Rpc.Access.{status_rpc-Owns}
use jobmaster.Client.Calls.{JobServiceClient, Verbs, print_line, response_line, status}

module _ ⦃m : CaseMap⦄ (env : Env) (lib : JobsLib) (c : Context) where
  -- A stub whose status call is the handler behind the interceptor.
  abbrev pub served : JobServiceClient → JobServiceClient
  served rpc = record rpc {
    status = λ req. validate_client_unary_interceptor env c req (status_rpc env lib);
  }

  status_line :
      (rpc : JobServiceClient) (v : Verbs) (job_id : Text) (log log' : Log)
      → status rpc v job_id log ≡ (ok tt, log')
      → (r : JobResponse) × (log1 : Log) × (rpc.status (some job_id) log ≡ (ok r, log1))
        × (log' ≡ print (response_line v r ++ codes "\n") ∷ log1)
  unfolding status print_line
  status_line rpc v [] log log' h = cc
  status_line rpc v (b ∷ bs) log log' h =
      let (r, log1, served, rest) = bound-eq-ok (rpc.status (some (b ∷ bs)) log) _ h in
      (r, log1, served, cc)

  -- For a case mapping that keeps white space, over a server that holds the library: the client's status
  -- call succeeds only for the ID of a job of the library that was started by the name that the client's
  -- certificates show, unless their role is an administrator's; the last thing it does is to print the line of
  -- that job as the library holds it: the ID and the job's fields, each behind its name, the state by its number.
  pub status-Owns :
      (keeps : KeepsSpaces m) (rpc : JobServiceClient) (v : Verbs) (job_id : Text) (log log' : Log)
      → status (served rpc) v job_id log ≡ (ok tt, log')
      → (certs : List (Option Certificate)) × (name : Text) × (role : Role) × (job : Job) × (n : ℕ)
        × (log1 : Log) × (c.peer ≡ some (tls certs))
        × Chain certs name role
        × (lookup job_id lib.jobs ≡ some job)
        × Owns name role job
        × HasCode job.state n
        × (log' ≡ print (job_line v job_id job n ++ codes "\n") ∷ log1)
  unfolding jobmaster.Server.Rpc.get_job_id
  status-Owns keeps rpc v job_id log log' h =
      let (r, log1, replied, printed) = status_line (served rpc) v job_id log log' h in
      let (certs, name, role, job, by_tls, chain, found, owns, same) =
        status_rpc-Owns env keeps lib c log log1 (some job_id) r replied in
      let (n, code, line) = response_line_lem v job_id job r same in
      (
        certs,
        name,
        role,
        job,
        n,
        log1,
        by_tls,
        chain,
        found,
        owns,
        code,
        printed ∙ ap (λ t. print (t ++ codes "\n") ∷ log1) line,
      )

-- ===== src/Server/Rpc/Streaming.antt =====
-- Who is sent the output of a job (api/server/server_impl.go, `StreamOutput`).
use jobmaster.Base.{
  ◌≡◌, refl, sym, ap, ◌∙◌, ◌⊎◌, inl, inr, Bool, List, ℕ, ◌∷◌, arith, Option, some, Text, CaseMap,
  lookup,
}
use jobmaster.Result.{Result, Error, ok, err, panic, hang, status, internal}
use jobmaster.Os.{Env, Log, Io, ◌>>=◌, bound, renamed, renamed-eq-ok, on_err, check_ctx}
use jobmaster.Authz.{Role, role_str}
use jobmaster.Authn.{Certificate}
use jobmaster.Jobslib.Job.{Job}
use jobmaster.Jobslib.Store.{
  JobsLib, common_sanity, find_and_copy_job_by_id, find_job_by_job_id, deep_copy_job_from_pointer,
}
use jobmaster.Jobslib.Query.{stream_output_setup}
use jobmaster.Jobslib.Query.Laws.{stream_output_setup-eq-ok}
use jobmaster.Server.Identity.{
  Context, tls, client_info_from_context, validate_client_stream_interceptor,
}
use jobmaster.Server.Identity.Laws.{Chain}
use jobmaster.Server.Identity.RoundTrip.{KeepsSpaces}
use jobmaster.Server.Identity.Admission.{validate_client_stream_interceptor_lem}
use jobmaster.Server.Stream.Prefix.{sent}
use jobmaster.Server.Rpc.{JobIdRequest, get_job_id, caller, admin_role, stream_file, stream_output}
use jobmaster.Server.Rpc.Inversion.{Owns, caller-eq-ok, MayUse-Owns}

-- Either the first part has a value, or the log is its own.
bound_cases {ℓ κ} :
    {A : Type ℓ} {B : Type κ} (r : Result A × Log) (f : A → Io B)
    → ((a : A) × (l : Log) × (r ≡ (ok a, l)) × ((bound r f).1 ≡ (f a l).1)) ⊎ ((bound r f).1 ≡ r.1)
bound_cases (ok a, l) f = inl (a, l, refl, refl)
bound_cases (err e, l) f = inr refl
bound_cases (panic s, l) f = inr refl
bound_cases (hang, l) f = inr refl

renamed_log {ℓ} : {A : Type ℓ} (f : Error → Error) (r : Result A × Log) → (renamed f r).1 ≡ r.1
renamed_log f (ok a, l) = refl
renamed_log f (err e, l) = refl
renamed_log f (panic s, l) = refl
renamed_log f (hang, l) = refl

module _ ⦃m : CaseMap⦄ (env : Env) where
  sent-caller : (c : Context) (log : Log) → sent (caller env c log).1 ≡ sent log
  unfolding caller
  sent-caller c log = ground arith

  sent-setup :
      (lib : JobsLib) (client id : Text) (override : Bool) (log : Log)
      → sent (stream_output_setup env lib client id override log).1 ≡ sent log
  unfolding stream_output_setup common_sanity find_and_copy_job_by_id find_job_by_job_id
      deep_copy_job_from_pointer
  sent-setup lib client id override log = ground arith

  setup-Owns :
      (lib : JobsLib) (id name : Text) (role : Role) (info : Text × Text) (job : Job)
      (log log' : Log)
      → info ≡ (name, role_str role)
      → stream_output_setup env lib info.0 id (admin_role info.1) log ≡ (ok job, log')
      → (lookup id lib.jobs ≡ some job) × Owns name role job
  setup-Owns lib id name role info job log log' same h =
      let h' : stream_output_setup env lib name id (admin_role (role_str role)) log
          ≡ (ok job, log') =
        cc in
      let (found, _, _, may, _, _, _) =
        (stream_output_setup-eq-ok env lib name id (admin_role (role_str role)) log log' job).0
          h' in
      (found, MayUse-Owns env name role job may)

  stream_of_info :
      (fuel inner : ℕ) (lib : JobsLib) (c : Context) (req : JobIdRequest) (name : Text)
      (role : Role) (log : Log)
      → client_info_from_context c ≡ ok (name, role_str role)
      → (sent (stream_output env fuel inner lib c req log).1 ≡ sent log)
        ⊎ ((job : Job) × (lookup (get_job_id req) lib.jobs ≡ some job) × Owns name role job)
  unfolding stream_output
  stream_of_info fuel inner lib c req name role log e =
      elim (bound_cases (caller env c log) (λ info.
        on_err (status internal)
          (stream_output_setup env lib info.0 (get_job_id req) (admin_role info.1))
        >>= stream_file env fuel inner)) [
          | inr quiet ↦ inl (ap sent quiet ∙ sent-caller c log)
          | inl (info, l1, called, all) ↦
              let same = caller-eq-ok env c name role info log l1 e called in
              let quiet1 : sent l1 ≡ sent log =
                sym (ap (λ x. sent x.1) called) ∙ sent-caller c log in
              let setup =
                stream_output_setup env lib info.0 (get_job_id req) (admin_role info.1) l1 in
              elim (bound_cases (renamed (status internal) setup) (stream_file env fuel inner)) [
                | inl (job, l2, found, _) ↦
                    let (there, owns) =
                      setup-Owns lib (get_job_id req) name role info job l1 l2 same
                        (renamed-eq-ok _ _ found) in
                    inr (job, there, owns)
                | inr quiet ↦ inl (
                    ap sent all
                    ∙ ap sent quiet
                    ∙ ap sent (renamed_log (status internal) setup)
                    ∙ sent-setup lib info.0 (get_job_id req) (admin_role info.1) l1
                    ∙ quiet1)
              ]
        ]

  -- Behind the interceptor, and for a case mapping that keeps white space, a request for output on which
  -- anything is handed to Send comes from a client whose certificates show a name and a role, and is for
  -- a job of the library that this name started, unless the role is an administrator's; this holds on
  -- every way out of the handler, a panic and an endless loop included.
  pub stream_output-Owns :
      (keeps : KeepsSpaces m) (fuel inner : ℕ) (lib : JobsLib) (c : Context) (req : JobIdRequest)
      (log : Log)
      → (sent
            (validate_client_stream_interceptor env c
              (λ c'. stream_output env fuel inner lib c' req)
              log).1
          ≡ sent log)
        ⊎ ((certs : List (Option Certificate)) × (name : Text) × (role : Role) × (job : Job)
            × (c.peer ≡ some (tls certs))
            × Chain certs name role
            × (lookup (get_job_id req) lib.jobs ≡ some job)
            × Owns name role job)
  stream_output-Owns keeps fuel inner lib c req log =
      elim (validate_client_stream_interceptor_lem keeps env c
        (λ c'. stream_output env fuel inner lib c' req) log) [
          | inr (e, failed) ↦ inl (ap (λ x. sent x.1) failed)
          | inl (c', adm, run) ↦
              elim (stream_of_info fuel inner lib c' req adm.name adm.role (check_ctx ∷ log)
                adm.info) [
                  | inl quiet ↦ inl (ap (λ x. sent x.1) run ∙ quiet)
                  | inr (job, found, owns) ↦
                      inr (adm.certs, adm.name, adm.role, job, adm.by_tls, adm.chain, found, owns)
                ]
        ]

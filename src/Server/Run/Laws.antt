-- ===== src/Server/Run/Laws.antt =====
-- When a server is made, and how its life ends (api/server/server.go).
use jobmaster.Base.{
  ap, ◌≡◌, refl, sym, ◌∙◌, ◌↔◌, inl, inr, Sum-cases, is_nil-eq-false, ◌≢◌, true, [], ◌∷◌, arith,
  none, Text, codes, is_nil, is_blank, if◌then◌else◌, List,
}
use jobmaster.Result.{Result, ok, wrap}
use jobmaster.Os.{on_err, bound, Env, Log, load_key_pair, read_text, bound-eq-ok, renamed-eq-ok}
use jobmaster.Authz.{get_authorized_client_names}
use jobmaster.Jobslib.Cgroups.Setup.{setup_jobmaster_cgroups}
use jobmaster.Jobslib.Cgroups.Setup.Laws.{AllSucceed, all_calls, setup_jobmaster_cgroups-eq-ok}
use jobmaster.Jobslib.Device.{validate_io_device_number, digit_run}
use jobmaster.Jobslib.Store.{JobsLib, create_jobs_lib}
use jobmaster.Server.Run.{
  ServerConfig, ServerTls, Server, load_tls_config_for_server, secured, new_server,
}

-- A library with no jobs.
abbrev pub fresh_lib : List Text → Text → Text → JobsLib
fresh_lib clients dir device = record {
  jobs = [];
  client_to_job_id = [];
  client_list = clients;
  output_dir = if is_blank dir then codes "/tmp" else dir;
  io_dev_major_minor = device;
}

-- What the server demands of a connection: a certificate signed by the CA, and TLS 1.3.
abbrev pub strict_tls : ServerConfig → Text → ServerTls
strict_tls sc cas = record {
  certificate = sc.server_cert_file;
  client_cert_required = true;
  client_cas = cas;
  min_version = 0x0304;
  max_version = 0x0304;
}

validate-not-nil : (device : Text) → validate_io_device_number device ≡ true → device ≢ []
unfolding validate_io_device_number digit_run
validate-not-nil [] h = cc
validate-not-nil (c ∷ s) h = λ e. cc

clients-not-nil : get_authorized_client_names ≢ []
unfolding get_authorized_client_names
clients-not-nil = λ e. cc

module _ (env : Env) where
  create_jobs_lib-eq-ok :
      (log : Log) (clients : List Text) (dir device : Text) (lib : JobsLib) (log' : Log)
      → (create_jobs_lib env clients dir device log ≡ (ok lib, log')) ↔ (
          (clients ≢ [])
          × (validate_io_device_number device ≡ true)
          × (setup_jobmaster_cgroups env clients log ≡ (ok tt, log'))
          × (lib ≡ fresh_lib clients dir device))
  unfolding create_jobs_lib
  create_jobs_lib-eq-ok log [] dir device lib log' = ground arith
  create_jobs_lib-eq-ok log (c ∷ cs) dir device lib log' = ground arith

  module _ (log : Log) where
    -- The log behind the set-up of the clients' directories.
    abbrev pub lib_made : Log
    lib_made = all_calls env log get_authorized_client_names

    -- What a construction that succeeds has met and made.
    abbrev pub Makes : ServerConfig → Server → Log → Type 0
    Makes sc s log' =
        (cas : Text) × (validate_io_device_number sc.io_device_id ≡ true)
        × AllSucceed env log get_authorized_client_names
        × (env.key_pair_err lib_made ≡ none)
        × (env.text_of (load_key_pair sc.server_cert_file sc.server_cert_key_file ∷ lib_made)
            ≡ inr cas)
        × (env.has_certificates cas ≡ true)
        × (s ≡ record {
          job_mgr = fresh_lib get_authorized_client_names sc.job_output_dir_path sc.io_device_id;
          creds = strict_tls sc cas;
        })
        × (log'
            ≡ read_text sc.client_ca_file
              ∷ load_key_pair sc.server_cert_file sc.server_cert_key_file
              ∷ lib_made)

  create-made :
      (log : Log) (sc : ServerConfig) (lib : JobsLib) (l1 : Log)
      → create_jobs_lib env get_authorized_client_names sc.job_output_dir_path sc.io_device_id log
        ≡ (ok lib, l1)
      → (validate_io_device_number sc.io_device_id ≡ true)
        × AllSucceed env log get_authorized_client_names
        × (lib ≡ fresh_lib get_authorized_client_names sc.job_output_dir_path sc.io_device_id)
        × (l1 ≡ lib_made log)
  create-made log sc lib l1 h =
      let (some_client, valid, set_up, e) =
        (create_jobs_lib-eq-ok log get_authorized_client_names _ _ lib l1).0 h in
      let (_, made, calls) =
        (setup_jobmaster_cgroups-eq-ok env log get_authorized_client_names l1).0 set_up in
      (valid, made, e, calls)

  secured-eq-ok :
      (log : Log) (sc : ServerConfig) (lib : JobsLib) (s : Server) (log' : Log)
      → (secured env sc lib log ≡ (ok s, log')) ↔ (
          (cas : Text) × (env.key_pair_err log ≡ none)
          × (env.text_of (load_key_pair sc.server_cert_file sc.server_cert_key_file ∷ log)
              ≡ inr cas)
          × (env.has_certificates cas ≡ true)
          × (s ≡ record { job_mgr = lib; creds = strict_tls sc cas })
          × (log'
              ≡ read_text sc.client_ca_file
                ∷ load_key_pair sc.server_cert_file sc.server_cert_key_file
                ∷ log))
  unfolding secured load_tls_config_for_server
  secured-eq-ok log sc lib s log' = (
    λ h.
        elim (Sum-cases
          (env.text_of (load_key_pair sc.server_cert_file sc.server_cert_key_file ∷ log))) [
            | inl (e, failed) ↦ absurd (ground arith)
            | inr (cas, read) ↦ (cas, ground arith, read, ground arith, ground arith, ground arith)
          ],
    λ (cas, pair, read, some_cert, e, calls). ground arith,
  )

  new_server-secured :
      (log : Log) (sc : ServerConfig) (r : Result Server × Log)
      → sc.io_device_id ≢ []
      → (new_server env sc log ≡ r) ↔ (
          bound
            (on_err
              (wrap "error instantiating jobmaster jobs library: %w")
              (create_jobs_lib env get_authorized_client_names sc.job_output_dir_path
                sc.io_device_id)
              log)
            (secured env sc)
          ≡ r)
  unfolding new_server
  new_server-secured log sc r some_id =
      let e = is_nil-eq-false sc.io_device_id some_id in ground arith

  new_server-not-nil :
      (log : Log) (sc : ServerConfig) (s : Server) (log' : Log)
      → new_server env sc log ≡ (ok s, log')
      → sc.io_device_id ≢ []
  unfolding new_server
  new_server-not-nil log sc s log' h = λ e. let e' = ap is_nil e in ground arith

  -- A server is made exactly when the device ID is valid, the hierarchy of the authorized clients is set
  -- up, the server's certificate and key load and the clients' CA file holds a certificate. Its library
  -- has no jobs; it demands a client certificate signed by that CA, and TLS 1.3; the calls are these.
  pub new_server-eq-ok :
      (log : Log) (sc : ServerConfig) (s : Server) (log' : Log)
      → (new_server env sc log ≡ (ok s, log')) ↔ Makes log sc s log'
  new_server-eq-ok log sc s log' = (
    λ h.
        let some_id = new_server-not-nil log sc s log' h in
        let (lib, l1, made, h') =
          bound-eq-ok
            (on_err (wrap "error instantiating jobmaster jobs library: %w")
              (create_jobs_lib env get_authorized_client_names sc.job_output_dir_path
                sc.io_device_id)
              log)
            (secured env sc) ((new_server-secured log sc _ some_id).0 h) in
        let (valid, set_up, e, l1_eq) = create-made log sc lib l1 (renamed-eq-ok _ _ made) in
        let (cas, pair, read, some_cert, s_eq, calls) = (secured-eq-ok l1 sc lib s log').0 h' in
        (
          cas,
          valid,
          set_up,
          rw (sym l1_eq) pair,
          rw (sym l1_eq) read,
          some_cert,
          s_eq ∙ rw e refl,
          calls ∙ rw l1_eq refl,
        ),
    λ (cas, valid, set_up, pair, read, some_cert, e, calls).
        (new_server-secured log sc _ (validate-not-nil sc.io_device_id valid)).1 (
          let made =
            (create_jobs_lib-eq-ok log get_authorized_client_names sc.job_output_dir_path
                sc.io_device_id _ (lib_made log)).1
              (
                clients-not-nil,
                valid,
                (setup_jobmaster_cgroups-eq-ok env log get_authorized_client_names _).1
                    (clients-not-nil, set_up, refl),
                refl,
              ) in
          rw made
            ((secured-eq-ok (lib_made log) sc _ s log').1 (cas, pair, read, some_cert, e, calls))),
  )

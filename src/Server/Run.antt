-- ===== src/Server/Run.antt =====
-- api/server/server.go: the construction of the server, and its life.
pub mod Laws
pub mod Life
use jobmaster.Base.{
  ℕ, Bool, true, not, ◌++◌, Option, none, some, Text, codes, is_nil, inl, inr, ◌⊎◌, if◌then◌else◌,
}
use jobmaster.Result.{Error, msg, wrap}
use jobmaster.FilePath.{FilePath}
use jobmaster.Os.{
  Env, Io, ServeEvent, graceful_stop, ◌>>=◌, ◌>>◌, return, fail, on_err, note, load_pair,
  read_text_file, serve_until,
}
use jobmaster.Authz.{get_authorized_client_names}
use jobmaster.Jobslib.Cgroups.{teardown_jobmaster_cgroups}
use jobmaster.Jobslib.Store.{JobsLib, create_jobs_lib}

pub record ServerConfig : Type 0 where
  pub server_port : Text
  pub server_cert_key_file : FilePath
  pub server_cert_file : FilePath
  pub client_ca_file : FilePath
  pub job_output_dir_path : Text
  pub io_device_id : Text

-- tls.VersionTLS13.
abbrev pub version_tls13 : ℕ
version_tls13 = 0x0304

-- The fields of tls.Config that are set; a certificate stands by its file.
pub record ServerTls : Type 0 where
  pub certificate : FilePath
  -- tls.RequireAndVerifyClientCert
  pub client_cert_required : Bool
  pub client_cas : Text
  pub min_version : ℕ
  pub max_version : ℕ

-- grpc.Server with the service that is registered; both interceptors are set.
pub record Server : Type 0 where
  pub job_mgr : JobsLib
  pub creds : ServerTls

module _ (env : Env) where
  unfoldable pub load_tls_config_for_server : ServerConfig → Io ServerTls
  load_tls_config_for_server sc = do
    on_err (wrap "failed loading server certificate: %w")
        (load_pair env sc.server_cert_file sc.server_cert_key_file)
    ca_data ←
        on_err (wrap "failed reading Client CA certificate: %w")
          (read_text_file env sc.client_ca_file)
    if not (env.has_certificates ca_data)
        then fail (msg "unable to append client CA certificate(s) to the client CA pool")
        else return (record {
          certificate = sc.server_cert_file;
          client_cert_required = true;
          client_cas = ca_data;
          min_version = version_tls13;
          max_version = version_tls13;
        })

  -- The second half of the construction: grpc.NewServer returns a server.
  unfoldable pub secured : ServerConfig → JobsLib → Io Server
  secured sc lib = do
    tls ← on_err (wrap "error creating server TLS config: %w") (load_tls_config_for_server sc)
    return (record { job_mgr = lib; creds = tls })

  -- The library is never nil where there is no error.
  unfoldable pub new_server : ServerConfig → Io Server
  new_server sc =
      if is_nil sc.io_device_id
      then fail (msg "config field IODeviceID is empty")
      else on_err (wrap "error instantiating jobmaster jobs library: %w")
          (create_jobs_lib env get_authorized_client_names sc.job_output_dir_path sc.io_device_id)
        >>= secured sc

  -- What the `select` yields is the error of the goroutine, or none; the variable is assigned anew by the
  -- teardown, whose error is returned.
  unfoldable pub run : ServerConfig → Io (Unit {0})
  run sc = do
    s ← new_server sc
    event ← serve_until env (codes ":" ++ sc.server_port)
    note graceful_stop
    teardown_jobmaster_cgroups env get_authorized_client_names

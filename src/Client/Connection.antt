-- ===== src/Client/Connection.antt =====
-- api/client/client.go: the connection of the client.
pub mod Laws
use jobmaster.Base.{ℕ, ◌++◌, Text, codes, is_nil, if◌then◌else◌, not}
use jobmaster.Result.{msg, wrap}
use jobmaster.FilePath.{FilePath, clean, join}
use jobmaster.Os.{Env, Io, ◌>>=◌, ◌>>◌, return, fail, on_err, load_pair, read_text_file, dial_to}

pub record ClientConfig : Type 0 where
  pub client_name : Text
  pub client_cert_path_prefix : Text
  pub server_name : Text
  pub server_port : Text
  pub server_ca_cert_file : Text

-- The fields of tls.Config that are set; a certificate stands by its file.
pub record ClientTls : Type 0 where
  pub certificate : FilePath
  pub root_cas : Text
  pub min_version : ℕ
  pub max_version : ℕ

-- grpc.ClientConn, by what it was made of.
pub record ClientConn : Type 0 where
  pub target : Text
  pub creds : ClientTls

-- tls.VersionTLS13.
abbrev pub client_tls_version : ℕ
client_tls_version = 0x0304

unfoldable pub client_cert_file : ClientConfig → FilePath
client_cert_file cc = join (clean cc.client_cert_path_prefix) (cc.client_name ++ codes "_cert.pem")

unfoldable pub client_key_file : ClientConfig → FilePath
client_key_file cc = join (clean cc.client_cert_path_prefix) (cc.client_name ++ codes "_key.pem")

module _ (env : Env) where
  -- The file of the CA is opened under its clean path; the prefix is not empty.
  unfoldable pub load_tls_config_for_client : ClientConfig → Io ClientTls
  load_tls_config_for_client cc = do
    on_err (wrap "failed loading server certificate: %w")
        (load_pair env (client_cert_file cc) (client_key_file cc))
    srv_ca_data ←
        on_err (wrap "failed reading CA certificate: %w")
          (read_text_file env (clean cc.server_ca_cert_file))
    if not (env.has_certificates srv_ca_data)
        then fail (msg "unable to append certificates to the CA pool")
        else return (record {
          certificate = client_cert_file cc;
          root_cas = srv_ca_data;
          min_version = client_tls_version;
          max_version = client_tls_version;
        })

  -- From the checks on.
  unfoldable pub connect : ClientConfig → Io ClientConn
  connect cc = do
    tls ← load_tls_config_for_client cc
    dial_to env (cc.server_name ++ codes ":" ++ cc.server_port)
    return (record { target = cc.server_name ++ codes ":" ++ cc.server_port; creds = tls })

  -- The stub that goes with the connection is generated code: `Main` takes it as a parameter.
  unfoldable pub new_client : ClientConfig → Io ClientConn
  new_client cc =
      if is_nil cc.client_name
      then fail (msg "ClientName not provided in config")
      else if is_nil cc.client_cert_path_prefix
      then fail (msg "ClientCertPathPrefix not provided in config")
      else if is_nil cc.server_name
      then fail (msg "ServerName not provided in config")
      else if is_nil cc.server_port
      then fail (msg "ServerPort not provided in config")
      else if is_nil cc.server_ca_cert_file
      then fail (msg "ServerCACertFile not provided in config")
      else connect cc

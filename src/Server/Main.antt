-- ===== src/Server/Main.antt =====
-- cmd/server/main.go: from the flags to the server.
pub mod Laws
use jobmaster.Base.{◌⊎◌, inl, inr, Text, codes, is_nil, if◌then◌else◌}
use jobmaster.Result.{Error, msg}
use jobmaster.FilePath.{FilePath, join}
use jobmaster.Os.{Env, Io, ◌>>=◌, return, attempt}
use jobmaster.Server.Run.{ServerConfig, run}

-- What go-flags has read; its error is dropped.
pub record Flags : Type 0 where
  pub job_output_dir : Text
  pub io_dev_id : Text

-- How `main` ends: at once by log.Fatal, or with the message of an error, or with none.
pub data Exit : Type 0 where
  fatal failed : Error → Exit
  stopped : Exit

unfoldable pub server_config : FilePath → Flags → ServerConfig
server_config dir flags = record {
  server_port = codes "6443";
  server_cert_key_file = join dir (codes "server1_key.pem");
  server_cert_file = join dir (codes "server1_cert.pem");
  client_ca_file = join dir (codes "client_ca_cert.pem");
  job_output_dir_path = flags.job_output_dir;
  io_device_id = flags.io_dev_id;
}

module _ (env : Env) where
  unfoldable pub serve_until_done : ServerConfig → Io Exit
  serve_until_done sc = do
    r ← attempt (run env sc)
    elim r as (λ _. Io Exit) [ inl e ↦ return (failed e) | inr _ ↦ return stopped ]

  -- The first argument is what filepath.Abs makes of "../../certs".
  unfoldable pub main : Error ⊎ FilePath → Flags → Io Exit
  main certs_dir flags =
      if is_nil flags.io_dev_id
      then return (fatal (msg "Require IO device identifier in <MAJ>:<MIN> format"))
      else elim certs_dir as (λ _. Io Exit) [
        | inl e ↦ return (fatal e)
        | inr dir ↦ serve_until_done (server_config dir flags)
      ]

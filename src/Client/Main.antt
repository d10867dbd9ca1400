-- ===== src/Client/Main.antt =====
-- cmd/client/main.go: from the command line to the call.
pub mod Config
pub mod Laws
use jobmaster.Base.{ℕ, ◌⊎◌, inl, inr, List, ◌++◌, Text, codes, text_eq, CaseMap, if◌then◌else◌}
use jobmaster.Result.{Error, Result, ok, err, panic, hang, msg}
use jobmaster.Os.{Env, Io, close_conn, ◌>>=◌, return, attempt, closing, lift}
use jobmaster.Client.CommandLine.{CommandLine, parse_command_line_args}
use jobmaster.Client.Connection.{ClientConfig, ClientConn, new_client}
use jobmaster.FilePath.{FilePath, join, path_text}
use jobmaster.Client.Calls as Calls
use jobmaster.Client.Calls.{JobServiceClient, Verbs}

-- How `main` ends; all but `done` are logged.
pub data Exit : Type 0 where
  done not_an_operation : Exit
  fatal usage_shown not_created rpc_failed : Error → Exit

-- What the operating system and the generated code give to `main`.
pub record Platform : Type 0 where
  -- filepath.Abs of "../../certs"
  pub certs_dir : Error ⊎ FilePath
  pub stub : ClientConn → JobServiceClient
  pub verbs : Verbs

unfoldable pub client_config : FilePath → Text → ClientConfig
client_config dir name = record {
  client_name = name;
  client_cert_path_prefix = path_text dir;
  server_name = codes "localhost";
  server_port = codes "6443";
  server_ca_cert_file = path_text (join dir (codes "server_ca_cert.pem"));
}

-- `rpcErr`, and the message where it is not nil.
unfoldable pub report : Io (Unit {0}) → Io Exit
report call = do
  r ← attempt call
  elim r as (λ _. Io Exit) [ inl e ↦ return (rpc_failed e) | inr _ ↦ return done ]

-- The switch; the default case shows the usage too.
unfoldable pub dispatch : ℕ → Verbs → JobServiceClient → CommandLine → Io Exit
dispatch fuel v rpc cl =
    if text_eq cl.operation (codes "start")
    then report (Calls.start rpc cl.op_arg cl.additional_args)
    else if text_eq cl.operation (codes "stop")
    then report (Calls.stop rpc v cl.op_arg)
    else if text_eq cl.operation (codes "status")
    then report (Calls.status rpc v cl.op_arg)
    else if text_eq cl.operation (codes "streamoutput")
    then report (Calls.stream_output rpc fuel cl.op_arg)
    else return not_an_operation

module _ ⦃m : CaseMap⦄ (env : Env) (platform : Platform) where
  -- With the arguments parsed; `fuel` is that of the loop over the output.
  unfoldable pub run_operation : ℕ → FilePath → CommandLine → Io Exit
  run_operation fuel dir cl = do
    r ← attempt (new_client env (client_config dir cl.client_name))
    elim r as (λ _. Io Exit) [
      | inl e ↦ return (not_created e)
      | inr conn ↦ closing close_conn (dispatch fuel platform.verbs (platform.stub conn) cl)
    ]

  -- The name of the program and the text of the usage are left out.
  unfoldable pub main : ℕ → List Text → Io Exit
  main fuel args = elim platform.certs_dir [
    | inl e ↦ return (fatal e)
    | inr dir ↦ (do
      r ← attempt (lift (parse_command_line_args args))
      elim r as (λ _. Io Exit) [
        | inl e ↦ return (usage_shown e)
        | inr cl ↦ run_operation fuel dir cl
      ])
  ]

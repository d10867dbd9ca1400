-- ===== src/Tests/Serving.antt =====
-- The life of the server in a world in which every call succeeds.
use jobmaster.Base.{
  ◌≡◌, refl, ◌↔◌, [], ◌∷◌, ◌∙◌, some, none, codes, is_blank, text_eq, trim_space, trim_left,
  is_space,
}
use jobmaster.Result.{ok, msg}
use jobmaster.FilePath.{clean}
use jobmaster.Os.{Env, Log, serve, serve_ended, graceful_stop, rmdir}
use jobmaster.Authz.{get_authorized_client_names}
use jobmaster.Jobslib.Cgroups.{
  parent_path, teardown_jobmaster_cgroups, teardown_clients, teardown_client, remove_entries,
  final_error, noting, verify_cgroups, verify_each, verify_client_cgroup,
}
use jobmaster.Jobslib.Cgroups.Teardown.{AllGone}
use jobmaster.Jobslib.Cgroups.Setup.{
  setup_client, setup_clients, enable_parent, setup_jobmaster_cgroups,
}
use jobmaster.Jobslib.Store.{create_jobs_lib}
use jobmaster.Jobslib.Device.{is_digit, digit_run, one_to_three, validate_io_device_number}
use jobmaster.Server.Run.{
  ServerConfig, Server, secured, load_tls_config_for_server, new_server, run,
}
use jobmaster.Server.Run.Laws.{fresh_lib, strict_tls, Makes, new_server-eq-ok}
use jobmaster.Server.Run.Life.{run-teardown, run-eq-ok}
use jobmaster.Tests.World.{calm}

-- The port is taken: `Serve` ends with an error.
abbrev port_taken : Env
port_taken = record calm { serving = λ log. serve_ended (some (msg "address already in use")) }

abbrev config : ServerConfig
config = record {
  server_port = codes "6443";
  server_cert_key_file = clean (codes "/certs/server1_key.pem");
  server_cert_file = clean (codes "/certs/server1_cert.pem");
  client_ca_file = clean (codes "/certs/client_ca_cert.pem");
  job_output_dir_path = codes "/tmp";
  io_device_id = codes "7:0";
}

abbrev made : Server
made = record {
  job_mgr = fresh_lib get_authorized_client_names (codes "/tmp") (codes "7:0");
  creds = strict_tls config (codes "PEM");
}

abbrev made_log : Log
made_log = (new_server port_taken config []).1

new_server_runs : new_server port_taken config [] ≡ (ok made, made_log)
unfolding new_server secured load_tls_config_for_server create_jobs_lib validate_io_device_number
    digit_run is_digit one_to_three setup_jobmaster_cgroups enable_parent setup_clients setup_client
    verify_cgroups verify_each verify_client_cgroup get_authorized_client_names is_blank text_eq
    trim_space trim_left is_space
new_server_runs = refl

new_server-eq-ok_example :
    (new_server port_taken config [] ≡ (ok made, made_log))
    ↔ Makes port_taken [] config made made_log
new_server-eq-ok_example = new_server-eq-ok port_taken [] config made made_log

abbrev ended_log : Log
ended_log = graceful_stop ∷ serve (codes ":6443") ∷ made_log

abbrev gone_log : Log
gone_log = (teardown_jobmaster_cgroups port_taken get_authorized_client_names ended_log).1

gone_runs :
    teardown_jobmaster_cgroups port_taken get_authorized_client_names ended_log ≡ (ok tt, gone_log)
unfolding teardown_jobmaster_cgroups teardown_clients teardown_client remove_entries
    get_authorized_client_names is_blank trim_space trim_left is_space final_error noting
gone_runs = refl

-- The run succeeds, though nothing was served.
run_runs : run port_taken config [] ≡ (ok tt, gone_log)
run_runs = run-teardown port_taken [] config made made_log new_server_runs ∙ gone_runs

run-eq-ok_example : (run port_taken config [] ≡ (ok tt, gone_log)) ↔ (
    (s : Server) × (l1 : Log) × (l2 : Log) × Makes port_taken [] config s l1
    × AllGone port_taken get_authorized_client_names (graceful_stop ∷ serve (codes ":6443") ∷ l1) l2
    × (port_taken.os_err l2 (rmdir parent_path) ≡ none)
    × (gone_log ≡ rmdir parent_path ∷ l2))
run-eq-ok_example = run-eq-ok port_taken [] config gone_log

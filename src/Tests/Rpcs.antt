-- ===== src/Tests/Rpcs.antt =====
-- The RPCs behind the interceptor at concrete requests.
use jobmaster.Base.{
  ◌≡◌, ◌⊎◌, refl, some, none, codes, Text, List, [], ◌∷◌, Option, lookup, Bool, text_eq, is_space,
  is_blank, trim_space, trim_left, to_lower, to_upper, rune_lower, rune_upper, strip_prefix,
}
use jobmaster.Result.{ok}
use jobmaster.Os.{Log}
use jobmaster.Authn.{
  Certificate, validate_cert_crypto_and_validity, get_jobmaster_entity_name_from_cert_cn,
  get_cert_common_name,
}
use jobmaster.Authz.{Role, role_eq, role_str, role_str_to_role, is_client_authorized}
use jobmaster.Jobslib.Job.{Job}
use jobmaster.Jobslib.Cgroups.{verify_client_cgroup}
use jobmaster.Jobslib.Cgroups.JobDirs.{terminate_job, remove_job_cgroup}
use jobmaster.Jobslib.Store.{
  JobsLib, add_job, set_job, common_sanity, find_and_copy_job_by_id, find_job_by_job_id,
  deep_copy_job_from_pointer, copy_job,
}
use jobmaster.Jobslib.Query.{status}
use jobmaster.Jobslib.Start.{new_job, output_path}
use jobmaster.Jobslib.Stop.{
  is_ended, stopped_job, stop_job, stop_find, wait_gone, mark_stopped, kill_job, stop_entry,
  stop_commit,
}
use jobmaster.Server.Identity.{
  Context, tls, validate_client_unary_interceptor, validate_client_stream_interceptor,
  validate_client, identify, peer_client, validate_client_from_tls_info, validate_certificates,
  validate_certificate, client_info_from_context,
}
use jobmaster.Server.Identity.Laws.{Chain}
use jobmaster.Server.Rpc.{
  stream_output, JobCreateRequest, job_response, caller, admin_role, get_job_id, status_rpc,
  start_rpc, stop_rpc,
}
use jobmaster.Server.Rpc.Reports.{Reports}
use jobmaster.Server.Rpc.Inversion.{Owns}
use jobmaster.Server.Rpc.Streaming.{stream_output-Owns}
use jobmaster.Server.Stream.Prefix.{sent}
use jobmaster.Server.Rpc.Access.{status_rpc-Owns, stop_rpc-Owns}
use jobmaster.Tests.World.{ascii, cert1, calm, empty_lib, one_lib, sleeper, keeps}

abbrev pub boss : Context
boss = record {
  peer = some (tls (some (record cert1 { common_name = codes "jobmaster-superuser" }) ∷ []));
  client_name = none;
  client_role = none;
}

abbrev pub status_log : Log
status_log =
    (validate_client_unary_interceptor calm boss (some (codes "k1")) (status_rpc calm one_lib) []).1

pub status_runs :
    validate_client_unary_interceptor calm boss (some (codes "k1")) (status_rpc calm one_lib) []
    ≡ (ok (job_response (some (codes "k1")) sleeper), status_log)
unfolding jobmaster.Authn.contains validate_client_unary_interceptor validate_client identify
    peer_client validate_client_from_tls_info validate_certificates validate_certificate
    validate_cert_crypto_and_validity text_eq get_jobmaster_entity_name_from_cert_cn
    get_cert_common_name is_blank trim_space trim_left is_space strip_prefix role_eq
    is_client_authorized role_str role_str_to_role lookup rune_lower to_lower rune_upper to_upper
    client_info_from_context caller admin_role get_job_id job_response status_rpc status
    common_sanity find_and_copy_job_by_id find_job_by_job_id deep_copy_job_from_pointer copy_job
status_runs = refl

abbrev stop_log : Log
stop_log =
    (validate_client_unary_interceptor calm boss (some (codes "k1")) (stop_rpc calm 5 one_lib) []).1

abbrev stopped_lib : JobsLib
stopped_lib = set_job (codes "k1") (stopped_job 1000 sleeper) one_lib

stop_runs :
    validate_client_unary_interceptor calm boss (some (codes "k1")) (stop_rpc calm 5 one_lib) []
    ≡ (ok (stopped_lib, job_response (some (codes "k1")) (stopped_job 1000 sleeper)), stop_log)
unfolding jobmaster.Authn.contains validate_client_unary_interceptor validate_client identify
    peer_client validate_client_from_tls_info validate_certificates validate_certificate
    validate_cert_crypto_and_validity text_eq get_jobmaster_entity_name_from_cert_cn
    get_cert_common_name is_blank trim_space trim_left is_space strip_prefix role_eq
    is_client_authorized role_str role_str_to_role lookup rune_lower to_lower rune_upper to_upper
    client_info_from_context caller admin_role get_job_id job_response stop_rpc stop_job stop_find
    stop_commit stop_entry is_ended kill_job terminate_job remove_job_cgroup wait_gone mark_stopped
    verify_client_cgroup common_sanity find_job_by_job_id deep_copy_job_from_pointer copy_job
stop_runs = refl

abbrev list_files : JobCreateRequest
list_files = record { command = codes "ls"; args = [] }

abbrev start_log : Log
start_log = (validate_client_unary_interceptor calm boss list_files (start_rpc calm empty_lib) []).1

abbrev after_start : JobsLib
after_start =
    add_job
      (new_job (codes "k1") (codes "superuser") 42 (codes "ls") []
        (output_path (codes "/tmp") (codes "k1")) 1000)
      empty_lib

status_rpc-Owns_example :
    (certs : List (Option Certificate)) × (name : Text) × (role : Role) × (job : Job) × (boss.peer
      ≡ some (tls certs))
    × Chain certs name role
    × (lookup (codes "k1") one_lib.jobs ≡ some job)
    × Owns name role job
    × Reports (some (codes "k1")) job (job_response (some (codes "k1")) sleeper)
unfolding get_job_id
status_rpc-Owns_example =
    status_rpc-Owns calm keeps one_lib boss [] status_log (some (codes "k1"))
      (job_response (some (codes "k1")) sleeper) status_runs

stop_rpc-Owns_example :
    (certs : List (Option Certificate)) × (name : Text) × (role : Role) × (job : Job) × (boss.peer
      ≡ some (tls certs))
    × Chain certs name role
    × (lookup (codes "k1") stopped_lib.jobs ≡ some job)
    × (is_ended job.state ≡ Bool.true)
    × Owns name role job
unfolding get_job_id
stop_rpc-Owns_example =
    stop_rpc-Owns calm keeps one_lib boss [] stop_log 5 (some (codes "k1")) stopped_lib
      (job_response (some (codes "k1")) (stopped_job 1000 sleeper)) stop_runs

stream_output-Owns_example :
    (sent
        (validate_client_stream_interceptor calm boss
          (λ c'. stream_output calm 3 1 one_lib c' (some (codes "k1")))
          []).1
      ≡ [])
    ⊎ ((certs : List (Option Certificate)) × (name : Text) × (role : Role) × (job : Job)
        × (boss.peer ≡ some (tls certs))
        × Chain certs name role
        × (lookup (codes "k1") one_lib.jobs ≡ some job)
        × Owns name role job)
unfolding get_job_id
stream_output-Owns_example = stream_output-Owns calm keeps 3 1 one_lib boss (some (codes "k1")) []

-- ===== src/Tests/Stopping.antt =====
-- Histories of jobs, and stops, at concrete inputs.
use jobmaster.Base.{
  ◌≡◌, refl, inl, true, false, [], ◌∷◌, Option, none, some, Text, codes, arith, text_eq, lookup, ℕ,
  is_space, is_blank, trim_space, trim_left,
}
use jobmaster.Result.{ok, hang, OsErr, other, not_exist}
use jobmaster.Os.{Env, Log, Call, write_file}
use jobmaster.Jobslib.Job.{Job}
use jobmaster.Jobslib.Device.{is_digit, digit_run, one_to_three, validate_io_device_number}
use jobmaster.Jobslib.Cgroups.{verify_client_cgroup, verify_cgroups, verify_each}
use jobmaster.Jobslib.Cgroups.Setup.{
  setup_client, setup_clients, enable_parent, setup_jobmaster_cgroups,
}
use jobmaster.Jobslib.Cgroups.JobDirs.{create_job_cgroup, terminate_job, remove_job_cgroup}
use jobmaster.Jobslib.Store.{JobsLib, add_job, set_job, create_jobs_lib}
use jobmaster.Jobslib.Start.{
  start_job, start_checked, start_in_cgroup, launch, generate_ksuid_as_string, new_job, output_path,
}
use jobmaster.Jobslib.Stop.{
  is_ended, stopped_job, wait_gone, mark_stopped, kill_job, stop_entry, stop_commit,
}
use jobmaster.Jobslib.Stop.Foreign.{stop_commit_foreign_hangs}
use jobmaster.Jobslib.Stop.Own.{stop_commit-returns, stop_commit_twice}
use jobmaster.Jobslib.History.{started, stopped, here, next}
use jobmaster.Jobslib.History.Evolution.{Evolves, Reach-Evolves}
use jobmaster.Jobslib.History.Invariant.{IsConsistent, create-Reach-IsConsistent}
use jobmaster.Tests.World.{calm, empty_lib, one_lib, sleeper}

abbrev k1 : Text
k1 = codes "k1"

abbrev client : Text
client = codes "client1"

abbrev stopped_lib : JobsLib
stopped_lib = set_job k1 (stopped_job 1000 sleeper) one_lib

abbrev stop_log : Log
stop_log = (stop_commit calm 5 one_lib sleeper client k1 false []).1

stop_runs :
    stop_commit calm 5 one_lib sleeper client k1 false []
    ≡ (ok (stopped_lib, stopped_job 1000 sleeper), stop_log)
unfolding stop_commit stop_entry is_ended kill_job terminate_job remove_job_cgroup wait_gone
    mark_stopped lookup text_eq
stop_runs = refl

stop_commit_twice_example :
    stop_commit calm 0 stopped_lib sleeper client k1 false [] ≡ (ok (stopped_lib, sleeper), [])
stop_commit_twice_example =
    stop_commit_twice calm calm 5 0 one_lib stopped_lib sleeper sleeper (stopped_job 1000 sleeper)
      client k1 false [] stop_log [] stop_runs

Reach-Evolves_example :
    (job' : Job) × (lookup k1 stopped_lib.jobs ≡ some job') × Evolves sleeper job'
unfolding lookup text_eq
Reach-Evolves_example =
    Reach-Evolves {env = calm} {lib = one_lib} {lib' = stopped_lib} k1 sleeper
      (next here
        (stopped 5 sleeper (stopped_job 1000 sleeper) client k1 false [] stop_log stop_runs))
      refl

abbrev new_lib : JobsLib
new_lib = record empty_lib { client_list = client ∷ [] }

abbrev after_start : JobsLib
after_start =
    add_job (new_job k1 client 42 (codes "ls") [] (output_path (codes "/tmp") k1) 1000) new_lib

abbrev created_log : Log
created_log = (create_jobs_lib calm (client ∷ []) (codes "/tmp") (codes "7:0") []).1

create_runs :
    create_jobs_lib calm (client ∷ []) (codes "/tmp") (codes "7:0") [] ≡ (ok new_lib, created_log)
unfolding create_jobs_lib validate_io_device_number digit_run is_digit one_to_three
    setup_jobmaster_cgroups enable_parent setup_clients setup_client verify_cgroups verify_each
    verify_client_cgroup is_blank text_eq trim_space trim_left is_space
create_runs = refl

abbrev start_log : Log
start_log = (start_job calm new_lib client (codes "ls") [] []).1

start_again : start_job calm new_lib client (codes "ls") [] [] ≡ (ok (after_start, k1), start_log)
unfolding start_job start_checked start_in_cgroup launch generate_ksuid_as_string
    verify_client_cgroup create_job_cgroup is_blank text_eq trim_space trim_left is_space
start_again = refl

create-Reach-IsConsistent_example : IsConsistent after_start
unfolding lookup
create-Reach-IsConsistent_example =
    create-Reach-IsConsistent {env = calm} {lib = new_lib} {lib' = after_start} (client ∷ [])
      (codes "/tmp") (codes "7:0") [] created_log create_runs
      (next here (started client (codes "ls") [] k1 [] start_log start_again refl))

-- No kill file can be written, and the process lives on.
abbrev undead_err : Call → Option OsErr
undead_err (write_file p t) = some not_exist
undead_err c = none

abbrev undead : Env
undead = record calm { os_err = λ log c. undead_err c }

stop_commit_foreign_hangs_example :
    (stop_commit undead 9 one_lib sleeper (codes "superuser") k1 true []).0 ≡ hang
unfolding lookup text_eq is_ended
stop_commit_foreign_hangs_example =
    stop_commit_foreign_hangs undead 9 one_lib sleeper sleeper (codes "superuser") k1 [] refl refl
      (ground arith) (ground arith) (ground arith) (λ e. cc) (λ l. refl) (λ l. refl) (λ l a. refl)
      tt

remove_runs : (l : Log) → (l' : Log) × (remove_job_cgroup calm k1 client l ≡ (ok tt, l'))
unfolding remove_job_cgroup
remove_runs l = ((remove_job_cgroup calm k1 client l).1, refl)

stop_commit-returns_example :
    (log' : Log) × (ended : ℕ) × (ended' : ℕ) × (stop_commit calm 1 one_lib sleeper client k1 false
        []
      ≡ (ok (set_job k1 (stopped_job ended sleeper) one_lib, stopped_job ended' sleeper), log'))
unfolding lookup text_eq is_ended
stop_commit-returns_example =
    stop_commit-returns calm 1 0 one_lib sleeper sleeper client k1 false [] (other 3) refl refl
      (inl refl) (λ e. cc) (λ e. cc) refl refl refl (omega arith) remove_runs

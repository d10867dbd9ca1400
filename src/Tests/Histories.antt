-- ===== src/Tests/Histories.antt =====
-- The specification of the library along a concrete history.
use jobmaster.Base.{
  ◌≡◌, refl, false, [], ◌∷◌, Text, codes, lookup, text_eq, insert, is_blank, trim_space, trim_left,
  is_space,
}
use jobmaster.Result.{ok}
use jobmaster.Os.{Log}
use jobmaster.Jobslib.Store.{JobsLib, add_job, set_job}
use jobmaster.Jobslib.Job.{Job}
use jobmaster.Jobslib.Start.{
  start_job, start_checked, start_in_cgroup, launch, generate_ksuid_as_string, new_job, output_path,
}
use jobmaster.Jobslib.Stop.{
  is_ended, stopped_job, wait_gone, mark_stopped, kill_job, stop_entry, stop_commit,
}
use jobmaster.Jobslib.Cgroups.{verify_client_cgroup}
use jobmaster.Jobslib.Cgroups.JobDirs.{create_job_cgroup, terminate_job, remove_job_cgroup}
use jobmaster.Jobslib.History.{Reach, started, stopped, here, next}
use jobmaster.Jobslib.History.Spec.{SpecRun, stop, submit}
use jobmaster.Jobslib.History.View.{view}
use jobmaster.Jobslib.History.Refinement.{Reach-SpecRun}
use jobmaster.Jobslib.History.Stops.{Asked, Reach-Asked}
use jobmaster.Tests.World.{calm, empty_lib}

abbrev k1 : Text
k1 = codes "k1"

abbrev client : Text
client = codes "client1"

abbrev listing : Job
listing = new_job k1 client 42 (codes "ls") [] (output_path (codes "/tmp") k1) 1000

abbrev ended : Job
ended = stopped_job 1000 listing

abbrev one : JobsLib
one = add_job listing empty_lib

abbrev two : JobsLib
two = set_job k1 ended one

abbrev start_log : Log
start_log = (start_job calm empty_lib client (codes "ls") [] []).1

abbrev stop_log : Log
stop_log = (stop_commit calm 5 one listing client k1 false []).1

start_runs : start_job calm empty_lib client (codes "ls") [] [] ≡ (ok (one, k1), start_log)
unfolding start_job start_checked start_in_cgroup launch generate_ksuid_as_string
    verify_client_cgroup create_job_cgroup is_blank text_eq trim_space trim_left is_space
start_runs = refl

stop_runs : stop_commit calm 5 one listing client k1 false [] ≡ (ok (two, ended), stop_log)
unfolding stop_commit stop_entry is_ended kill_job terminate_job remove_job_cgroup wait_gone
    mark_stopped lookup text_eq add_job new_job insert
stop_runs = refl

start_and_stop : Reach calm empty_lib two
unfolding lookup
start_and_stop =
    next (next here (started client (codes "ls") [] k1 [] start_log start_runs refl))
      (stopped 5 listing ended client k1 false [] stop_log stop_runs)

Reach-SpecRun_example :
    SpecRun (view empty_lib) (stop k1 client false ∷ submit k1 client ∷ []) (view two)
unfolding start_and_stop
Reach-SpecRun_example = Reach-SpecRun {env = calm} {lib = empty_lib} {lib' = two} start_and_stop

Reach-Asked_example : Asked k1 client (stop k1 client false ∷ submit k1 client ∷ [])
unfolding start_and_stop lookup set_job add_job stopped_job text_eq new_job insert
Reach-Asked_example =
    Reach-Asked {env = calm} {lib = empty_lib} {lib' = two} k1 ended start_and_stop refl refl refl

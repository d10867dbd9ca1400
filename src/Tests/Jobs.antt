-- ===== src/Tests/Jobs.antt =====
-- Starting jobs and reading them, at concrete inputs.
use jobmaster.Base.{
  ◌≡◌, refl, ◌↔◌, ◌⊎◌, ◌≢◌, inl, inr, true, false, [], ◌∷◌, ◌++◌, none, some, Text, codes, lookup,
}
use jobmaster.Result.{ok, not_exist}
use jobmaster.FilePath.{FilePath}
use jobmaster.Os.{Log, Call, mkdir, check_ctx, FileInfo, write_file, stat, rmdir}
use jobmaster.Jobslib.Device.{is_digit, digit_run, one_to_three, validate_io_device_number}
use jobmaster.Jobslib.Device.Laws.{IsNumber, validate_io_device_number_iff}
use jobmaster.Jobslib.Cgroups.{job_path, kill_file}
use jobmaster.Jobslib.Cgroups.JobDirs.{create_job_cgroup, remove_job_cgroup}
use jobmaster.Jobslib.Cgroups.JobDirs.Laws.{
  limit_calls, Succeed, create_job_cgroup-eq-ok, remove_job_cgroup-eq-ok,
}
use jobmaster.Jobslib.Store.{JobsLib, add_job}
use jobmaster.Jobslib.Query.{status}
use jobmaster.Jobslib.Query.Laws.{MayUse, LiveThrice, status-eq-ok}
use jobmaster.Jobslib.Start.{new_job, output_path}
use jobmaster.Tests.World.{calm, empty_lib, one_lib, sleeper}

device_tests :
    (validate_io_device_number (codes "254:0") ≡ true)
    × (validate_io_device_number (codes "254:0 ") ≡ false)
    × (validate_io_device_number (codes "1234:0") ≡ false)
    × (validate_io_device_number (codes "8") ≡ false)
unfolding validate_io_device_number digit_run is_digit one_to_three
device_tests = (refl, refl, refl, refl)

validate_io_device_number_example :
    (validate_io_device_number (codes "254:0") ≡ true)
    ↔ ((a : Text) × (b : Text) × (codes "254:0" ≡ a ++ b':' ∷ b) × IsNumber a × IsNumber b)
validate_io_device_number_example = validate_io_device_number_iff (codes "254:0")

create_job_cgroup_example :
    (create_job_cgroup calm (codes "k1") (codes "client1") (codes "7:0") [] ≡ (
      ok (job_path (codes "client1") (codes "k1")),
      limit_calls (job_path (codes "client1") (codes "k1")) (codes "7:0")
          ++ mkdir (job_path (codes "client1") (codes "k1")) ∷ [],
    ))
    ↔ ((codes "k1" ≢ [])
        × (codes "client1" ≢ [])
        × (codes "7:0" ≢ [])
        × (job_path (codes "client1") (codes "k1") ≡ job_path (codes "client1") (codes "k1"))
        × (◌≡◌ {A = Log}
            (limit_calls (job_path (codes "client1") (codes "k1")) (codes "7:0")
              ++ mkdir (job_path (codes "client1") (codes "k1")) ∷ [])
            (limit_calls (job_path (codes "client1") (codes "k1")) (codes "7:0")
              ++ mkdir (job_path (codes "client1") (codes "k1")) ∷ []))
        × Succeed calm [] (
            limit_calls (job_path (codes "client1") (codes "k1")) (codes "7:0")
            ++ mkdir (job_path (codes "client1") (codes "k1")) ∷ []))
create_job_cgroup_example =
    create_job_cgroup-eq-ok calm (codes "k1") (codes "client1") (codes "7:0") [] _ _

status_example :
    (status calm one_lib (codes "client1") (codes "k1") false []
      ≡ (ok sleeper, check_ctx ∷ check_ctx ∷ check_ctx ∷ []))
    ↔ ((lookup (codes "k1") one_lib.jobs ≡ some sleeper)
        × (codes "k1" ≢ [])
        × ((codes "client1" ≢ []) ⊎ (false ≡ true))
        × MayUse (codes "client1") false sleeper
        × LiveThrice calm []
        × (◌≡◌ {A = Log}
            (check_ctx ∷ check_ctx ∷ check_ctx ∷ [])
            (check_ctx ∷ check_ctx ∷ check_ctx ∷ [])))
status_example = status-eq-ok calm one_lib (codes "client1") (codes "k1") false [] _ sleeper

abbrev client : Text
client = codes "client1"

abbrev after_start : JobsLib
after_start =
    add_job
      (new_job (codes "k1") client 42 (codes "ls") [] (output_path (codes "/tmp") (codes "k1"))
        1000)
      empty_lib

abbrev dir : FilePath
dir = job_path client (codes "k1")

abbrev kill : Call
kill = write_file (kill_file dir) (codes "1")

remove_job_cgroup_example :
    (remove_job_cgroup calm (codes "k1") client [] ≡ (ok tt, rmdir dir ∷ stat dir ∷ kill ∷ [])) ↔ (
      (codes "k1" ≢ [])
      × (client ≢ [])
      × ((calm.os_err [] kill ≡ none) ⊎ (calm.os_err [] kill ≡ some not_exist))
      × (((calm.stat_of (kill ∷ []) dir ≡ inl not_exist)
            × (◌≡◌ {A = Log} (rmdir dir ∷ stat dir ∷ kill ∷ []) (stat dir ∷ kill ∷ [])))
          ⊎ ((i : FileInfo) × (calm.stat_of (kill ∷ []) dir ≡ inr i)
              × (calm.os_err (stat dir ∷ kill ∷ []) (rmdir dir) ≡ none)
              × (◌≡◌ {A = Log}
                  (rmdir dir ∷ stat dir ∷ kill ∷ [])
                  (rmdir dir ∷ stat dir ∷ kill ∷ [])))))
remove_job_cgroup_example = remove_job_cgroup-eq-ok calm (codes "k1") client [] _

-- ===== src/Jobslib/Cgroups.antt =====
-- jobslib/cgroups.go: the cgroup directories of the clients and of their jobs.
pub mod Setup
pub mod Teardown
pub mod JobDirs
use jobmaster.Base.{
  Bool, true, false, not, ◌||◌, List, [], ◌∷◌, ◌++◌, Option, none, some, Text, codes, text_eq,
  is_nil, is_blank, if◌then◌else◌, inl, inr,
}
use jobmaster.Result.{OsErr, not_exist, Result, ok, err, panic, hang, Error, msg, wrap, os, joined}
use jobmaster.FilePath.{FilePath, clean, join}
use jobmaster.Os.{
  Env, Io, Call, FileInfo, DirEntry, mkdir, mkdir_all, remove, rmdir, write_file, ◌>>=◌, ◌>>◌,
  return, fail, on_err, ask, call, stat_path, list_dir,
}

-- filepath.Join(cgroup2MountRoot, cgroupParentDir).
unfoldable pub parent_path : FilePath
parent_path = join (clean (codes "/sys/fs/cgroup")) (codes "jobmaster")

unfoldable pub client_path : Text → FilePath
client_path client = join parent_path client

unfoldable pub job_path : Text → Text → FilePath
job_path client job = join (client_path client) job

-- cgroupControllerEnableString.
abbrev pub controllers : Text
controllers = codes "+io +cpu +memory"

unfoldable pub subtree_control_file : FilePath → FilePath
subtree_control_file dir = join dir (codes "cgroup.subtree_control")

unfoldable pub kill_file : FilePath → FilePath
kill_file dir = join dir (codes "cgroup.kill")

unfoldable pub io_max_file : FilePath → FilePath
io_max_file dir = join dir (codes "io.max")

unfoldable pub memory_max_file : FilePath → FilePath
memory_max_file dir = join dir (codes "memory.max")

unfoldable pub oom_group_file : FilePath → FilePath
oom_group_file dir = join dir (codes "memory.oom.group")

unfoldable pub cpu_max_file : FilePath → FilePath
cpu_max_file dir = join dir (codes "cpu.max")

-- "%s %s %s" of the device, ioMaxLimitBytesPerSec and ioMaxLimitIOPS.
unfoldable pub io_limits : Text → Text
io_limits device = device ++ codes " rbps=4096 wbps=4096 riops=10 wiops=10"

abbrev pub memory_max_limit_bytes : Text
memory_max_limit_bytes = codes "1048576"

abbrev pub memory_oom_group : Text
memory_oom_group = codes "1"

abbrev pub cpu_max_limit_microsecs : Text
cpu_max_limit_microsecs = codes "10000 10000"

-- errors.Join over the list keeps the last error alone: each round assigns `finale` anew.
unfoldable pub final_error : Error → List Error → Error
final_error finale [] = finale
final_error finale (e ∷ es) = final_error (joined e) es

module _ (env : Env) where
  unfoldable pub verify_client_cgroup : Text → Io (Unit {0})
  verify_client_cgroup client = if is_blank client then fail (msg "client name is empty") else (do
    info ← stat_path env (client_path client)
    elim info [
      | inl e ↦ fail (wrap "error verifying client cgroup dir '%s': %w" (os e))
      | inr i ↦
          if i.is_dir
          then return tt
          else fail (msg "cgroup file '%s' for client %s is not a directory")
    ])

  unfoldable pub verify_each : List Text → Io (Unit {0})
  verify_each [] = return tt
  verify_each (client ∷ clients) = do verify_client_cgroup client; verify_each clients

  unfoldable pub verify_cgroups : List Text → Io (Unit {0})
  verify_cgroups [] = fail (msg "client list for cgroup verification is empty")
  verify_cgroups (c ∷ cs) = do
    info ← stat_path env parent_path
    elim info [
      | inl e ↦ fail (wrap "error verifying main jobmaster cgroup directory '%s': %w" (os e))
      | inr i ↦
          if i.is_dir
          then verify_each (c ∷ cs)
          else fail (msg "main jobmaster cgroup directory '%s' is not a directory")
    ]

  -- A call whose error is appended to the list.
  unfoldable pub noting : List Error → Call → Io (List Error)
  noting errs c = do
    e ← ask env c
    elim e [ none ↦ return errs | some o ↦ return (errs ++ os o ∷ []) ]

  -- The loop over the entries of a client's directory.
  unfoldable pub remove_entries : FilePath → List Error → List DirEntry → Io (List Error)
  remove_entries dir errs [] = return errs
  remove_entries dir errs (e ∷ es) = do
    errs' ← (if e.is_dir then noting errs (rmdir (join dir e.name)) else return errs)
    remove_entries dir errs' es

  -- The body of the loop behind the stat call.
  unfoldable pub teardown_client : FilePath → List Error → Io (List Error)
  teardown_client dir errs = do
    killed ← noting errs (write_file (kill_file dir) (codes "1"))
    found ← list_dir env dir
    emptied ← elim found as (λ _. Io (List Error)) [
      | inl e ↦ return (killed ++ os e ∷ [])
      | inr es ↦ remove_entries dir killed es
    ]
    noting emptied (rmdir dir)

  unfoldable pub teardown_clients : List Error → List Text → Io (List Error)
  teardown_clients errs [] = return errs
  teardown_clients errs (client ∷ clients) = do
    info ← stat_path env (client_path client)
    errs' ← elim info as (λ _. Io (List Error)) [
      | inl not_exist ↦ return errs
      | inl e ↦ fail (os e)
      | inr i ↦ teardown_client (client_path client) errs
    ]
    teardown_clients errs' clients

  unfoldable pub teardown_jobmaster_cgroups : List Text → Io (Unit {0})
  teardown_jobmaster_cgroups [] = fail (msg "client list for cgroup teardown is empty")
  teardown_jobmaster_cgroups (c ∷ cs) = do
    errs ← teardown_clients [] (c ∷ cs)
    if is_nil errs
        then on_err (wrap "failed to remove jobmaster cgroup parent dir %q: %w")
            (call env (rmdir parent_path))
        else fail (final_error (msg "error removing one or more client cgroup (sub)dirs") errs)

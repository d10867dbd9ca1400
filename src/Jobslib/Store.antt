-- ===== src/Jobslib/Store.antt =====
-- jobslib/jobslib.go: the library's state, its creation, and the look-up of a job.
-- A pointer to a job is the job's ID: the jobs stay in the map, and a write through the pointer is a
-- write to the entry. Each function is one critical section of `mu`, or lies between two.
use jobmaster.Base.{
  Bool, not, ◌&&◌, List, [], ◌∷◌, ◌++◌, Option, none, some, Text, codes, is_nil, is_blank, lookup,
  insert, if◌then◌else◌,
}
use jobmaster.Result.{msg, wrap}
use jobmaster.Os.{Env, Io, ◌>>=◌, ◌>>◌, return, fail, on_err, check_live}
use jobmaster.Jobslib.Job.{Job}
use jobmaster.Jobslib.Device.{validate_io_device_number}
use jobmaster.Jobslib.Cgroups.Setup.{setup_jobmaster_cgroups}

pub record JobsLib : Type 0 where
  pub jobs : List (Text × Job)
  pub client_to_job_id : List (Text × List Text)
  pub client_list : List Text
  pub output_dir : Text
  pub io_dev_major_minor : Text

-- The value at a key; a missing key stands for the nil slice.
unfoldable pub ids_at : Text → List (Text × List Text) → List Text
ids_at client m = elim (lookup client m) [ none ↦ [] | some ids ↦ ids ]

-- `m[k] = append(m[k], id)`.
unfoldable pub append_id : Text → Text → List (Text × List Text) → List (Text × List Text)
append_id client id m = insert client (ids_at client m ++ id ∷ []) m

-- The writes of `Start` under the lock.
unfoldable pub add_job : Job → JobsLib → JobsLib
add_job job lib = record lib {
  jobs = insert job.id job lib.jobs;
  client_to_job_id = append_id job.client_name job.id lib.client_to_job_id;
}

-- A write through the pointer to the job with that ID.
unfoldable pub set_job : Text → Job → JobsLib → JobsLib
set_job id job lib = record lib { jobs = insert id job lib.jobs }

-- The copy of every field; copied strings and slices are equal to their sources.
unfoldable pub copy_job : Job → Job
copy_job job = record {
  id = job.id;
  mesg = job.mesg;
  client_name = job.client_name;
  pid = job.pid;
  state = job.state;
  exit_code = job.exit_code;
  signal_str = job.signal_str;
  command = job.command;
  cmd_args = job.cmd_args;
  started_unix_milli = job.started_unix_milli;
  ended_unix_milli = job.ended_unix_milli;
  output_file_path = job.output_file_path;
}

module _ (env : Env) where
  unfoldable pub create_jobs_lib : List Text → Text → Text → Io JobsLib
  create_jobs_lib clients output_dir device =
      if is_nil clients
      then fail (msg "cannot create JobsLib: clientList is empty")
      else if not (validate_io_device_number device)
      then fail (msg "cannot create JobsLib: ioDevMajorMinor %q is not in a valid dev ID format")
      else (do
        on_err (wrap "cannot create JobsLib: failed cgroup setup due to %w")
            (setup_jobmaster_cgroups env clients)
        return (record {
          jobs = [];
          client_to_job_id = [];
          client_list = clients;
          output_dir = if is_blank output_dir then codes "/tmp" else output_dir;
          io_dev_major_minor = device;
        }))

  unfoldable pub common_sanity : Text → Text → Bool → Io (Unit {0})
  common_sanity client id override =
      if not override && is_nil client
      then fail (msg "clientName is empty and we were not told to override client checks")
      else if is_nil id
      then fail (msg "jobID is empty")
      else on_err (wrap "context reported error: %w") (check_live env)

  unfoldable pub find_job_by_job_id : JobsLib → Text → Io Job
  find_job_by_job_id lib id =
      if is_nil id then fail (msg "cannot findJobByJobID, jobID is empty") else (do
        check_live env
        elim (lookup id lib.jobs) [
          | none ↦ fail (msg "job with ID %q was not found")
          | some job ↦ return job
        ])

  unfoldable pub deep_copy_job_from_pointer : Option Job → Io Job
  deep_copy_job_from_pointer none = fail (msg "source job pointer is nil")
  deep_copy_job_from_pointer (some job) = do check_live env; return (copy_job job)

  unfoldable pub find_and_copy_job_by_id : JobsLib → Text → Io Job
  find_and_copy_job_by_id lib id = do
    job ← find_job_by_job_id lib id
    deep_copy_job_from_pointer (some job)

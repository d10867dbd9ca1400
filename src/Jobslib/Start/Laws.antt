-- ===== src/Jobslib/Start/Laws.antt =====
-- What a successful `Start` has done (jobslib/jobslib.go).
use jobmaster.Base.{
  ℕ, ◌≡◌, inl, inr, ◌≢◌, false, List, [], ◌∷◌, ◌++◌, arith, Text, is_blank, Sum-cases,
}
use jobmaster.Result.{wrap, ok}
use jobmaster.FilePath.{FilePath}
use jobmaster.Os.{
  Env, Log, bound-eq-ok, renamed-eq-ok, check_live, on_err, check_ctx, mkdir, stat, open_dir,
  create_file, close_file, start_process, now, new_ksuid,
}
use jobmaster.Jobslib.Cgroups.{client_path, job_path, verify_client_cgroup}
use jobmaster.Jobslib.Cgroups.JobDirs.{create_job_cgroup}
use jobmaster.Jobslib.Cgroups.JobDirs.Laws.{limit_calls, create_job_cgroup-eq-ok}
use jobmaster.Jobslib.Store.{JobsLib, add_job}
use jobmaster.Jobslib.Start.{
  output_path, new_job, generate_ksuid_as_string, start_checked, launch, start_in_cgroup, start_job,
}

module _ (env : Env) (lib : JobsLib) (client command : Text) (args : List Text) (log : Log) where
  -- The calls up to the new job's cgroup directory, the newest first.
  abbrev pub made_calls : Text → Log
  made_calls id =
      limit_calls (job_path client id) lib.io_dev_major_minor
      ++ mkdir (job_path client id) ∷ new_ksuid ∷ check_ctx ∷ stat (client_path client) ∷ log

  -- The log at which the clock is read; the process is started next.
  abbrev pub file_created : Text → Log
  file_created id =
      create_file (output_path lib.output_dir id) ∷ open_dir (job_path client id) ∷ made_calls id

  -- All the calls of a successful start.
  abbrev pub start_calls : Text → Log
  start_calls id =
      let output = output_path lib.output_dir id in
      close_file (job_path client id)
      ∷ close_file output
      ∷ start_process (job_path client id) output command args
      ∷ now
      ∷ file_created id

  start_in_cgroup-eq-ok :
      (id : Text) (cgroup : FilePath) (lib' : JobsLib) (id' : Text) (log1 log' : Log)
      → start_in_cgroup env lib client command args id cgroup log1 ≡ (ok (lib', id'), log')
      → (pid : ℕ) × (env.spawn
            (now ∷ create_file (output_path lib.output_dir id) ∷ open_dir cgroup ∷ log1)
          ≡ inr pid)
        × (id' ≡ id)
        × (lib'
            ≡ add_job
                (new_job id client pid command args (output_path lib.output_dir id) (
                  env.unix_milli
                    (create_file (output_path lib.output_dir id) ∷ open_dir cgroup ∷ log1)))
                lib)
        × (log'
            ≡ close_file cgroup
              ∷ close_file (output_path lib.output_dir id)
              ∷ start_process cgroup (output_path lib.output_dir id) command args
              ∷ now
              ∷ create_file (output_path lib.output_dir id)
              ∷ open_dir cgroup
              ∷ log1)
  unfolding start_in_cgroup launch
  start_in_cgroup-eq-ok id cgroup lib' id' log1 log' h =
      let opened = open_dir cgroup ∷ log1 in
      let created = create_file (output_path lib.output_dir id) ∷ opened in
      elim (Sum-cases (env.spawn (now ∷ created))) [
        | inl (e, failed) ↦ absurd (ground arith)
        | inr (pid, spawned) ↦ (pid, spawned, ground arith, ground arith, ground arith)
      ]

  verify_client_cgroup-eq-ok :
      (log1 : Log) (u : Unit {0})
      → verify_client_cgroup env client log ≡ (ok u, log1)
      → (is_blank client ≡ false) × (log1 ≡ stat (client_path client) ∷ log)
  unfolding verify_client_cgroup
  verify_client_cgroup-eq-ok log1 u h = ground arith

  -- The effect of a successful start on the library and the world.
  abbrev pub Started : JobsLib → Text → Log → Type 0
  Started lib' id log' =
      (pid : ℕ) × (env.spawn (now ∷ file_created id) ≡ inr pid)
      × (lib'
          ≡ add_job
              (new_job id client pid command args (output_path lib.output_dir id)
                (env.unix_milli (file_created id)))
              lib)
      × (log' ≡ start_calls id)
      × (env.ksuid (check_ctx ∷ stat (client_path client) ∷ log) ≡ inr id)
      × (is_blank client ≡ false)
      × (command ≢ [])
      × (id ≢ [])
      × (lib.io_dev_major_minor ≢ [])

  in_cgroup-Started :
      (id' : Text) (l3 : Log) (cgroup : FilePath) (l4 : Log) (lib' : JobsLib) (id : Text)
      (log' : Log)
      → is_blank client ≡ false
      → command ≢ []
      → (env.ksuid (check_ctx ∷ stat (client_path client) ∷ log) ≡ inr id')
        × (l3 ≡ new_ksuid ∷ check_ctx ∷ stat (client_path client) ∷ log)
      → create_job_cgroup env id' client lib.io_dev_major_minor l3 ≡ (ok cgroup, l4)
      → start_in_cgroup env lib client command args id' cgroup l4 ≡ (ok (lib', id), log')
      → Started lib' id log'
  in_cgroup-Started id' l3 cgroup l4 lib' id log' solid named (fresh, e3) made h =
      let (id-named, _, device, at, calls, _) =
        (create_job_cgroup-eq-ok env id' client lib.io_dev_major_minor l3 cgroup l4).0 made in
      let (pid, spawned, same, lib-same, all) =
        start_in_cgroup-eq-ok id' cgroup lib' id l4 log' h in
      (pid, cc, cc, cc, rw same fresh, solid, named, rw same id-named, device)

  id_made :
      (l1 : Log) (u : Unit {0}) (l2 : Log) (id' : Text) (l3 : Log)
      → l1 ≡ stat (client_path client) ∷ log
      → check_live env l1 ≡ (ok u, l2)
      → on_err (wrap "cannot Start, failed generating job ID: %w") (generate_ksuid_as_string env) l2
        ≡ (ok id', l3)
      → (env.ksuid (check_ctx ∷ stat (client_path client) ∷ log) ≡ inr id')
        × (l3 ≡ new_ksuid ∷ check_ctx ∷ stat (client_path client) ∷ log)
  unfolding generate_ksuid_as_string
  id_made l1 u l2 id' l3 e1 e2 e3 = ground arith

  start_checked-eq-ok :
      (lib' : JobsLib) (id : Text) (log' : Log)
      → command ≢ []
      → start_checked env lib client command args log ≡ (ok (lib', id), log')
      → Started lib' id log'
  unfolding start_checked
  start_checked-eq-ok lib' id log' named h =
      let (u, l1, e1, h1) = bound-eq-ok _ _ h in
      let (solid, s1) = verify_client_cgroup-eq-ok l1 u (renamed-eq-ok _ _ e1) in
      let (u2, l2, e2, h2) = bound-eq-ok (check_live env l1) _ h1 in
      let (id', l3, e3, h3) =
        bound-eq-ok
          (on_err (wrap "cannot Start, failed generating job ID: %w") (generate_ksuid_as_string env)
            l2)
          _ h2 in
      let (cgroup, l4, e4, h4) = bound-eq-ok _ _ h3 in
      in_cgroup-Started id' l3 cgroup l4 lib' id log' solid named (id_made l1 u2 l2 id' l3 s1 e2 e3)
        (renamed-eq-ok _ _ e4) h4

  pub start_job-eq-ok :
      (lib' : JobsLib) (id : Text) (log' : Log)
      → start_job env lib client command args log ≡ (ok (lib', id), log')
      → Started lib' id log'
  unfolding start_job
  start_job-eq-ok lib' id log' h = start_checked-eq-ok lib' id log' (ground arith) (ground arith)
